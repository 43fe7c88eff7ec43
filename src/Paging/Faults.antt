-- ===== src/Paging/Faults.antt =====
-- handle_page_fault: the frame that it takes, and what it changes.
use palley_os.Prelude.{
  ℕ, zero, suc, ◌+◌, ◌*◌, ◌%◌, ◌^◌, ◌<◌, ◌≡◌, refl, sym, ap, ◌∙◌, Bool, true, false, Option, none,
  some, List, [], ◌∷◌, ◌++◌, arith, ◌==◌, ltb, if◌then◌else◌, ==_iff, u32_mod, set,
}
use mathlib.Core.Path.{subst}
use palley_os.Prelude.Bits.{holds_below, holds_below-at}
use palley_os.Paging.{
  Paging, Region, construct_page_dir_entry, page_size_4_mib, page_read_write,
  page_user_and_supervisor, is_frame_used, set_frame_used, find_frame, find_in_regions,
  frame_start_of, frame_count_of, handle_page_fault, get_physical_frame_number,
  get_virtual_frame_number, frame_size,
}

abbrev user_entry : ℕ → Option ℕ
user_entry pfn =
    construct_page_dir_entry pfn page_size_4_mib page_read_write page_user_and_supervisor

abbrev entry_test : ℕ → Bool
entry_test pfn = elim (user_entry pfn) [ none ↦ false | some e ↦ e == pfn * 2 ^ 22 + 0x87 ]

entry_table : holds_below 1024 entry_test ≡ true
unfolding holds_below construct_page_dir_entry
entry_table = refl

user_entry-bits : (pfn : ℕ) → pfn < 1024 → user_entry pfn ≡ some (pfn * 2 ^ 22 + 0x87)
user_entry-bits pfn h = go (user_entry pfn) (holds_below-at 1024 entry_test pfn entry_table h)
  where
    go :
        (o : Option ℕ)
        → elim o [ none ↦ false | some e ↦ e == pfn * 2 ^ 22 + 0x87 ] ≡ true
        → o ≡ some (pfn * 2 ^ 22 + 0x87)
    go none h = cc
    go (some e) h = ap some ((==_iff e (pfn * 2 ^ 22 + 0x87)).0 h)

-- The frames of a region that are tried: from its first frame on, as many as are counted.
abbrev pub frames_from : ℕ → ℕ → ℕ → List ℕ
frames_from start zero frame = []
frames_from start (suc left) frame =
    get_physical_frame_number ((start + frame * frame_size) % u32_mod)
    ∷ frames_from start left (frame + 1)

abbrev pub frames_of : Region → List ℕ
frames_of region =
    if ltb ((region.address + region.size) % u32_mod) (frame_start_of region)
    then []
    else frames_from (frame_start_of region) (frame_count_of region) 0

-- The frames of the regions, in the order in which they are tried.
abbrev pub frames : List Region → List ℕ
frames [] = []
frames (region ∷ regions) = frames_of region ++ frames regions

abbrev pub first_unused : List ℕ → List ℕ → Option ℕ
first_unused words [] = none
first_unused words (pfn ∷ pfns) =
    if is_frame_used words pfn then first_unused words pfns else some pfn

find_frame-first :
    (words : List ℕ) (start left frame : ℕ)
    → find_frame words start left frame ≡ first_unused words (frames_from start left frame)
unfolding find_frame
find_frame-first words start zero frame = refl
find_frame-first words start (suc left) frame =
    rw (find_frame-first words start left (frame + 1)) refl

first_unused-append :
    (words xs ys : List ℕ)
    → first_unused words (xs ++ ys)
      ≡ elim (first_unused words xs) [ none ↦ first_unused words ys | some pfn ↦ some pfn ]
first_unused-append words [] ys = refl
first_unused-append words (x ∷ xs) ys = go (is_frame_used words x) (first_unused-append words xs ys)
  where
    go :
        (b : Bool)
        → first_unused words (xs ++ ys)
          ≡ elim (first_unused words xs) [ none ↦ first_unused words ys | some pfn ↦ some pfn ]
        → (if b then first_unused words (xs ++ ys) else some x)
          ≡ elim (if b then first_unused words xs else some x) [
            | none ↦ first_unused words ys
            | some pfn ↦ some pfn
          ]
    go true rest = rest
    go false rest = refl

region_step :
    (words xs ys : List ℕ) (b : Bool) (here rest : Option ℕ)
    → here ≡ first_unused words xs
    → rest ≡ first_unused words ys
    → (if b then rest else elim here [ none ↦ rest | some pfn ↦ some pfn ])
      ≡ first_unused words ((if b then [] else xs) ++ ys)
region_step words xs ys true here rest h r = r
region_step words xs ys false none rest h r =
    r ∙ sym (first_unused-append words xs ys ∙ rw (← h) refl)
region_step words xs ys false (some pfn) rest h r =
    sym (first_unused-append words xs ys ∙ rw (← h) refl)

find_in_regions-first :
    (words : List ℕ) (regions : List Region)
    → find_in_regions words regions ≡ first_unused words (frames regions)
unfolding find_in_regions
find_in_regions-first words [] = refl
find_in_regions-first words (region ∷ regions) =
    region_step words (frames_from (frame_start_of region) (frame_count_of region) 0)
      (frames regions) (ltb ((region.address + region.size) % u32_mod) (frame_start_of region))
      (find_frame words (frame_start_of region) (frame_count_of region) 0)
      (find_in_regions words regions)
      (find_frame-first words (frame_start_of region) (frame_count_of region) 0)
      (find_in_regions-first words regions)

-- A frame that is found has ten bits.
Small : Option ℕ → Type 0
Small none = Unit
Small (some pfn) = pfn < 1024

find_frame-Small :
    (words : List ℕ) (start left frame : ℕ) → Small (find_frame words start left frame)
unfolding find_frame Small
find_frame-Small words start zero frame = tt
find_frame-Small words start (suc left) frame =
    go (is_frame_used words (get_physical_frame_number ((start + frame * frame_size) % u32_mod)))
      (find_frame words start left (frame + 1)) (find_frame-Small words start left (frame + 1))
  where
    go :
        (b : Bool) (rest : Option ℕ)
        → Small rest
        → Small (
            if b
            then rest
            else some (get_physical_frame_number ((start + frame * frame_size) % u32_mod)))
    go true rest h = h
    go false rest h = omega arith

find_in_regions-Small :
    (words : List ℕ) (regions : List Region) → Small (find_in_regions words regions)
unfolding find_in_regions Small
find_in_regions-Small words [] = tt
find_in_regions-Small words (region ∷ regions) =
    go (ltb ((region.address + region.size) % u32_mod) (frame_start_of region))
      (find_frame words (frame_start_of region) (frame_count_of region) 0)
      (find_in_regions words regions)
      (find_frame-Small words (frame_start_of region) (frame_count_of region) 0)
      (find_in_regions-Small words regions)
  where
    go :
        (b : Bool) (here rest : Option ℕ)
        → Small here
        → Small rest
        → Small (if b then rest else elim here [ none ↦ rest | some pfn ↦ some pfn ])
    go true here rest h k = k
    go false none rest h k = k
    go false (some pfn) rest h k = h

pub first_unused-lt :
    (words : List ℕ) (regions : List Region) (pfn : ℕ)
    → first_unused words (frames regions) ≡ some pfn
    → pfn < 1024
unfolding Small
first_unused-lt words regions pfn e =
    subst Small (find_in_regions-first words regions ∙ e) (find_in_regions-Small words regions)

-- The frame that is taken, among those that the regions' loops try, and what changes.
pub handle_page_fault-tried :
    (fault_address : ℕ) (p : Paging)
    → handle_page_fault fault_address p ≡ elim (first_unused p.words (frames p.regions)) [
      | none ↦ none
      | some pfn ↦ some (record p {
        words = set_frame_used p.words pfn;
        page_directory =
            set p.page_directory (get_virtual_frame_number fault_address) (pfn * 2 ^ 22 + 0x87);
      })
    ]
unfolding handle_page_fault Small
handle_page_fault-tried a p =
    go (find_in_regions p.words p.regions) refl (find_in_regions-Small p.words p.regions)
  where
    go :
        (o : Option ℕ)
        → find_in_regions p.words p.regions ≡ o
        → Small o
        → handle_page_fault a p ≡ elim (first_unused p.words (frames p.regions)) [
          | none ↦ none
          | some pfn ↦ some (record p {
            words = set_frame_used p.words pfn;
            page_directory =
                set p.page_directory (get_virtual_frame_number a) (pfn * 2 ^ 22 + 0x87);
          })
        ]
    go none e h = rw (← find_in_regions-first p.words p.regions, e, handle_page_fault) refl
    go (some pfn) e h =
        rw (← find_in_regions-first p.words p.regions, e, user_entry-bits pfn h, handle_page_fault)
          refl
