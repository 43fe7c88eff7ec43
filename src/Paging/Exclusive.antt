-- ===== src/Paging/Exclusive.antt =====
-- src/memory.c: the frames that the pages are mapped to, over the page faults of a run.
use Prim.Native.Nat.{bit_or}
use palley_os.Prelude.{
  ℕ, zero, suc, ◌+◌, ◌*◌, ◌/◌, ◌%◌, ◌^◌, ◌<◌, ◌≡◌, ◌≢◌, refl, sym, ap, ◌∙◌, ◌⊎◌, inl, inr, Bool,
  true, false, Option, none, some, List, [], ◌∷◌, arith, ◌==◌, if◌then◌else◌, ==_iff, Bool-cases,
  u32_mod, length, length-set, replicate, get_or, get_or-set, set,
}
use mathlib.Core.Path.{subst}
use palley_os.Prelude.Words.{is_clear-bit_or_word}
use palley_os.Paging.{
  Paging, is_frame_used, set_frame_used, construct_page_dir_entry, handle_page_fault, setup_paging,
  get_virtual_frame_number,
}
use palley_os.Paging.Faults.{frames, first_unused, first_unused-lt, handle_page_fault-tried}

-- The entry of a page, 0 where none is present, and the frame that it is mapped to.
abbrev pub entry_at : Paging → ℕ → ℕ
entry_at p page = get_or p.page_directory page 0

abbrev pub frame_at : Paging → ℕ → ℕ
frame_at p page = entry_at p page / 2 ^ 22

-- Each page that is present has its frame marked, and no two of them have the same.
pub record IsExclusive (p : Paging) : Type 0 where
  pub pages : length p.page_directory ≡ 1024
  pub marks : length p.words ≡ 32
  pub marked : (i : ℕ) → (entry_at p i ≡ 0) ⊎ (is_frame_used p.words (frame_at p i) ≡ true)
  pub apart :
      (i j : ℕ) → (i ≡ j) ⊎ (entry_at p i ≡ 0) ⊎ (entry_at p j ≡ 0) ⊎ (frame_at p i ≢ frame_at p j)

-- A fault at an address is handled; faults one after another.
pub data Faults (p : Paging) : Paging → Type 0 where
  start : Faults p p
  fault :
      {q r : Paging} (fault_address : ℕ)
      → Faults p q
      → fault_address < u32_mod
      → handle_page_fault fault_address q ≡ some r
      → Faults p r

-- A frame is marked, and no other is.
is_frame_used-set :
    (words : List ℕ) (pfn k : ℕ)
    → length words ≡ 32
    → pfn < 1024
    → is_frame_used (set_frame_used words pfn) k
      ≡ (if k == pfn then true else is_frame_used words k)
is_frame_used-set words pfn k size small =
    let word = get_or words (pfn / 32) 0 in
    let read =
      get_or-set words (pfn / 32) (k / 32) (bit_or word (2 ^ (pfn % 32))) 0 (omega arith) in
    elim (Bool-cases (k / 32 == pfn / 32)) [
      | inl same ↦
          let here : k / 32 ≡ pfn / 32 = (==_iff (k / 32) (pfn / 32)).0 same in
          rw (read, same, is_clear-bit_or_word word (pfn % 32) (k % 32))
            (elim (Bool-cases (k % 32 == pfn % 32)) [
              | inl it ↦ let equal : (k == pfn) ≡ true = ground arith in rw (it, equal) refl
              | inr other ↦
                  let unequal : (k == pfn) ≡ false = ground arith in rw (other, unequal, here) refl
            ])
      | inr other ↦
          let unequal : (k == pfn) ≡ false = ground arith in rw (read, other, unequal) refl
    ]

first_unused-clear :
    (words pfns : List ℕ) (pfn : ℕ)
    → first_unused words pfns ≡ some pfn
    → is_frame_used words pfn ≡ false
first_unused-clear words [] pfn e = cc
first_unused-clear words (x ∷ pfns) pfn e = elim (Bool-cases (is_frame_used words x)) [
  | inl used ↦ first_unused-clear words pfns pfn (rw used at e)
  | inr clear ↦
      let it : some x ≡ some pfn = rw clear at e in
      let same : x ≡ pfn = cc in ap (is_frame_used words) (sym same) ∙ clear
]

module _ (p : Paging) (x : IsExclusive p) (page pfn : ℕ) (in_range : page < 1024) where
  abbrev mapped : Paging
  mapped = record p {
    words = set_frame_used p.words pfn;
    page_directory = set p.page_directory page (pfn * 2 ^ 22 + 0x87);
  }

  mapped-entry :
      (i : ℕ) → entry_at mapped i ≡ (if i == page then pfn * 2 ^ 22 + 0x87 else entry_at p i)
  mapped-entry i =
      get_or-set p.page_directory page i (pfn * 2 ^ 22 + 0x87) 0 (omega (arith, x.pages))

  mapped-new : (i : ℕ) → (i == page) ≡ true → frame_at mapped i ≡ pfn
  mapped-new i e =
      let entry : entry_at mapped i ≡ pfn * 2 ^ 22 + 0x87 = mapped-entry i ∙ rw e refl in
      omega arith

  mapped-old : (i : ℕ) → (i == page) ≡ false → entry_at mapped i ≡ entry_at p i
  mapped-old i e = mapped-entry i ∙ rw e refl

  module _ (small : pfn < 1024) (clear : is_frame_used p.words pfn ≡ false) where
    -- A page of before is not mapped to the new frame.
    old-ne : (i : ℕ) → (entry_at p i ≡ 0) ⊎ (frame_at p i ≢ pfn)
    old-ne i = elim (x.marked i) [
      | inl absent ↦ inl absent
      | inr used ↦ inr (λ e.
          let u : is_frame_used p.words pfn ≡ true = ap (is_frame_used p.words) (sym e) ∙ used in
          let no_way : false ≡ true = sym clear ∙ u in cc)
    ]

    kept : (here : Bool) {before : Bool} → before ≡ true → (if here then true else before) ≡ true
    kept true e = refl
    kept false e = e

    mapped-marked :
        (i : ℕ) → (entry_at mapped i ≡ 0) ⊎ (is_frame_used mapped.words (frame_at mapped i) ≡ true)
    mapped-marked i = elim (Bool-cases (i == page)) [
      | inl new ↦ inr (
          ap (is_frame_used mapped.words) (mapped-new i new)
          ∙ is_frame_used-set p.words pfn pfn x.marks small
          ∙ ground arith)
      | inr old ↦ elim (x.marked i) [
        | inl absent ↦ inl (mapped-old i old ∙ absent)
        | inr used ↦ inr (
            is_frame_used-set p.words pfn (frame_at mapped i) x.marks small
            ∙ kept (frame_at mapped i == pfn)
                (ap (λ e. is_frame_used p.words (e / 2 ^ 22)) (mapped-old i old) ∙ used))
      ]
    ]

    mapped-apart :
        (i j : ℕ)
        → (i ≡ j)
          ⊎ (entry_at mapped i ≡ 0)
          ⊎ (entry_at mapped j ≡ 0)
          ⊎ (frame_at mapped i ≢ frame_at mapped j)
    mapped-apart i j = elim (Bool-cases (i == page)) [
      | inl new ↦ elim (Bool-cases (j == page)) [
        | inl new' ↦ inl (ground arith)
        | inr old' ↦ elim (old-ne j) [
          | inl absent ↦ inr (inr (inl (mapped-old j old' ∙ absent)))
          | inr other ↦ inr (
              inr (
                inr (λ e.
                  other
                    (ap (λ n. n / 2 ^ 22) (sym (mapped-old j old')) ∙ sym e ∙ mapped-new i new))))
        ]
      ]
      | inr old ↦ elim (Bool-cases (j == page)) [
        | inl new' ↦ elim (old-ne i) [
          | inl absent ↦ inr (inl (mapped-old i old ∙ absent))
          | inr other ↦ inr (
              inr (
                inr (λ e.
                  other (ap (λ n. n / 2 ^ 22) (sym (mapped-old i old)) ∙ e ∙ mapped-new j new'))))
        ]
        | inr old' ↦ elim (x.apart i j) [
          | inl same ↦ inl same
          | inr (inl absent) ↦ inr (inl (mapped-old i old ∙ absent))
          | inr (inr (inl absent)) ↦ inr (inr (inl (mapped-old j old' ∙ absent)))
          | inr (inr (inr other)) ↦ inr (
              inr (
                inr (λ e. other (
                  ap (λ n. n / 2 ^ 22) (sym (mapped-old i old))
                  ∙ e
                  ∙ ap (λ n. n / 2 ^ 22) (mapped-old j old')))))
        ]
      ]
    ]

    mapped-IsExclusive : IsExclusive mapped
    mapped-IsExclusive = record {
      pages = length-set p.page_directory page (pfn * 2 ^ 22 + 0x87) ∙ x.pages;
      marks = length-set p.words (pfn / 32) _ ∙ x.marks;
      marked = mapped-marked;
      apart = mapped-apart;
    }

handle_page_fault-IsExclusive :
    (fault_address : ℕ) (p q : Paging)
    → IsExclusive p
    → fault_address < u32_mod
    → handle_page_fault fault_address p ≡ some q
    → IsExclusive q
handle_page_fault-IsExclusive a p q x small e =
    go (first_unused p.words (frames p.regions)) refl (sym (handle_page_fault-tried a p) ∙ e)
  where
    go :
        (o : Option ℕ)
        → first_unused p.words (frames p.regions) ≡ o
        → elim o [
          | none ↦ none
          | some pfn ↦ some (record p {
            words = set_frame_used p.words pfn;
            page_directory =
                set p.page_directory (get_virtual_frame_number a) (pfn * 2 ^ 22 + 0x87);
          })
        ]
          ≡ some q
        → IsExclusive q
    go none found made = absurd (cc)
    go (some pfn) found made =
        let is_mapped : mapped p x (get_virtual_frame_number a) pfn (omega arith) ≡ q = cc in
        subst IsExclusive is_mapped (
          mapped-IsExclusive p x (get_virtual_frame_number a) pfn (omega arith)
            (first_unused-lt p.words p.regions pfn found)
            (first_unused-clear p.words (frames p.regions) pfn found))

get_or-replicate : (n i : ℕ) → get_or {A = ℕ} (replicate n 0) i 0 ≡ 0
get_or-replicate zero i = refl
get_or-replicate (suc n) zero = refl
get_or-replicate (suc n) (suc i) = get_or-replicate n i

module _ (p : Paging) where
  abbrev first : Paging
  first = record p {
    page_directory = set (replicate 1024 0) 0 0x87;
    words = set (replicate 32 0) 0 1;
  }

  later-absent : (i : ℕ) → entry_at first (suc i) ≡ 0
  later-absent i = get_or-replicate 1023 i

  first-marked :
      (i : ℕ) → (entry_at first i ≡ 0) ⊎ (is_frame_used first.words (frame_at first i) ≡ true)
  first-marked zero = inr refl
  first-marked (suc i) = inl (later-absent i)

  first-apart :
      (i j : ℕ)
      → (i ≡ j)
        ⊎ (entry_at first i ≡ 0)
        ⊎ (entry_at first j ≡ 0)
        ⊎ (frame_at first i ≢ frame_at first j)
  first-apart zero zero = inl refl
  first-apart zero (suc j) = inr (inr (inl (later-absent j)))
  first-apart (suc i) j = inr (inl (later-absent i))

  first-IsExclusive : IsExclusive first
  first-IsExclusive = record {
    pages = refl;
    marks = refl;
    marked = first-marked;
    apart = first-apart;
  }

  setup_paging-first : setup_paging p ≡ some first
  unfolding setup_paging construct_page_dir_entry
  setup_paging-first = refl

setup_paging-IsExclusive : (p q : Paging) → setup_paging p ≡ some q → IsExclusive q
setup_paging-IsExclusive p q e =
    let start : some (first p) ≡ some q = sym (setup_paging-first p) ∙ e in
    let is_first : first p ≡ q = cc in subst IsExclusive is_first (first-IsExclusive p)

-- From setupPaging on, over any page faults that are handled, each page that is present has its
-- frame marked as used, and no two pages that are present have the same frame.
pub Faults-IsExclusive : (p q r : Paging) → setup_paging p ≡ some q → Faults q r → IsExclusive r
Faults-IsExclusive p q r e start = setup_paging-IsExclusive p q e
Faults-IsExclusive p q r e (fault {q = s} a before small handled) =
    handle_page_fault-IsExclusive a s r (Faults-IsExclusive p q s e before) small handled
