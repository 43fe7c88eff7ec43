-- ===== src/Paging/Start.antt =====
-- setupPaging: what it starts from.
use palley_os.Prelude.{
  ℕ, ◌<◌, ◌≡◌, refl, Bool, true, false, not, ◌&&◌, Option, none, some, List, ◌==◌, if◌then◌else◌,
  ==_iff, replicate, get_or, set,
}
use palley_os.Prelude.Bits.{holds_below, holds_below-at}
use palley_os.Paging.{Paging, construct_page_dir_entry, is_frame_used, setup_paging}

-- What paging starts from, at a page and at a frame of a number.
abbrev pub StartsAt : ℕ → Option Paging → Type 0
StartsAt k none = ⊥
StartsAt k (some p) =
    (get_or p.page_directory k 0 ≡ (if k == 0 then 0x87 else 0))
    × (is_frame_used p.words k ≡ (k == 0))

abbrev first_map : List ℕ
first_map = set (replicate 32 0) 0 1

abbrev setup_test : ℕ → Bool
setup_test k =
    (get_or (set (replicate 1024 0) 0 0x87) k 0 == (if k == 0 then 0x87 else 0))
    && (if is_frame_used first_map k then k == 0 else not (k == 0))

setup_table : holds_below 1024 setup_test ≡ true
unfolding holds_below
setup_table = refl

setup_sound :
    (a b : Bool) (c : Bool) → (a && (if b then c else not c)) ≡ true → (a ≡ true) × (b ≡ c)
setup_sound true true true h = (refl, refl)
setup_sound true true false h = cc
setup_sound true false true h = cc
setup_sound true false false h = (refl, refl)
setup_sound false b c h = cc

-- setupPaging: it returns, and then of the 1024 entries of the page directory the first maps the
-- first frame for the user, writable and of 4 MiB, and the others are not present; of the 1024
-- frames the first alone is marked as used.
pub setup_paging-StartsAt : (p : Paging) (k : ℕ) → k < 1024 → StartsAt k (setup_paging p)
unfolding setup_paging construct_page_dir_entry
setup_paging-StartsAt p k h =
    let (entry, used) =
      setup_sound _ (is_frame_used first_map k) (k == 0)
        (holds_below-at 1024 setup_test k setup_table h) in
    ((==_iff _ (if k == 0 then 0x87 else 0)).0 entry, used)
