-- ===== src/Acpi/Search.antt =====
-- src/rsdp.c: getRSDP finds the first descriptor in the BIOS's memory.
use mathlib.Core.Path.{subst}
use palley_os.Prelude.{
  ℕ, zero, suc, ◌+◌, ◌*◌, ◌%◌, ◌<◌, true, false, ◌&&◌, Option, none, some, ◌==◌, ◌≡◌, ◌∙◌, arith,
  ◌↔◌, IsByte, if_lem,
}
use palley_os.Prelude.Memory.{Mem}
use palley_os.Kstdlib.{kmemcmp}
use palley_os.Kstdlib.Compare.{kmemcmp-zero_iff}
use palley_os.Acpi.{
  checksum_loop, eval_rsdp_checksum, acpi_eval_header_checksum, header_length, rsdp_loop, get_rsdp,
  rsdp_size,
}

-- The sum of the bytes from an address on.
abbrev pub total : ℕ → Mem → ℕ → ℕ
total zero m p = 0
total (suc n) m p = m p + total n m (p + 1)

checksum_loop-total :
    (n : ℕ) (m : Mem) (p sum : ℕ) → sum < 256 → checksum_loop n m p sum ≡ (sum + total n m p) % 256
unfolding checksum_loop
checksum_loop-total zero m p sum h = omega arith
checksum_loop-total (suc n) m p sum h =
    checksum_loop-total n m (p + 1) ((sum + m p) % 256) (omega arith) ∙ omega arith

-- A descriptor stands at an address: it begins with the name, and its bytes add up to 0.
abbrev pub IsRsdp : Mem → ℕ → ℕ → Type 0
IsRsdp m name p = ((i : ℕ) → i < 8 → m (name + i) ≡ m (p + i)) × (total rsdp_size m p % 256 ≡ 0)

-- What a search over `left` places from `loc` on in steps of 16 gives.
abbrev pub Located : Mem → ℕ → ℕ → ℕ → Option ℕ → Type 0
Located m name left loc none = (k : ℕ) → k < left → ¬ IsRsdp m name (loc + 16 * k)
Located m name left loc (some p) =
    (k : ℕ) × (k < left)
    × (p ≡ loc + 16 * k)
    × IsRsdp m name p
    × ((j : ℕ) → j < k → ¬ IsRsdp m name (loc + 16 * j))

module _ (m : Mem) (name : ℕ) (bytes : (a : ℕ) → IsByte (m a)) where
  found : (p : ℕ) → (kmemcmp m name p 8 == 0 && eval_rsdp_checksum m p) ≡ true → IsRsdp m name p
  found p h =
      let sum = checksum_loop-total rsdp_size m p 0 (omega arith) in
      ((kmemcmp-zero_iff m name p 8 bytes).0 (ground arith), ground (arith, sum))

  missed : (p : ℕ) → (kmemcmp m name p 8 == 0 && eval_rsdp_checksum m p) ≡ false → ¬ IsRsdp m name p
  missed p h (same, zero_sum) =
      let sum = checksum_loop-total rsdp_size m p 0 (omega arith) in
      let compared = (kmemcmp-zero_iff m name p 8 bytes).1 same in
      absurd (ground (arith, sum, compared, zero_sum))

  later :
      (left loc : ℕ) (r : Option ℕ)
      → ¬ IsRsdp m name loc
      → Located m name left (loc + 16) r
      → Located m name (suc left) loc r
  later left loc none here rest = all
    where
      all : (k : ℕ) → k < suc left → ¬ IsRsdp m name (loc + 16 * k)
      all zero h = subst (λ p. ¬ IsRsdp m name p) (omega arith) here
      all (suc k) h = subst (λ p. ¬ IsRsdp m name p) (omega arith) (rest k (omega arith))
  later left loc (some p) here (k, below, place, is_rsdp, first) =
      (suc k, omega arith, omega arith, is_rsdp, earlier)
    where
      earlier : (j : ℕ) → j < suc k → ¬ IsRsdp m name (loc + 16 * j)
      earlier zero h = subst (λ p. ¬ IsRsdp m name p) (omega arith) here
      earlier (suc j) h = subst (λ p. ¬ IsRsdp m name p) (omega arith) (first j (omega arith))

  rsdp_loop-Located : (left loc : ℕ) → Located m name left loc (rsdp_loop left m name loc)
  unfolding rsdp_loop
  rsdp_loop-Located zero loc = λ k h. absurd (omega arith)
  rsdp_loop-Located (suc left) loc =
      if_lem (Located m name (suc left) loc) (kmemcmp m name loc 8 == 0 && eval_rsdp_checksum m loc)
        {x = some loc} {y = rsdp_loop left m name (loc + 16)}
        (λ here. (0, omega arith, omega arith, found loc here, λ j h. absurd (omega arith)))
        (λ other.
          later left loc (rsdp_loop left m name (loc + 16)) (missed loc other)
            (rsdp_loop-Located left (loc + 16)))

  -- getRSDP gives the first of the 8192 places at which a descriptor stands, or NULL where it stands
  -- at none.
  pub get_rsdp-Located : Located m name 8192 0xE0000 (get_rsdp m name)
  unfolding get_rsdp
  get_rsdp-Located = rsdp_loop-Located 8192 0xE0000

-- A table's checksum is taken over the length that its header names, in a byte.
pub acpi_eval_header_checksum-total :
    (m : Mem) (header : ℕ)
    → (acpi_eval_header_checksum m header ≡ true)
      ↔ (total (header_length m header) m header % 256 ≡ 0)
acpi_eval_header_checksum-total m header =
    let sum = checksum_loop-total (header_length m header) m header 0 (omega arith) in
    ground (arith, sum)
