-- ===== src/Kstdlib/Tests.antt =====
-- The string and memory routines on a small memory.
use palley_os.Prelude.{
  ℕ, ◌+◌, ◌%◌, ◌≤◌, ◌≡◌, ◌↔◌, refl, ◌⊎◌, inr, some, List, [], ◌∷◌, arith, take, get_or,
}
use palley_os.Prelude.Memory.{Mem, CStr}
use palley_os.Kstdlib.{kstrncpy, kstrcmp}
use palley_os.Kstdlib.Strings.{Copied, kstrncpy-Copied}
use palley_os.Kstdlib.Compare.{Starts, kstrcmp-zero_iff}

-- "pal" at 0, "palley" at 4.
abbrev memory : Mem
memory a = get_or (112 ∷ 97 ∷ 108 ∷ 0 ∷ 112 ∷ 97 ∷ 108 ∷ 108 ∷ 101 ∷ 121 ∷ 0 ∷ []) a 0

abbrev pal : List ℕ
pal = 112 ∷ 97 ∷ 108 ∷ []

abbrev palley : List ℕ
palley = 112 ∷ 97 ∷ 108 ∷ 108 ∷ 101 ∷ 121 ∷ []

pal_stands : CStr memory 0 pal
pal_stands = (
  refl,
  omega arith,
  omega arith,
  (refl, omega arith, omega arith, (refl, omega arith, omega arith, refl)),
)

palley_stands : CStr memory 4 palley
palley_stands = (
  refl,
  omega arith,
  omega arith,
  (
    refl,
    omega arith,
    omega arith,
    (
      refl,
      omega arith,
      omega arith,
      (
        refl,
        omega arith,
        omega arith,
        (refl, omega arith, omega arith, (refl, omega arith, omega arith, refl)),
      ),
    ),
  ),
)

kstrncpy-Copied_example :
    (after : Mem) × (kstrncpy 10 memory 20 4 4 ≡ some (after, 3))
    × Copied memory 20 (take 3 palley) after
    × (3 + 1 ≤ 4)
kstrncpy-Copied_example =
    kstrncpy-Copied 10 memory 20 4 4 palley palley_stands (omega arith) (omega arith) (omega arith)
      (inr (omega arith))

kstrcmp-zero_iff_example :
    (kstrcmp 10 memory 0 4 ≡ some 0) ↔ (Starts pal palley ⊎ Starts palley pal)
kstrcmp-zero_iff_example =
    kstrcmp-zero_iff 10 memory 0 4 pal palley pal_stands palley_stands (omega arith)

abbrev bytes : Mem
bytes a = a % 256
