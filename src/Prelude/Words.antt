-- ===== src/Prelude/Words.antt =====
-- The bits of a word of any width, by recursion on the place of the bit: what a test of a bit reads
-- and what `|=` with one bit does.
use Prim.Native.Nat.{
  ℕ, zero, suc, ◌+◌, ◌*◌, ◌/◌, ◌%◌, ◌^◌, ◌-◌, ◌≤◌, ◌<◌, min, max, digits, bit_and, bit_or,
  bit_and-bitwise, bit_or-bitwise,
}
use native.Mathlib.Omega.{arith}
use mathlib.Core.Path.{◌≡◌, refl, ap, ◌∙◌}
use native.Mathlib.Nat.{one-le-pow}
use mathlib.Core.Logic.{◌≢◌, inl, inr}
use mathlib.Core.Bool.{false}
use package.palley_os.Prelude.Tests.{◌==◌, ==_iff, ==_ne, Bool-cases, if◌then◌else◌}
use package.palley_os.Prelude.Bits.{is_clear}

-- Bit `k`.
abbrev pub bit : ℕ → ℕ → ℕ
bit zero w = w % 2
bit (suc k) w = bit k (w / 2)

-- The count that the digits of the first number run on may be any that is large enough.
module _ (z : ℕ → ℕ) (f : ℕ → ℕ → ℕ) where
  digits-count : (n m a b : ℕ) → a ≤ n → a ≤ m → digits z f n a b ≡ digits z f m a b
  digits-count zero zero a b p q = refl
  digits-count zero (suc m) zero b p q = refl
  digits-count zero (suc m) (suc a) b p q = absurd (omega arith)
  digits-count (suc n) zero zero b p q = refl
  digits-count (suc n) zero (suc a) b p q = absurd (omega arith)
  digits-count (suc n) (suc m) zero b p q = refl
  digits-count (suc n) (suc m) (suc a) b p q =
      omega (arith, digits-count n m (suc a / 2) (b / 2) (omega arith) (omega arith))

-- The lowest digit, and the others.
or-step : (a b : ℕ) → bit_or a b ≡ bit_or (a / 2) (b / 2) * 2 + max (a % 2) (b % 2)
or-step zero b = omega (arith, bit_or-bitwise 0 b, bit_or-bitwise 0 (b / 2))
or-step (suc a) b = omega (
  arith,
  bit_or-bitwise (suc a) b,
  bit_or-bitwise (suc a / 2) (b / 2),
  digits-count (λ b. b) max a (suc a / 2) (suc a / 2) (b / 2) (omega arith) (omega arith),
)

and-step : (a b : ℕ) → bit_and a b ≡ bit_and (a / 2) (b / 2) * 2 + min (a % 2) (b % 2)
and-step zero b = omega (arith, bit_and-bitwise 0 b, bit_and-bitwise 0 (b / 2))
and-step (suc a) b = omega (
  arith,
  bit_and-bitwise (suc a) b,
  bit_and-bitwise (suc a / 2) (b / 2),
  digits-count (λ b. 0) min a (suc a / 2) (suc a / 2) (b / 2) (omega arith) (omega arith),
)

none-below : (n a : ℕ) → a ≤ n → (bit_and a 0 ≡ 0) × (bit_or a 0 ≡ a)
none-below n zero h = (refl, refl)
none-below zero (suc a) h = absurd (omega arith)
none-below (suc n) (suc a) h =
    let (and, or) = none-below n (suc a / 2) (omega arith) in
    (omega (arith, and-step (suc a) 0), omega (arith, or-step (suc a) 0))

halves : (k : ℕ) → (2 ^ suc k ≡ 2 * 2 ^ k) × (2 ^ suc k / 2 ≡ 2 ^ k) × (2 ^ suc k % 2 ≡ 0)
halves k = let e : 2 ^ suc k ≡ 2 * 2 ^ k = omega arith in (e, omega arith, omega arith)

pub bit_and-bit : (k w : ℕ) → bit_and w (2 ^ k) ≡ bit k w * 2 ^ k
bit_and-bit zero w = omega (arith, and-step w 1, (none-below (w / 2) (w / 2) (omega arith)).0)
bit_and-bit (suc k) w =
    let (twice, half, even) = halves k in
    let rest : bit_and (w / 2) (2 ^ suc k / 2) ≡ bit k (w / 2) * 2 ^ k =
      rw half (bit_and-bit k (w / 2)) in
    let whole : bit k (w / 2) * 2 ^ suc k ≡ bit k (w / 2) * 2 ^ k * 2 = rw twice (grind arith) in
    omega (arith, and-step w (2 ^ suc k))

bit_or-one : (w : ℕ) → bit_or w 1 ≡ w / 2 * 2 + 1
bit_or-one w = omega (arith, or-step w 1, (none-below (w / 2) (w / 2) (omega arith)).1)

bit_or-suc : (k w : ℕ) → bit_or w (2 ^ suc k) ≡ bit_or (w / 2) (2 ^ k) * 2 + w % 2
bit_or-suc k w =
    let (twice, half, even) = halves k in
    let same : bit_or (w / 2) (2 ^ suc k / 2) ≡ bit_or (w / 2) (2 ^ k) = ap (bit_or (w / 2)) half in
    omega (arith, or-step w (2 ^ suc k))

pub bit-bit_or : (k j w : ℕ) → bit j (bit_or w (2 ^ k)) ≡ (if j == k then 1 else bit j w)
bit-bit_or zero zero w = omega (arith, bit_or-one w)
bit-bit_or zero (suc j) w =
    let half : bit_or w 1 / 2 ≡ w / 2 = omega (arith, bit_or-one w) in
    ap (bit j) half ∙ ground arith
bit-bit_or (suc k) zero w = ground (arith, bit_or-suc k w)
bit-bit_or (suc k) (suc j) w =
    let half : bit_or w (2 ^ suc k) / 2 ≡ bit_or (w / 2) (2 ^ k) = omega (arith, bit_or-suc k w) in
    ap (bit j) half ∙ bit-bit_or k j (w / 2) ∙ ground arith

is_clear-bit : (k w : ℕ) → is_clear w k ≡ (bit k w == 0)
is_clear-bit k w =
    let pos = one-le-pow k 2 (omega arith) in
    let at = bit_and-bit k w in
    elim (Bool-cases (bit k w == 0)) [
      | inl e ↦
          let off : bit k w ≡ 0 = (==_iff (bit k w) 0).0 e in
          let out : bit_and w (2 ^ k) ≡ 0 = at ∙ ap (λ b. b * 2 ^ k) off ∙ omega arith in
          rw (e, out) refl
      | inr e ↦
          let on : bit k w ≢ 0 = ground arith in
          let out : bit_and w (2 ^ k) ≢ 0 = λ z. grind arith in
          rw e (==_ne (bit_and w (2 ^ k)) 0 out)
    ]

-- What `|=` with a bit does to the test of a bit.
pub is_clear-bit_or_word :
    (w k j : ℕ) → is_clear (bit_or w (2 ^ k)) j ≡ (if j == k then false else is_clear w j)
is_clear-bit_or_word w k j =
    is_clear-bit j (bit_or w (2 ^ k))
    ∙ ap (λ b. b == 0) (bit-bit_or k j w)
    ∙ ground (arith, is_clear-bit j w)

-- A mask of all the bits of a width.
and-all : (k w : ℕ) → w < 2 ^ k → bit_and w (2 ^ k - 1) ≡ w
and-all zero w h = let none_set : w ≡ 0 = omega arith in rw none_set refl
and-all (suc k) w h =
    let pos = one-le-pow k 2 (omega arith) in
    let (twice, half, even) = halves k in
    let other : (2 ^ suc k - 1) / 2 ≡ 2 ^ k - 1 = omega arith in
    let rest : bit_and (w / 2) ((2 ^ suc k - 1) / 2) ≡ w / 2 =
      rw other (and-all k (w / 2) (omega arith)) in
    omega (arith, and-step w (2 ^ suc k - 1))

-- `word & 6` has the second and the third bit, and `word & ~7` clears the lowest three.
pub bit_and-six : (w : ℕ) → bit_and w 6 ≡ w / 2 % 4 * 2
bit_and-six w = omega (
  arith,
  and-step w 6,
  and-step (w / 2) 3,
  and-step (w / 2 / 2) 1,
  (none-below (w / 2 / 2 / 2) (w / 2 / 2 / 2) (omega arith)).0,
)

pub bit_and-not_seven : (w : ℕ) → w < 2 ^ 32 → bit_and w (2 ^ 32 - 8) ≡ w / 8 * 8
bit_and-not_seven w h = omega (
  arith,
  and-step w (2 ^ 32 - 8),
  and-step (w / 2) (2 ^ 31 - 4),
  and-step (w / 2 / 2) (2 ^ 30 - 2),
  and-all 29 (w / 2 / 2 / 2) (omega arith),
)
