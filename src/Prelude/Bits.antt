-- ===== src/Prelude/Bits.antt =====
-- The bits of a byte, by evaluation over its values: a test of a bit, and what `|=` and `&= ~` do.
use Prim.Native.Nat.{ℕ, zero, suc, ◌+◌, ◌*◌, ◌^◌, ◌-◌, ◌<◌, bit_and, bit_or}
use native.Mathlib.Omega.{arith}
use mathlib.Core.Path.{◌≡◌, refl}
use mathlib.Core.Bool.{Bool, true, false, not}
use package.palley_os.Prelude.Tests.{◌==◌, ==_iff, ltb, ltb→lt, if◌then◌else◌}

-- `(byte & (1 << bit)) == 0`
abbrev pub is_clear : ℕ → ℕ → Bool
is_clear byte bit = bit_and byte (2 ^ bit) == 0

-- A test of the numbers below a bound, which evaluation decides.
unfoldable pub holds_below : ℕ → (ℕ → Bool) → Bool
holds_below zero test = true
holds_below (suc bound) test = if test bound then holds_below bound test else false

pub holds_below-at :
    (bound : ℕ) (test : ℕ → Bool) (at : ℕ)
    → holds_below bound test ≡ true
    → at < bound
    → test at ≡ true
unfolding holds_below
holds_below-at zero test at all below = absurd (omega arith)
holds_below-at (suc bound) test at all below = ground (arith, holds_below-at bound test at)

pub holds_below-pair :
    (a b : ℕ) (test : ℕ → ℕ → Bool) (i j : ℕ)
    → holds_below a (λ i. holds_below b (test i)) ≡ true
    → i < a
    → j < b
    → test i j ≡ true
holds_below-pair a b test i j table hi hj =
    holds_below-at b (test i) j (holds_below-at a (λ i. holds_below b (test i)) i table hi) hj

unfoldable pub same_bool : Bool → Bool → Bool
same_bool true b = b
same_bool false b = not b

pub same_bool-eq : (a b : Bool) → same_bool a b ≡ true → a ≡ b
unfolding same_bool
same_bool-eq true true h = refl
same_bool-eq true false h = cc
same_bool-eq false true h = cc
same_bool-eq false false h = refl

abbrev set_row : ℕ → ℕ → ℕ → Bool
set_row b k j = same_bool (is_clear (bit_or b (2 ^ k)) j) (if j == k then false else is_clear b j)

set_table : holds_below 256 (λ b. holds_below 8 (λ k. holds_below 8 (λ j. set_row b k j))) ≡ true
unfolding holds_below same_bool
set_table = refl

-- `b |= 1 << k` sets bit `k` of a byte and no other.
pub is_clear-bit_or :
    (b k j : ℕ)
    → b < 256
    → k < 8
    → j < 8
    → is_clear (bit_or b (2 ^ k)) j ≡ (if j == k then false else is_clear b j)
is_clear-bit_or b k j hb hk hj = same_bool-eq _ _ (
    holds_below-at 8 (set_row b k) j
      (holds_below-at 8 (λ k. holds_below 8 (set_row b k)) k
        (holds_below-at 256 (λ b. holds_below 8 (λ k. holds_below 8 (λ j. set_row b k j))) b
          set_table hb)
        hk)
      hj)

abbrev clear_row : ℕ → ℕ → ℕ → Bool
clear_row b k j =
    same_bool (is_clear (bit_and b (255 - 2 ^ k)) j) (if j == k then true else is_clear b j)

clear_table :
    holds_below 256 (λ b. holds_below 8 (λ k. holds_below 8 (λ j. clear_row b k j))) ≡ true
unfolding holds_below same_bool
clear_table = refl

-- `b &= ~(1 << k)` clears bit `k` of a byte and no other.
pub is_clear-bit_and :
    (b k j : ℕ)
    → b < 256
    → k < 8
    → j < 8
    → is_clear (bit_and b (255 - 2 ^ k)) j ≡ (if j == k then true else is_clear b j)
is_clear-bit_and b k j hb hk hj = same_bool-eq _ _ (
    holds_below-at 8 (clear_row b k) j
      (holds_below-at 8 (λ k. holds_below 8 (clear_row b k)) k
        (holds_below-at 256 (λ b. holds_below 8 (λ k. holds_below 8 (λ j. clear_row b k j))) b
          clear_table hb)
        hk)
      hj)

byte_table : holds_below 256 (λ b. holds_below 8 (λ k. ltb (bit_or b (2 ^ k)) 256)) ≡ true
unfolding holds_below
byte_table = refl

-- A byte with a bit set is a byte.
pub bit_or-lt : (b k : ℕ) → b < 256 → k < 8 → bit_or b (2 ^ k) < 256
bit_or-lt b k hb hk = ltb→lt _ 256 (
    holds_below-at 8 (λ k. ltb (bit_or b (2 ^ k)) 256) k
      (holds_below-at 256 (λ b. holds_below 8 (λ k. ltb (bit_or b (2 ^ k)) 256)) b byte_table hb)
      hk)

word_table :
    holds_below 256 (λ high. holds_below 256 (λ low. bit_or (high * 2 ^ 8) low == high * 256 + low))
    ≡ true
unfolding holds_below
word_table = refl

-- Two bytes joined to a word.
pub bit_or-bytes :
    (high low : ℕ) → high < 256 → low < 256 → bit_or (high * 2 ^ 8) low ≡ high * 256 + low
bit_or-bytes high low hh hl = (==_iff _ (high * 256 + low)).0 (
    holds_below-pair 256 256 (λ high low. bit_or (high * 2 ^ 8) low == high * 256 + low) high low
      word_table hh hl)
