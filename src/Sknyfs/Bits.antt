-- ===== src/Sknyfs/Bits.antt =====
-- The bits of a byte and of a list of bytes: which are clear, what `|=` does, and what the two inner
-- loops of searchAllocationMap find.
use palley_os.Prelude.Bits.{holds_below, holds_below-at, is_clear}
use palley_os.Prelude.{
  ℕ, zero, suc, ◌+◌, ◌-◌, ◌*◌, ◌/◌, ◌%◌, ◌≤◌, ◌<◌, ◌≡◌, refl, ap, ◌∙◌, inl, inr, Bool, true, false,
  not, Option, none, some, arith, ◌==◌, ltb, ltb→lt, if◌then◌else◌, Bool-cases, ==_iff,
}
use palley_os.Sknyfs.{find_bit}

full_table : holds_below 8 (λ j. not (is_clear 0xff j)) ≡ true
unfolding holds_below
full_table = refl

full_byte : (j : ℕ) → j < 8 → is_clear 0xff j ≡ false
full_byte j h = ground (arith, holds_below-at 8 (λ j. not (is_clear 0xff j)) j full_table h)

-- Every bit from `lo` up to `hi` is set.
abbrev pub AllSet : (ℕ → Bool) → ℕ → ℕ → Type 0
AllSet clear lo hi = (n : ℕ) → lo ≤ n → n < hi → clear n ≡ false

-- The answer of a search over the bits from `lo` up to `hi`: the first clear one.
abbrev pub FirstClear : (ℕ → Bool) → ℕ → ℕ → Option ℕ → Type 0
FirstClear clear lo hi none = AllSet clear lo hi
FirstClear clear lo hi (some n) = (lo ≤ n) × (n < hi) × (clear n ≡ true) × AllSet clear lo n

-- A search goes on behind bits that are set.
pub FirstClear-after :
    (clear : ℕ → Bool) (lo mid hi : ℕ) (o : Option ℕ)
    → lo ≤ mid
    → AllSet clear lo mid
    → FirstClear clear mid hi o
    → FirstClear clear lo hi o
FirstClear-after clear lo mid hi none le s f = λ n above below. elim (Bool-cases (ltb n mid)) [
  | inl e ↦ s n above (ltb→lt n mid e)
  | inr e ↦ f n (ground arith) below
]
FirstClear-after clear lo mid hi (some m) le s f = (
  omega (arith, f.0),
  f.1,
  f.2,
  λ n above below. elim (Bool-cases (ltb n mid)) [
    | inl e ↦ s n above (ltb→lt n mid e)
    | inr e ↦ f.3 n (ground arith) below
  ],
)

abbrev pub shift : ℕ → Option ℕ → Option ℕ
shift o none = none
shift o (some n) = some (o + n)

-- The same bits under other numbers.
pub FirstClear-move :
    (clear clear' : ℕ → Bool) (o lo hi : ℕ) (r : Option ℕ)
    → ((n : ℕ) → lo ≤ n → n < hi → clear' (o + n) ≡ clear n)
    → FirstClear clear lo hi r
    → FirstClear clear' (o + lo) (o + hi) (shift o r)
FirstClear-move clear clear' o lo hi none same f = λ n above below.
    let k : ℕ = n - o in
    let e : n ≡ o + k = omega arith in
    rw e (same k (omega arith) (omega arith) ∙ f k (omega arith) (omega arith))
FirstClear-move clear clear' o lo hi (some m) same f = (
  omega (arith, f.0),
  omega (arith, f.1),
  same m f.0 f.1 ∙ f.2,
  λ n above below.
      let k : ℕ = n - o in
      let e : n ≡ o + k = omega arith in
      rw e (same k (omega arith) (omega (arith, f.1)) ∙ f.3 k (omega arith) (omega arith)),
)

-- A first clear bit is that of a longer range too.
pub FirstClear-longer :
    (clear : ℕ → Bool) (lo mid hi n : ℕ)
    → mid ≤ hi
    → FirstClear clear lo mid (some n)
    → FirstClear clear lo hi (some n)
FirstClear-longer clear lo mid hi n le f = (f.0, omega (arith, f.1), f.2, f.3)

find_bit-FirstClear :
    (left bit hi b : ℕ) → bit + left ≡ hi → FirstClear (is_clear b) bit hi (find_bit left bit b)
unfolding find_bit
find_bit-FirstClear zero bit hi b e = λ n above below. absurd (omega arith)
find_bit-FirstClear (suc left) bit hi b e = elim (Bool-cases (is_clear b bit)) [
  | inl c ↦ rw c (omega arith, omega arith, c, λ n above below. absurd (omega arith))
  | inr c ↦ rw c (
      FirstClear-after (is_clear b) bit (bit + 1) hi (find_bit left (bit + 1) b) (omega arith)
        (λ n above below. let same : n ≡ bit = omega arith in rw same c)
        (find_bit-FirstClear left (bit + 1) hi b (omega arith)))
]

-- Bit `n` of the bytes `f`, the lowest bit of a byte first.
abbrev pub clear_in : (ℕ → ℕ) → ℕ → Bool
clear_in f n = is_clear (f (n / 8)) (n % 8)

byte_of_bit : (f : ℕ → ℕ) (j k : ℕ) → k < 8 → clear_in f (j * 8 + k) ≡ is_clear (f j) k
byte_of_bit f j k h =
    let q : (j * 8 + k) / 8 ≡ j = omega arith in
    let r : (j * 8 + k) % 8 ≡ k = omega arith in rw (q, r) refl

-- The step of the loop over the bytes.
pub byte-FirstClear :
    (f : ℕ → ℕ) (j : ℕ)
    → FirstClear
        (clear_in f)
        (j * 8 + 0)
        (j * 8 + 8)
        (if f j == 0xff then none else shift (j * 8) (find_bit 8 0 (f j)))
byte-FirstClear f j = elim (Bool-cases (f j == 0xff)) [
  | inl e ↦
      let full : f j ≡ 0xff = (==_iff (f j) 0xff).0 e in
      rw e (
        FirstClear-move (is_clear 0xff) (clear_in f) (j * 8) 0 8 none
          (λ n above below. byte_of_bit f j n below ∙ ap (λ b. is_clear b n) full)
          (λ n above below. full_byte n below))
  | inr e ↦ rw e (
      FirstClear-move (is_clear (f j)) (clear_in f) (j * 8) 0 8 (find_bit 8 0 (f j))
        (λ n above below. byte_of_bit f j n below) (find_bit-FirstClear 8 0 8 (f j) refl))
]
