-- ===== src/Kstdlib/Compare.antt =====
-- kstrcmp and kmemcmp: when they report equality.
use palley_os.Prelude.{
  ℕ, zero, suc, ◌+◌, ◌<◌, ◌≡◌, ◌↔◌, refl, ◌⊎◌, inl, inr, some, List, [], ◌∷◌, arith, length, IsByte,
}
use palley_os.Prelude.Memory.{Mem, CStr}
use palley_os.Kstdlib.{sign_extend, sub32, kstrcmp, kmemcmp}

-- `s` is an initial part of `t`.
abbrev pub Starts : List ℕ → List ℕ → Type 0
Starts [] t = Unit {0}
Starts (c ∷ s) [] = ⊥
Starts (c ∷ s) (d ∷ t) = (c ≡ d) × Starts s t

pub diff-zero_iff :
    (c d : ℕ) → c < 256 → d < 256 → (sub32 (sign_extend c) (sign_extend d) ≡ 0) ↔ (c ≡ d)
diff-zero_iff c d hc hd = ground arith

-- kstrcmp: on two strings the comparison ends, and it returns 0 exactly when one of them is an
-- initial part of the other, so also for some strings that differ.
pub kstrcmp-zero_iff :
    (fuel : ℕ) (m : Mem) (p q : ℕ) (s t : List ℕ)
    → CStr m p s
    → CStr m q t
    → length s < fuel
    → (kstrcmp fuel m p q ≡ some 0) ↔ (Starts s t ⊎ Starts t s)
unfolding kstrcmp
kstrcmp-zero_iff zero m p q s t hs ht enough = absurd (omega arith)
kstrcmp-zero_iff (suc fuel) m p q [] t hs ht enough = (λ e. inl tt, λ e. ground arith)
kstrcmp-zero_iff (suc fuel) m p q (c ∷ s) [] hs ht enough = (λ e. inr tt, λ e. ground arith)
kstrcmp-zero_iff (suc fuel) m p q (c ∷ s) (d ∷ t) hs ht enough =
    ground (arith, diff-zero_iff c d, kstrcmp-zero_iff fuel m (p + 1) (q + 1) s t)

same_bytes :
    (m : Mem) (p q num : ℕ)
    → ((a : ℕ) → IsByte (m a))
    → kmemcmp m p q num ≡ 0
    → (i : ℕ) → i < num
    → m (p + i) ≡ m (q + i)
unfolding kmemcmp
same_bytes m p q zero b e i h = absurd (omega arith)
same_bytes m p q (suc num) b e zero h = ground (arith, b p, b q, p0, q0)
  where
    p0 : p + 0 ≡ p
    p0 = omega arith

    q0 : q + 0 ≡ q
    q0 = omega arith
same_bytes m p q (suc num) b e (suc i) h =
    ground (
      arith,
      b p,
      b q,
      same_bytes m (p + 1) (q + 1) num b (ground (arith, b p, b q)) i (omega arith),
    )

zero_of_same :
    (m : Mem) (p q num : ℕ) → ((i : ℕ) → i < num → m (p + i) ≡ m (q + i)) → kmemcmp m p q num ≡ 0
unfolding kmemcmp
zero_of_same m p q zero h = refl
zero_of_same m p q (suc num) h = ground (
  arith,
  h 0 (omega arith),
  zero_of_same m (p + 1) (q + 1) num (λ i lt. ground (arith, h (i + 1) (omega arith))),
)

-- kmemcmp: the result is 0 exactly when the two ranges of `num` bytes are equal byte for byte.
pub kmemcmp-zero_iff :
    (m : Mem) (p q num : ℕ)
    → ((a : ℕ) → IsByte (m a))
    → (kmemcmp m p q num ≡ 0) ↔ ((i : ℕ) → i < num → m (p + i) ≡ m (q + i))
kmemcmp-zero_iff m p q num b = (same_bytes m p q num b, zero_of_same m p q num)
