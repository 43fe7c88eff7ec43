-- ===== src/Kstdio/Digits.antt =====
-- The digit loop: it ends within its buffer, and its digits spell the number.
use native.Mathlib.Nat.{pow-suc, pow-zero, div-add-mod, div-add-mod', mod-lt}
use mathlib.Core.List.{append_assoc}
use palley_os.Prelude.{
  ℕ, zero, suc, ◌+◌, ◌*◌, ◌/◌, ◌%◌, ◌^◌, ◌≤◌, ◌<◌, ◌≡◌, refl, sym, ap, ◌∙◌, ==_iff, inl, inr, some,
  List, [], ◌∷◌, ◌++◌, arith, ◌==◌, length, All, Bool-cases, length-append,
}
use palley_os.Kstdio.{digit_loop}

-- The number that digits spell, the most significant first, behind those read before.
unfoldable pub value_from : ℕ → ℕ → List ℕ → ℕ
value_from base acc [] = acc
value_from base acc (d ∷ ds) = value_from base (acc * base + d) ds

-- The digits of a number, the most significant first, in front of others: the specification.
pub record Spells (base n room : ℕ) (buffer out : List ℕ) : Type 0 where
  pub digits : List ℕ
  pub front : out ≡ digits ++ buffer
  pub short : length digits ≤ room
  pub some_digit : 0 < length digits
  pub small : All (λ d. d < base) digits
  pub value : value_from base 0 digits ≡ n

value_from-snoc :
    (base acc d : ℕ) (ds : List ℕ)
    → value_from base acc (ds ++ (d ∷ [])) ≡ value_from base acc ds * base + d
unfolding value_from
value_from-snoc base acc d [] = refl
value_from-snoc base acc d (e ∷ ds) = value_from-snoc base (acc * base + e) d ds

All-snoc :
    (base d : ℕ) (ds : List ℕ)
    → All (λ e. e < base) ds
    → d < base
    → All (λ e. e < base) (ds ++ (d ∷ []))
All-snoc base d [] h lt = (lt, tt)
All-snoc base d (e ∷ ds) h lt = (h.0, All-snoc base d ds h.1 lt)

quotient-lt : (base iter room : ℕ) → 1 < base → iter < base ^ suc room → iter / base < base ^ room
quotient-lt base iter room h lt = grind (arith, pow-suc base room, div-add-mod iter base)

-- One digit is the whole number.
last_digit :
    (base iter room : ℕ) (buffer : List ℕ)
    → 1 < base
    → iter / base ≡ 0
    → Spells base iter (suc room) buffer ((iter % base) ∷ buffer)
unfolding value_from
last_digit base iter room buffer h e = record {
  digits = (iter % base) ∷ [];
  front = refl;
  short = omega arith;
  some_digit = omega arith;
  small = (mod-lt iter (omega arith), tt);
  value = ground (arith, div-add-mod iter base);
}

-- The digits of the quotient, with the remainder behind them.
more_digits :
    (base iter room : ℕ) (buffer out : List ℕ)
    → 1 < base
    → Spells base (iter / base) room ((iter % base) ∷ buffer) out
    → Spells base iter (suc room) buffer out
more_digits base iter room buffer out h s = record {
  digits = s.digits ++ ((iter % base) ∷ []);
  front = s.front ∙ sym (append_assoc s.digits ((iter % base) ∷ []) buffer);
  short = omega (arith, length-append s.digits ((iter % base) ∷ []), s.short);
  some_digit = omega (arith, length-append s.digits ((iter % base) ∷ []));
  small = All-snoc base (iter % base) s.digits s.small (mod-lt iter (omega arith));
  value =
      value_from-snoc base 0 (iter % base) s.digits
      ∙ ap (λ (t : ℕ). t * base + iter % base) s.value
      ∙ div-add-mod' iter base;
}

-- Digit loop of the render functions: with a buffer of `room + 1` cells, and a number below the
-- base to the power of `room + 1`, it ends within the buffer, with the digits of the number to that
-- base in the cells that it has filled.
pub digit_loop-Spells :
    (room base iter : ℕ) (buffer : List ℕ)
    → 1 < base
    → iter < base ^ suc room
    → (out : List ℕ) × (digit_loop (suc room) base iter buffer ≡ some out)
      × Spells base iter (suc room) buffer out
unfolding digit_loop
digit_loop-Spells zero base iter buffer h lt =
    let done : iter / base ≡ 0 = omega (arith, quotient-lt base iter 0 h lt, pow-zero base) in
    ((iter % base) ∷ buffer, ground arith, last_digit base iter 0 buffer h done)
digit_loop-Spells (suc room) base iter buffer h lt = elim (Bool-cases (iter / base == 0)) [
  | inl done ↦ (
    (iter % base) ∷ buffer,
    rw done refl,
    last_digit base iter (suc room) buffer h ((==_iff _ _).0 done),
  )
  | inr more ↦
      let (out, run, s) =
        digit_loop-Spells room base (iter / base) ((iter % base) ∷ buffer) h
          (quotient-lt base iter (suc room) h lt) in
      (out, rw more run, more_digits base iter (suc room) buffer out h s)
]
