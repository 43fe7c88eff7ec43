-- ===== src/Kstdio/Signed.antt =====
-- render_integer: the decimal text of an int32_t.
use palley_os.Prelude.{
  ℕ, ◌+◌, ◌-◌, ◌^◌, ◌≤◌, ◌<◌, ◌≡◌, refl, ap, ◌∙◌, inl, inr, some, List, [], ◌∷◌, ◌++◌, map, arith,
  ◌==◌, leb, length, length-append, Bool-cases, ==_iff, u32_mod,
}
use mathlib.Core.List.{append_assoc}
use palley_os.Prelude.Memory.{Mem, store}
use palley_os.Kstdio.{Out, put_char, emit, render_base, render_integer, decimal_digit, int_min_text}
use palley_os.Kstdio.Digits.{value_from}
use palley_os.Kstdio.Output.{Wrote, Wrote-put_char, Wrote-emit, Wrote-nul}
use palley_os.Kstdio.Numbers.{Numeral, Appends, render_base-Appends}

-- The decimal text of an int32_t given by its bit pattern.
pub data Signed (w : ℕ) : List ℕ → Type 0 where
  positive : {u : List ℕ} → w < 2 ^ 31 → Numeral 10 decimal_digit w u → Signed w u
  negative :
      {u : List ℕ} → 2 ^ 31 ≤ w → Numeral 10 decimal_digit (u32_mod - w) u → Signed w (b'-' ∷ u)

int_min-Signed : Signed (2 ^ 31) int_min_text
unfolding value_from
int_min-Signed = negative (omega arith) (record {
  digits = 2 ∷ 1 ∷ 4 ∷ 7 ∷ 4 ∷ 8 ∷ 3 ∷ 6 ∷ 4 ∷ 8 ∷ [];
  shown = refl;
  small = omega arith;
  value = refl;
  some_digit = omega arith;
  short = omega arith;
})

map-id : (u : List ℕ) → map (λ c. c) u ≡ u
map-id [] = refl
map-id (c ∷ u) = ap (◌∷◌ c) (map-id u)

-- The three branches of render_integer.
module _ (result n : ℕ) (out : Out) where
  render_integer-min :
      n ≡ 2 ^ 31
      → let copied = emit result (λ c. c) int_min_text out in
        render_integer result out n
        ≡ some (record copied { mem = store copied.mem (result + copied.result_i) 0 })
  unfolding render_integer
  render_integer-min e = rw e refl

  render_integer-negative :
      2 ^ 31 < n
      → render_integer result out n
        ≡ render_base 10 decimal_digit result (put_char result out b'-') (u32_mod - n)
  unfolding render_integer
  render_integer-negative lt = ground arith

  render_integer-positive :
      n < 2 ^ 31 → render_integer result out n ≡ render_base 10 decimal_digit result out n
  unfolding render_integer
  render_integer-positive lt = ground arith

-- render_integer: behind a text that is written and leaves room for 64 more characters, it ends and
-- appends the decimal text of the int32_t with the bit pattern `n`: the digits of its value, with a
-- minus sign in front of those of a negative one, INT_MIN included.
pub render_integer-Appends :
    (m : Mem) (result n : ℕ) (t : List ℕ) (out : Out)
    → Wrote m result t out
    → length t + 64 < u32_mod
    → n < u32_mod
    → Appends m result t (Signed n) (render_integer result out n)
render_integer-Appends m result n t out w room lt = elim (Bool-cases (n == 2 ^ 31)) [
  | inl e ↦
      let is_min : n ≡ 2 ^ 31 = (==_iff n (2 ^ 31)).0 e in
      let copied : Out = emit result (λ c. c) int_min_text out in
      record {
        out = record copied { mem = store copied.mem (result + copied.result_i) 0 };
        text = int_min_text;
        ends = render_integer-min result n out is_min;
        kind = rw is_min int_min-Signed;
        wrote =
            Wrote-nul m result (t ++ int_min_text) copied
              (Wrote-emit m result (λ c. c) int_min_text t out w (omega arith));
      }
  | inr e ↦ elim (Bool-cases (leb (2 ^ 31) n)) [
    | inl neg ↦
        let r =
          render_base-Appends m 10 result (u32_mod - n) decimal_digit (t ++ (b'-' ∷ []))
            (put_char result out b'-') (Wrote-put_char m result b'-' t out w (omega arith))
            (omega (arith, length-append t (b'-' ∷ []))) (omega arith) (omega arith) in
        record {
          out = r.out;
          text = b'-' ∷ r.text;
          ends = render_integer-negative result n out (ground arith) ∙ r.ends;
          kind = negative (ground arith) r.kind;
          wrote = rw (← append_assoc t (b'-' ∷ []) r.text) r.wrote;
        }
    | inr pos ↦
        let r =
          render_base-Appends m 10 result n decimal_digit t out w (omega arith) (omega arith)
            (omega arith) in
        record {
          out = r.out;
          text = r.text;
          ends = render_integer-positive result n out (ground arith) ∙ r.ends;
          kind = positive (ground arith) r.kind;
          wrote = r.wrote;
        }
  ]
]
