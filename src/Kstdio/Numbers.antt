-- ===== src/Kstdio/Numbers.antt =====
-- The render functions for numbers: what they append to the result.
use palley_os.Prelude.{
  ℕ, suc, ◌+◌, ◌^◌, ◌≤◌, ◌<◌, ◌≡◌, refl, ap, ◌∙◌, Option, some, List, [], ◌∷◌, ◌++◌, map, arith,
  length, All, u32_mod,
}
use mathlib.Core.List.{append-nil}
use palley_os.Prelude.Memory.{Mem}
use palley_os.Kstdio.{
  Out, emit, buffer_size, render_base, render_unsigned_integer, render_hexadecimal, render_binary,
  decimal_digit, hex_digit, binary_digit,
}
use palley_os.Kstdio.Digits.{value_from, digit_loop-Spells}
use palley_os.Kstdio.Output.{Wrote, Wrote-emit}

-- `u` is the number `n` in digits of the base: at least one, and at most 32.
pub record Numeral (base : ℕ) (show : ℕ → ℕ) (n : ℕ) (u : List ℕ) : Type 0 where
  pub digits : List ℕ
  pub shown : u ≡ map show digits
  pub small : All (λ d. d < base) digits
  pub value : value_from base 0 digits ≡ n
  pub some_digit : 0 < length u
  pub short : length u ≤ buffer_size

-- What a render function does: it ends, and appends a text of the kind `P` to the result.
pub record Appends (m : Mem) (result : ℕ) (t : List ℕ) (P : List ℕ → Type 0) (r : Option Out)
    : Type 0 where
  pub out : Out
  pub text : List ℕ
  pub ends : r ≡ some out
  pub kind : P text
  pub wrote : Wrote m result (t ++ text) out

length-map : (show : ℕ → ℕ) (ds : List ℕ) → length (map show ds) ≡ length ds
length-map show [] = refl
length-map show (d ∷ ds) = ap suc (length-map show ds)

pub render_base-Appends :
    (m : Mem) (base result n : ℕ) (show : ℕ → ℕ) (t : List ℕ) (out : Out)
    → Wrote m result t out
    → length t + buffer_size < u32_mod
    → 1 < base
    → n < base ^ buffer_size
    → Appends m result t (Numeral base show n) (render_base base show result out n)
unfolding render_base
render_base-Appends m base result n show t out w room h lt =
    let (ds, run, s) = digit_loop-Spells 31 base n [] h lt in
    let whole : ds ≡ s.digits = s.front ∙ append-nil s.digits in
    record {
      out = emit result show ds out;
      text = map show ds;
      ends = rw (run, render_base) refl;
      kind = record {
        digits = s.digits;
        shown = ap (map show) whole;
        small = s.small;
        value = s.value;
        some_digit = omega (arith, length-map show ds, ap length whole, s.some_digit);
        short = omega (arith, length-map show ds, ap length whole, s.short);
      };
      wrote = Wrote-emit m result show ds t out w (omega (arith, ap length whole, s.short));
    }

-- render_unsigned_integer, render_hexadecimal and render_binary: behind a text that is written and
-- leaves room for 32 more characters, each ends without overrunning its buffer of 32 digits, and
-- appends the digits of a 32-bit number to base 10, 16 or 2, most significant first.
pub render_unsigned-Appends :
    (m : Mem) (result n : ℕ) (t : List ℕ) (out : Out)
    → Wrote m result t out
    → length t + buffer_size < u32_mod
    → n < u32_mod
    → Appends m result t (Numeral 10 decimal_digit n) (render_unsigned_integer result out n)
      × Appends m result t (Numeral 16 hex_digit n) (render_hexadecimal result out n)
      × Appends m result t (Numeral 2 binary_digit n) (render_binary result out n)
unfolding render_unsigned_integer render_hexadecimal render_binary
render_unsigned-Appends m result n t out w room lt = (
  render_base-Appends m 10 result n decimal_digit t out w room (omega arith) (omega arith),
  render_base-Appends m 16 result n hex_digit t out w room (omega arith) (omega arith),
  render_base-Appends m 2 result n binary_digit t out w room (omega arith) (omega arith),
)
