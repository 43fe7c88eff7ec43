-- ===== src/Kstdio.antt =====
-- src/stdlib/kstdio.c: number rendering and kvsprintf, over byte memory. The arguments of a call
-- are the 32-bit words on its stack; taking one that is not there is undefined in C and `none` here,
-- as is fuel that runs out.
pub mod Digits
pub mod Output
pub mod Numbers
pub mod Signed
pub mod Format
mod Tests
use palley_os.Prelude.{
  ℕ, zero, suc, ◌+◌, ◌-◌, ◌/◌, ◌%◌, ◌^◌, Option, none, some, List, [], ◌∷◌, ◌==◌, ltb, leb,
  if◌then◌else◌, u32_mod,
}
use palley_os.Prelude.Memory.{Mem, store}

-- The memory and `result_i`; the pointer `result` does not change.
pub record Out : Type 0 where
  pub mem : Mem
  pub result_i : ℕ

-- `result[*result_i] = c; *result_i += 1;`
unfoldable pub put_char : ℕ → Out → ℕ → Out
put_char result out c = record {
  mem = store out.mem (result + out.result_i) c;
  result_i = (out.result_i + 1) % u32_mod;
}

-- The digit loop with its buffer, the cell written last in front; `none` if the buffer of `room`
-- cells is too short.
unfoldable pub digit_loop : ℕ → ℕ → ℕ → List ℕ → Option (List ℕ)
digit_loop zero base iter buffer = none
digit_loop (suc room) base iter buffer =
    let buffer' : List ℕ = (iter % base) ∷ buffer in
    let rest = digit_loop room base (iter / base) buffer' in
    if iter / base == 0 then some buffer' else rest

-- The loop that writes the buffer out, from its last cell down to its first.
unfoldable pub emit : ℕ → (ℕ → ℕ) → List ℕ → Out → Out
emit result show [] out = out
emit result show (d ∷ ds) out = emit result show ds (put_char result out (show d))

abbrev pub decimal_digit : ℕ → ℕ
decimal_digit d = d + b'0'

-- `hex_digits[d]`
abbrev pub hex_digit : ℕ → ℕ
hex_digit d = if ltb d 10 then d + b'0' else d - 10 + b'a'

abbrev pub binary_digit : ℕ → ℕ
binary_digit d = b'0' + d

-- `uint8_t buffer[32]`.
abbrev pub buffer_size : ℕ
buffer_size = 32

pub render_base : ℕ → (ℕ → ℕ) → ℕ → Out → ℕ → Option Out
unfolding digit_loop emit put_char
render_base base show result out to_render = elim (digit_loop buffer_size base to_render []) [
  | none ↦ none
  | some ds ↦ some (emit result show ds out)
]

unfoldable pub render_unsigned_integer : ℕ → Out → ℕ → Option Out
unfolding render_base
render_unsigned_integer = render_base 10 decimal_digit

unfoldable pub render_hexadecimal : ℕ → Out → ℕ → Option Out
unfolding render_base
render_hexadecimal = render_base 16 hex_digit

unfoldable pub render_binary : ℕ → Out → ℕ → Option Out
unfolding render_base
render_binary = render_base 2 binary_digit

-- "-2147483648"
abbrev pub int_min_text : List ℕ
int_min_text = b'-' ∷ b'2' ∷ b'1' ∷ b'4' ∷ b'7' ∷ b'4' ∷ b'8' ∷ b'3' ∷ b'6' ∷ b'4' ∷ b'8' ∷ []

-- INT_MIN is copied with its NUL, which `result_i` does not count.
unfoldable pub render_integer : ℕ → Out → ℕ → Option Out
unfolding render_base emit put_char
render_integer result out to_render =
    let copied = emit result (λ c. c) int_min_text out in
    if to_render == 2 ^ 31
    then some (record copied { mem = store copied.mem (result + copied.result_i) 0 })
    else if leb (2 ^ 31) to_render
    then render_base 10 decimal_digit result (put_char result out b'-') (u32_mod - to_render)
    else render_base 10 decimal_digit result out to_render

unfoldable pub render_string : ℕ → ℕ → Out → ℕ → Option Out
unfolding put_char
render_string zero result out to_render = none
render_string (suc fuel) result out to_render =
    let c = out.mem to_render in
    let rest = render_string fuel result (put_char result out c) (to_render + 1) in
    if c == 0 then some out else rest

-- What a directive comes to: the conversion is made, or the format is given up, with no NUL.
pub data Directive : Type 0 where
  rendered : Out → List ℕ → Directive
  bad : Directive
  stuck : Directive

abbrev pub rendered_or_stuck : Option Out → List ℕ → Directive
rendered_or_stuck none args = stuck
rendered_or_stuck (some out) args = rendered out args

-- The `switch` on the letter behind a `%`.
unfoldable pub convert : ℕ → ℕ → Out → ℕ → List ℕ → Directive
unfolding render_integer render_unsigned_integer render_hexadecimal render_binary render_string
    put_char
convert fuel result out letter [] =
    if (letter == b'd')
    then stuck
    else if (letter == b'u')
    then stuck
    else if (letter == b'x')
    then stuck
    else if (letter == b'b')
    then stuck
    else if (letter == b's')
    then stuck
    else if (letter == b'c')
    then stuck
    else bad
convert fuel result out letter (arg ∷ args) =
    if letter == b'd'
    then rendered_or_stuck (render_integer result out arg) args
    else if letter == b'u'
    then rendered_or_stuck (render_unsigned_integer result out arg) args
    else if letter == b'x'
    then rendered_or_stuck (render_hexadecimal result out arg) args
    else if letter == b'b'
    then rendered_or_stuck (render_binary result out arg) args
    else if letter == b's'
    then rendered_or_stuck (render_string fuel result out arg) args
    else if letter == b'c'
    then rendered (put_char result out (arg % 256)) args
    else bad

-- The memory that kvsprintf leaves.
unfoldable pub vsprintf_loop : ℕ → ℕ → ℕ → Out → List ℕ → Option Mem
unfolding convert put_char
vsprintf_loop zero result format out args = none
vsprintf_loop (suc fuel) result format out args =
    let c = out.mem format in
    let plain = vsprintf_loop fuel result (format + 1) (put_char result out c) args in
    let special : Option Mem = elim (convert fuel result out (out.mem (format + 1)) args) [
      | rendered out' args' ↦ vsprintf_loop fuel result (format + 2) out' args'
      | bad ↦ some out.mem
      | stuck ↦ none
    ] in
    if c == 0
    then some (store out.mem (result + out.result_i) 0)
    else if c == b'%'
    then special
    else plain

unfoldable pub kvsprintf : ℕ → Mem → ℕ → ℕ → List ℕ → Option Mem
unfolding vsprintf_loop
kvsprintf fuel m result format args =
    vsprintf_loop fuel result format (record { mem = m; result_i = 0 }) args
