-- ===== src/Kstdio/Format.antt =====
-- kvsprintf against a description of the format by its items.
pub mod Loop
pub mod Run
use mathlib.Core.List.{append_assoc, append-nil}
use palley_os.Prelude.{
  ℕ, zero, suc, ◌+◌, ◌-◌, ◌%◌, ◌^◌, ◌≤◌, ◌<◌, ◌≡◌, ◌≢◌, refl, sym, ap, ◌∙◌, ◌⊎◌, inl, inr, Option,
  none, some, List, [], ◌∷◌, ◌++◌, arith, ◌==◌, if◌then◌else◌, length, get_or, length-append,
  u32_mod,
}
use palley_os.Prelude.Memory.{Mem, store, CStr}
use palley_os.Kstdio.{
  Out, put_char, render_string, Directive, rendered, convert, vsprintf_loop, kvsprintf, hex_digit,
  binary_digit, decimal_digit, buffer_size, render_integer, render_unsigned_integer,
  render_hexadecimal, render_binary,
}
use palley_os.Kstdio.Output.{Wrote, Wrote-put_char}
use palley_os.Kstdio.Numbers.{Numeral, Appends, render_unsigned-Appends}
use palley_os.Kstdio.Signed.{Signed, render_integer-Appends}

-- A conversion, with its argument; a string has its address and its characters.
pub data Conversion : Type 0 where
  signed unsigned hexadecimal binary char : ℕ → Conversion
  text : ℕ → List ℕ → Conversion

pub data Item : Type 0 where
  plain : ℕ → Item
  convert_to : Conversion → Item

abbrev pub letter : Conversion → ℕ
letter (signed w) = b'd'
letter (unsigned w) = b'u'
letter (hexadecimal w) = b'x'
letter (binary w) = b'b'
letter (char w) = b'c'
letter (text p s) = b's'

abbrev pub argument : Conversion → ℕ
argument (signed w) = w
argument (unsigned w) = w
argument (hexadecimal w) = w
argument (binary w) = w
argument (char w) = w
argument (text p s) = p

abbrev pub format_of : List Item → List ℕ
format_of [] = []
format_of (plain c ∷ is) = c ∷ format_of is
format_of (convert_to k ∷ is) = b'%' ∷ letter k ∷ format_of is

abbrev pub arguments : List Item → List ℕ
arguments [] = []
arguments (plain c ∷ is) = arguments is
arguments (convert_to k ∷ is) = argument k ∷ arguments is

-- The most characters that a conversion makes.
abbrev pub width : Conversion → ℕ
width (signed w) = 33
width (unsigned w) = 32
width (hexadecimal w) = 32
width (binary w) = 32
width (char w) = 1
width (text p s) = length s

abbrev pub capacity : List Item → ℕ
capacity [] = 0
capacity (plain c ∷ is) = 1 + capacity is
capacity (convert_to k ∷ is) = width k + capacity is

-- What a conversion makes of its argument.
abbrev pub Made : Conversion → List ℕ → Type 0
Made (signed w) u = Signed w u
Made (unsigned w) u = Numeral 10 decimal_digit w u
Made (hexadecimal w) u = Numeral 16 hex_digit w u
Made (binary w) u = Numeral 2 binary_digit w u
Made (char w) u = u ≡ (w % 256) ∷ []
Made (text p s) u = u ≡ s

abbrev pub Renders : List Item → List ℕ → Type 0
Renders [] t = t ≡ []
Renders (plain c ∷ is) t = (v : List ℕ) × Renders is v × (t ≡ c ∷ v)
Renders (convert_to k ∷ is) t = (u : List ℕ) × (v : List ℕ) × Made k u × Renders is v × (t ≡ u ++ v)

-- The string at `p` lies outside the `limit` characters from `result` on and the one behind them.
abbrev pub Clear : ℕ → ℕ → ℕ → List ℕ → Type 0
Clear result limit p s = (p + length s < result) ⊎ (result + limit < p)

module _ (m : Mem) (result limit : ℕ) where
  abbrev pub IsConversion : Conversion → Type 0
  IsConversion (text p s) = CStr m p s × Clear result limit p s
  IsConversion (signed w) = w < u32_mod
  IsConversion (unsigned w) = w < u32_mod
  IsConversion (hexadecimal w) = w < u32_mod
  IsConversion (binary w) = w < u32_mod
  IsConversion (char w) = w < u32_mod

  abbrev pub AreItems : List Item → Type 0
  AreItems [] = Unit {0}
  AreItems (plain c ∷ is) = (c ≢ b'%') × AreItems is
  AreItems (convert_to k ∷ is) = IsConversion k × AreItems is
