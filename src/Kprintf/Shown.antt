-- ===== src/Kprintf/Shown.antt =====
-- src/stdlib/kstdio.c: what kprintf shows on the terminal.
use palley_os.Prelude.{
  ℕ, suc, ◌+◌, ◌%◌, ◌/◌, ◌≤◌, ◌<◌, ◌≡◌, ◌≢◌, ◌⊎◌, some, List, [], ◌∷◌, ◌++◌, map, arith, ◌==◌,
  if_lem, length, length-append, get_or, All,
}
use palley_os.Prelude.Memory.{Mem, CStr}
use palley_os.Ports.{Ports}
use palley_os.Kstdio.{kvsprintf, decimal_digit, hex_digit, binary_digit}
use palley_os.Kstdio.Numbers.{Numeral}
use palley_os.Kstdio.Signed.{Signed, positive, negative}
use palley_os.Kstdio.Format.{
  Conversion, signed, unsigned, hexadecimal, binary, char, text, Item, plain, convert_to, format_of,
  arguments, width, capacity, Made, Renders, Clear, IsConversion, AreItems,
}
use palley_os.Kstdio.Format.Run.{cost, kvsprintf-Printed}
use palley_os.Vga.{VgaColor, vga_color_white}
use palley_os.Console.{S, tio_write, tio_write_color}
use palley_os.Console.View.{Text, Refines}
use palley_os.Console.Text.{write_char, write, tio_write_color-Refines}
use palley_os.Kprintf.{result_size, kvprintf, kprintf}

-- A byte of a string.
abbrev pub IsCharacter : ℕ → Type 0
IsCharacter c = (c ≢ 0) × (c < 256)

pub All-append : (u w : List ℕ) → All IsCharacter u → All IsCharacter w → All IsCharacter (u ++ w)
All-append [] w hu hw = hw
All-append (c ∷ u) w hu hw = (hu.0, All-append u w hu.1 hw)

All-CStr : (m : Mem) (p : ℕ) (s : List ℕ) → CStr m p s → All IsCharacter s
All-CStr m p [] h = tt
All-CStr m p (c ∷ s) h = ((h.1, h.2), All-CStr m (p + 1) s h.3)

pub CStr-All :
    (m : Mem) (p : ℕ) (s : List ℕ)
    → All IsCharacter s
    → ((i : ℕ) → i < length s → m (p + i) ≡ get_or s i 0)
    → m (p + length s) ≡ 0
    → CStr m p s
CStr-All m p [] h bytes nul = ground (arith, nul)
CStr-All m p (c ∷ s) h bytes nul = (
  ground (arith, bytes 0),
  h.0.0,
  h.0.1,
  CStr-All m (p + 1) s h.1 (λ i lt. ground (arith, bytes (suc i))) (ground (arith, nul)),
)

module _ (base : ℕ) (show : ℕ → ℕ) (shown : (d : ℕ) → d < base → IsCharacter (show d)) where
  map-All : (ds : List ℕ) → All (λ d. d < base) ds → All IsCharacter (map show ds)
  map-All [] h = tt
  map-All (d ∷ ds) h = (shown d h.0, map-All ds h.1)

  Numeral-All : {n : ℕ} {u : List ℕ} → Numeral base show n u → All IsCharacter u
  Numeral-All {n} {u} h = rw h.shown (map-All h.digits h.small)

decimal_digit-IsCharacter : (d : ℕ) → d < 10 → IsCharacter (decimal_digit d)
decimal_digit-IsCharacter d h = ground arith

hex_digit-IsCharacter : (d : ℕ) → d < 16 → IsCharacter (hex_digit d)
hex_digit-IsCharacter d h = ground arith

binary_digit-IsCharacter : (d : ℕ) → d < 2 → IsCharacter (binary_digit d)
binary_digit-IsCharacter d h = ground arith

Signed-All : {w : ℕ} {u : List ℕ} → Signed w u → (All IsCharacter u) × (length u ≤ 33)
Signed-All (positive h n) =
    (Numeral-All 10 decimal_digit decimal_digit-IsCharacter n, omega (arith, n.short))
Signed-All (negative h n) = (
  ((omega arith, omega arith), Numeral-All 10 decimal_digit decimal_digit-IsCharacter n),
  omega (arith, n.short),
)

-- No NUL among the arguments of %c.
abbrev pub HasCharacter : Conversion → Type 0
HasCharacter (char w) = w % 256 ≢ 0
HasCharacter _ = Unit {0}

abbrev pub HaveCharacters : List Item → Type 0
HaveCharacters [] = Unit {0}
HaveCharacters (plain c ∷ is) = HaveCharacters is
HaveCharacters (convert_to k ∷ is) = HasCharacter k × HaveCharacters is

module _ (m : Mem) (result limit : ℕ) where
  Made-All :
      (k : Conversion) (u : List ℕ)
      → IsConversion m result limit k
      → HasCharacter k
      → Made k u
      → (All IsCharacter u) × (length u ≤ width k)
  Made-All (signed w) u ok clear made = Signed-All made
  Made-All (unsigned w) u ok clear made =
      (Numeral-All 10 decimal_digit decimal_digit-IsCharacter made, omega (arith, made.short))
  Made-All (hexadecimal w) u ok clear made =
      (Numeral-All 16 hex_digit hex_digit-IsCharacter made, omega (arith, made.short))
  Made-All (binary w) u ok clear made =
      (Numeral-All 2 binary_digit binary_digit-IsCharacter made, omega (arith, made.short))
  Made-All (char w) u ok clear made = rw made (((clear, omega arith), tt), omega arith)
  Made-All (text p s) u ok clear made = rw made (All-CStr m p s ok.0, omega arith)

  Renders-All :
      (is : List Item) (u : List ℕ)
      → AreItems m result limit is
      → All IsCharacter (format_of is)
      → HaveCharacters is
      → Renders is u
      → (All IsCharacter u) × (length u ≤ capacity is)
  Renders-All [] u ok plains clear made = rw made (tt, omega arith)
  Renders-All (plain c ∷ is) u ok plains clear (w, made, e) =
      let (chars, short) = Renders-All is w ok.1 plains.1 clear made in
      rw e ((plains.0, chars), omega arith)
  Renders-All (convert_to k ∷ is) u ok plains clear (u', w, first, made, e) =
      let (chars, short) = Renders-All is w ok.1 plains.1.1 clear.1 made in
      let (chars', short') = Made-All k u' ok.0 clear.0 first in
      rw e (All-append u' w chars' chars, omega (arith, length-append u' w))

-- A character takes the text one row on at most.
write_char-at-most :
    (character : ℕ) (vc : VgaColor) (t : Text) → (write_char character vc t).at / 80 ≤ t.at / 80 + 1
write_char-at-most character vc t =
    if_lem (λ (r : Text). r.at / 80 ≤ t.at / 80 + 1) (character == b'\n') (λ e. omega arith)
      (λ e.
        if_lem (λ (r : Text). r.at / 80 ≤ t.at / 80 + 1) (character == b'\r') (λ e. omega arith)
          (λ e. omega arith))

pub write-at-most :
    (s : List ℕ) (vc : VgaColor) (t : Text) → (write s vc t).at / 80 ≤ t.at / 80 + length s
write-at-most [] vc t = omega arith
write-at-most (character ∷ s) vc t =
    let first = write_char-at-most character vc t in
    let others = write-at-most s vc (write_char character vc t) in omega arith

module _ (v : Ports) where
  pub kprintf-both :
      (result fuel : ℕ) (m after : Mem) (format : ℕ) (args : List ℕ) (c c' : S v)
      → kvsprintf fuel m result format args ≡ some after
      → tio_write_color v fuel after result vga_color_white c ≡ some c'
      → kprintf v result fuel m format args c ≡ some (after, c')
  unfolding kprintf kvprintf tio_write
  kprintf-both result fuel m after format args c c' run ends = ground arith

  -- kprintf: on a format of plain characters and known conversions, whose strings lie clear of the
  -- buffer, with no NUL for a %c, the capacity of which is at most 1023 (one for a plain character and
  -- a %c, 33 for a %d, 32 for a %u, %x and %b, the length of the string for a %s), and a terminal
  -- that refines a text whose row and this capacity make less than 237, it ends with fuel for the cost
  -- and the capacity of the items; the terminal then refines the text with the rendering of the items behind it, and no byte outside of the buffer has
  -- changed.
  pub kprintf-Refines :
      (m : Mem) (result format : ℕ) (is : List Item) (fuel : ℕ) (t : Text) (c : S v)
      → capacity is < result_size
      → AreItems m result (capacity is) is
      → HaveCharacters is
      → CStr m format (format_of is)
      → Clear result (capacity is) format (format_of is)
      → Refines t c
      → t.at / 80 + capacity is < 237
      → cost is + capacity is < fuel
      → (u : List ℕ) × (after : Mem) × (c' : S v) × (kprintf v result fuel m format (arguments is) c
          ≡ some (after, c'))
        × Renders is u
        × Refines (write u vga_color_white t) c'
        × ((a : ℕ) → (a < result) ⊎ (result + result_size ≤ a) → after a ≡ m a)
  kprintf-Refines m result format is fuel t c room ok chars h clear r rows enough =
      let (u, after, run, made, printed) =
        kvsprintf-Printed m result format is fuel (omega arith) ok h clear (omega arith) in
      let (all, short) =
        Renders-All m result (capacity is) is u ok (All-CStr m format (format_of is) h) chars
          made in
      let string = CStr-All after result u all printed.bytes printed.nul in
      let (c', ends, shown) =
        tio_write_color-Refines v fuel after result u vga_color_white t c string r
          (omega (arith, write-at-most u vga_color_white t)) (omega arith) in
      (
        u,
        after,
        c',
        kprintf-both result fuel m after format (arguments is) c c' run ends,
        made,
        shown,
        λ a o. printed.same a (ground arith),
      )
