-- ===== src/Kprintf/Tests.antt =====
-- kprintf on a terminal at its start.
use palley_os.Prelude.{ℕ, ◌≡◌, refl, ◌≤◌, ◌<◌, ◌⊎◌, inl, List, some, [], ◌∷◌, false, arith, get_or}
use palley_os.Prelude.Memory.{Mem, CStr}
use palley_os.Ports.{latches}
use palley_os.Kstdio.Format.{Item, plain, convert_to, hexadecimal, format_of, Renders}
use palley_os.Vga.{vga_color_white}
use palley_os.Console.{Console, S, tio_init}
use palley_os.Console.View.{Text, Refines}
use palley_os.Console.Text.{write, tio_init-Refines}
use palley_os.Kprintf.{kprintf}
use palley_os.Kprintf.Shown.{kprintf-Refines}

abbrev off : Console latches.State
off = record {
  platform_vb = λ i. 32;
  pages = λ k. 0;
  num_pages = 0;
  blank_buffer_page = λ k. 0;
  row = 0;
  height = 0;
  width = 0;
  x = 0;
  y = 0;
  on_screen = false;
  devices = λ port. 0;
}

abbrev empty : Text
empty = record { cells = (tio_init latches off).pages; at = 0 }

-- The format `a%x`, at 1.
abbrev items : List Item
items = plain 97 ∷ convert_to (hexadecimal 48879) ∷ []

abbrev memory : Mem
memory a = get_or (0 ∷ 97 ∷ 37 ∷ 120 ∷ 0 ∷ []) a 0

format_stands : CStr memory 1 (format_of items)
format_stands = (
  refl,
  omega arith,
  omega arith,
  (refl, omega arith, omega arith, (refl, omega arith, omega arith, refl)),
)

kprintf-Refines_example :
    (u : List ℕ) × (after : Mem) × (c : S latches) × (kprintf latches 64 100 memory 1
        (48879 ∷ [])
        (tio_init latches off)
      ≡ some (after, c))
    × Renders items u
    × Refines (write u vga_color_white empty) c
    × ((a : ℕ) → (a < 64) ⊎ (1088 ≤ a) → after a ≡ memory a)
kprintf-Refines_example =
    kprintf-Refines latches memory 64 1 items 100 empty (tio_init latches off) (omega arith)
      (omega arith, (omega arith, tt)) (tt, tt) format_stands (inl (omega arith))
      (tio_init-Refines latches off (λ i h. refl)) (omega arith) (omega arith)
