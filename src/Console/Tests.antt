-- ===== src/Console/Tests.antt =====
-- Terminals at their start and at the buffer's end.
use palley_os.Prelude.{
  ℕ, ◌+◌, ◌*◌, ◌%◌, ◌≤◌, ◌<◌, ◌≢◌, ◌≡◌, refl, true, false, [], ◌∷◌, arith, some,
}
use palley_os.Prelude.Memory.{Mem, store}
use palley_os.Ports.{latches}
use palley_os.Vga.{vga_color_white}
use palley_os.Console.{
  Console, tio_init, tio_write_color, tio_write_char_color, cursor_get_index_in_buffer,
}
use palley_os.Console.View.{Text, Refines}
use palley_os.Console.Text.{write, tio_write_color-Refines, tio_init-Refines}
use palley_os.Console.Edit.{
  tio_shift_left, tio_shift_right, tio_shift_left-tio_shift_right, view_end,
}
use palley_os.Console.Overrun.{new_line-overrun}

-- A terminal before its start, on a blank screen.
abbrev off : Console latches.State
off = record {
  platform_vb = λ i. 32;
  pages = λ k. 0;
  num_pages = 0;
  blank_buffer_page = λ k. 0;
  row = 0;
  height = 0;
  width = 0;
  x = 0;
  y = 0;
  on_screen = false;
  devices = λ port. 0;
}

abbrev empty : Text
empty = record { cells = (tio_init latches off).pages; at = 0 }

started : Refines empty (tio_init latches off)
started = tio_init-Refines latches off (λ i h. refl)

abbrev memory : Mem
memory = store (store (store (λ a. 0) 100 72) 101 10) 102 33

tio_write_color-Refines_example :
    (c : Console latches.State) × (tio_write_color latches 4 memory 100 vga_color_white
        (tio_init latches off)
      ≡ some c)
    × Refines (write (72 ∷ 10 ∷ 33 ∷ []) vga_color_white empty) c
tio_write_color-Refines_example =
    tio_write_color-Refines latches 4 memory 100 (72 ∷ 10 ∷ 33 ∷ []) vga_color_white empty
      (tio_init latches off)
      (
        refl,
        omega arith,
        omega arith,
        (refl, omega arith, omega arith, (refl, omega arith, omega arith, refl)),
      )
      started (omega arith) (omega arith)

-- A terminal with its view at `row` and its cursor there.
abbrev standing : ℕ → ℕ → ℕ → Console latches.State
standing row x y = record {
  platform_vb = λ i. (row * 80 + i) % 256;
  pages = λ k. k % 256;
  num_pages = 10;
  blank_buffer_page = λ k. 32;
  row = row;
  height = 24;
  width = 80;
  x = x;
  y = y;
  on_screen = true;
  devices = λ port. 0;
}

abbrev filled : ℕ → Text
filled at = record { cells = λ k. k % 256; at = at }

typing : Refines (filled 1445) (standing 7 5 11)
typing = record {
  laid = record {
    pages_of = refl;
    height_of = refl;
    in_line = omega arith;
    in_buffer = omega arith;
    text = λ k. refl;
    place = refl;
  };
  shows = λ i h. refl;
  seen = refl;
}

at_last : Refines (filled 18960) (standing 215 0 22)
at_last = record {
  laid = record {
    pages_of = refl;
    height_of = refl;
    in_line = omega arith;
    in_buffer = omega arith;
    text = λ k. refl;
    place = refl;
  };
  shows = λ i h. refl;
  seen = refl;
}

tio_shift_left-tio_shift_right_example :
    let c = standing 7 5 11 in
    let c' = tio_shift_left (tio_shift_right c) in
    ((k : ℕ) → k ≢ view_end c → c'.pages k ≡ c.pages k)
    × ((i : ℕ) → i < 1920 → c'.platform_vb i ≡ c.platform_vb i)
tio_shift_left-tio_shift_right_example =
    tio_shift_left-tio_shift_right (filled 1445) (standing 7 5 11) typing (omega arith)
      (omega arith)

new_line-overrun_example :
    10 * 1920
    ≤ cursor_get_index_in_buffer
        (tio_write_char_color latches b'\n' vga_color_white (standing 215 0 22))
new_line-overrun_example =
    new_line-overrun latches (filled 18960) (standing 215 0 22) vga_color_white at_last refl refl
