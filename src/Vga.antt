-- ===== src/Vga.antt =====
-- include/tio.h: the sizes of the terminal, its colours and directions, and the entry that
-- src/stdlib/tio.c makes of a character.
use Prim.Native.Nat.{bit_or}
use palley_os.Prelude.{ℕ, ◌*◌, ◌%◌, ◌^◌}

abbrev pub term_width : ℕ
term_width = 80

abbrev pub term_height : ℕ
term_height = 24

abbrev pub vb_size : ℕ
vb_size = term_width * term_height

abbrev pub fvb_pages : ℕ
fvb_pages = 10

pub data VgaColor : Type 0 where
  vga_color_black vga_color_blue vga_color_green vga_color_cyan : VgaColor
  vga_color_red vga_color_magenta vga_color_brown vga_color_light_grey : VgaColor
  vga_color_dark_grey vga_color_light_blue vga_color_light_green vga_color_light_cyan : VgaColor
  vga_color_light_red vga_color_light_magenta vga_color_light_brown vga_color_white : VgaColor

-- The value that the enumeration gives a colour.
abbrev pub color_value : VgaColor → ℕ
color_value vga_color_black = 0
color_value vga_color_blue = 1
color_value vga_color_green = 2
color_value vga_color_cyan = 3
color_value vga_color_red = 4
color_value vga_color_magenta = 5
color_value vga_color_brown = 6
color_value vga_color_light_grey = 7
color_value vga_color_dark_grey = 8
color_value vga_color_light_blue = 9
color_value vga_color_light_green = 10
color_value vga_color_light_cyan = 11
color_value vga_color_light_red = 12
color_value vga_color_light_magenta = 13
color_value vga_color_light_brown = 14
color_value vga_color_white = 15

pub data ShiftDirection : Type 0 where
  shift_direction_up shift_direction_down : ShiftDirection

abbrev pub create_vga_entry : ℕ → VgaColor → ℕ
create_vga_entry uc color = bit_or (uc % 256) (color_value color * 2 ^ 8 % 2 ^ 16)
