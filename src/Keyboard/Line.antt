-- ===== src/Keyboard/Line.antt =====
-- src/keyboard_io.c: kbGetLine, the line editor over the keys, with the terminal of
-- src/stdlib/tio.c. Its two loops over the buffer are those of tio_shift_right and tio_shift_left
-- over other cells.
use palley_os.Prelude.{
  ℕ, zero, suc, ◌+◌, ◌-◌, ◌&&◌, Option, none, some, ◌==◌, ltb, if◌then◌else◌, get_or,
}
use palley_os.Prelude.Memory.{Mem, store}
use palley_os.Ports.{Ports}
use palley_os.Vga.{shift_direction_up, shift_direction_down, vga_color_white}
use palley_os.Console.{
  S, tio_try_cursor_inc, tio_try_cursor_dec, tio_write_char_color, tio_backspace, view_shift,
}
use palley_os.Console.Edit.{move_left_loop, move_right_loop, tio_shift_left, tio_shift_right}
use palley_os.Keyboard.{
  Keyboard, MappedKey, kb_has_new_input, kb_next_mapped_key, scancode_set1, uppercase_scancode_set1,
}

abbrev pub key_backspace : ℕ
key_backspace = 0x2D

abbrev pub key_enter : ℕ
key_enter = 0x6c

abbrev pub key_arrow_up : ℕ
key_arrow_up = 0x8c

abbrev pub key_arrow_left : ℕ
key_arrow_left = 0xa8

abbrev pub key_arrow_right : ℕ
key_arrow_right = 0xaa

abbrev pub key_arrow_down : ℕ
key_arrow_down = 0xa9

-- The memory that holds the buffer, the locals `index` and `size`, and the terminal.
pub record Editor (v : Ports) : Type 0 where
  pub mem : Mem
  pub index : ℕ
  pub size : ℕ
  pub console : S v

abbrev pub character_of : MappedKey → ℕ
character_of key =
    if key.capitalized
    then get_or uppercase_scancode_set1 key.scancode 63
    else get_or scancode_set1 key.scancode 63

module _ (v : Ports) (buffer : ℕ) where
  -- `kprintf("%c", ret)`, which writes the string of the character.
  abbrev pub show_character : ℕ → S v → S v
  show_character ret c = if ret == 0 then c else tio_write_char_color v ret vga_color_white c

  unfoldable pub type_character : ℕ → Editor v → Editor v
  type_character ret e =
      let at_end = e.index == e.size - 1 in
      let shifted =
        if at_end then e.mem else move_right_loop (e.size - e.index) (buffer + e.index) e.mem in
      record {
        mem = store (store shifted (buffer + e.index) ret) (buffer + e.size) 0;
        index = e.index + 1;
        size = e.size + 1;
        console = show_character ret (if at_end then e.console else tio_shift_right e.console);
      }

  unfoldable pub type_backspace : Editor v → Editor v
  type_backspace e =
      let closed =
        if e.index == e.size - 1
        then e.mem
        else move_left_loop (e.size - 1 - (e.index - 1)) (buffer + (e.index - 1)) e.mem in
      let size = if ltb (e.size - 1) 1 then 1 else e.size - 1 in
      if e.index == 0 then e else record {
        mem = store closed (buffer + (size - 1)) 0;
        index = e.index - 1;
        size = size;
        console = tio_backspace v (tio_shift_left e.console);
      }

  unfoldable pub type_left : Editor v → Editor v
  type_left e =
      let (c, moved) = tio_try_cursor_dec v 2 e.console in
      record e { index = if moved then e.index - 1 else e.index; console = c }

  unfoldable pub type_right : Editor v → Editor v
  type_right e =
      let (c, moved) = tio_try_cursor_inc v e.size 2 e.console in
      let index = if moved then e.index + 1 else e.index in
      record e { index = if ltb (e.size - 1) index then e.size - 1 else index; console = c }

  -- The body of the loop for a key that is pressed.
  unfoldable pub type_key : MappedKey → Editor v → Editor v
  type_key key e =
      if key.printable
      then type_character (character_of key) e
      else if key.mapped_code == key_arrow_left
      then type_left e
      else if key.mapped_code == key_arrow_right
      then type_right e
      else if key.mapped_code == key_arrow_up
      then record e { console = view_shift v shift_direction_down 1 e.console }
      else if key.mapped_code == key_arrow_down
      then record e { console = view_shift v shift_direction_up 1 e.console }
      else if key.mapped_code == key_backspace
      then type_backspace e
      else e

  -- The loop over the codes that are in the queue, up to the press of Enter. `none` is a wait for
  -- more codes, or a read outside the tables.
  unfoldable pub get_line_loop : ℕ → Keyboard → Editor v → Option (Editor v × Keyboard)
  get_line_loop zero s e = none
  get_line_loop (suc fuel) s e =
      if kb_has_new_input s
      then elim (kb_next_mapped_key s) [
        | none ↦ none
        | some (key, s') ↦
            let e' = if key.down_stroke then type_key key e else e in
            let rest = get_line_loop fuel s' e' in
            if key.down_stroke && (key.mapped_code == key_enter) then some (e', s') else rest
      ]
      else none

  -- kbGetLine on an initialised keyboard.
  unfoldable pub kb_get_line : ℕ → Keyboard → Mem → S v → Option (Editor v × Keyboard)
  kb_get_line fuel s m c =
      get_line_loop fuel s (record { mem = m; index = 0; size = 1; console = c })
