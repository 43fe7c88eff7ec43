-- ===== src/Shell.antt =====
-- src/kshell.c: the shell, which joins kprintf, the line editor and the terminal. The strings of the
-- source and the arrays on the stack are given by their addresses; kShellStart is its body again and
-- again behind kbInit.
pub mod Typed
pub mod Round
mod Tests
use palley_os.Prelude.{ℕ, ◌/◌, Option, none, some, List, [], ◌∷◌, ◌==◌, if◌then◌else◌}
use palley_os.Prelude.Memory.{Mem}
use palley_os.Ports.{Ports}
use palley_os.Vga.{shift_direction_up, shift_direction_down, term_height}
use palley_os.Kstdlib.{kmemset}
use palley_os.Kprintf.{kprintf}
use palley_os.Console.{S, view_shift}
use palley_os.Keyboard.{Keyboard, MappedKey}
use palley_os.Keyboard.Line.{Editor, kb_get_line, key_arrow_up, key_arrow_down}

abbrev pub page_up : ℕ
page_up = 0x30

abbrev pub page_down : ℕ
page_down = 0x50

abbrev pub line_size : ℕ
line_size = 512

module _ (v : Ports) where
  -- The shell's own handleE0Key, which nothing calls.
  unfoldable pub shell_handle_e0_key : MappedKey → S v → S v
  shell_handle_e0_key key c =
      if key.mapped_code == key_arrow_up
      then view_shift v shift_direction_up 1 c
      else if key.mapped_code == key_arrow_down
      then view_shift v shift_direction_down 1 c
      else if key.mapped_code == page_up
      then view_shift v shift_direction_up (term_height / 2) c
      else if key.mapped_code == page_down
      then view_shift v shift_direction_down (term_height / 2) c
      else c

  module _ (result prompt reply buffer fuel : ℕ) where
    -- The prompt, the empty buffer and the line.
    unfoldable pub shell_read : Keyboard → Mem → S v → Option (Editor v × Keyboard)
    shell_read k m c = elim (kprintf v result fuel m prompt [] c) [
      | none ↦ none
      | some (m', c') ↦ kb_get_line v buffer fuel k (kmemset m' buffer 0 line_size) c'
    ]

    -- The body of the loop of kShellStart.
    unfoldable pub shell_round : Keyboard → Mem → S v → Option (Mem × S v × Keyboard)
    shell_round k m c = elim (shell_read k m c) [
      | none ↦ none
      | some (e, k') ↦ elim (kprintf v result fuel e.mem reply (buffer ∷ []) e.console) [
        | none ↦ none
        | some (m', c') ↦ some (m', c', k')
      ]
    ]
