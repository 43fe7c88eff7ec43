-- ===== src/Shell/Tests.antt =====
-- A round of the shell in which "ab" is typed, on a terminal at its start.
use palley_os.Prelude.{
  ℕ, Bool, false, true, ◌≡◌, refl, inl, inr, none, some, List, [], ◌∷◌, arith, get_or, replicate,
}
use palley_os.Prelude.Memory.{Mem, CStr}
use palley_os.Ports.{latches}
use palley_os.Vga.{vga_color_white}
use palley_os.Console.{Console, S, tio_init, tio_write_color}
use palley_os.Console.View.{Text}
use palley_os.Console.Text.{tio_init-Refines}
use palley_os.Keyboard.{Keyboard, MappedKey, kb_has_new_input, kb_next_mapped_key}
use palley_os.Keyboard.Line.{Editor}
use palley_os.Keyboard.Editing.{Edits}
use palley_os.Keyboard.Reading.{enter, press}
use palley_os.Shell.{shell_read, shell_round}
use palley_os.Shell.Round.{typed, reply_text, shell_round-Echoes}

abbrev off : Console latches.State
off = record {
  platform_vb = λ i. 32;
  pages = λ k. 0;
  num_pages = 0;
  blank_buffer_page = λ k. 0;
  row = 0;
  height = 0;
  width = 0;
  x = 0;
  y = 0;
  on_screen = false;
  devices = λ port. 0;
}

abbrev empty : Text
empty = record { cells = (tio_init latches off).pages; at = 0 }

-- The prompt at 1 and the reply's format at 4.
abbrev memory : Mem
memory a = get_or (0 ∷ 62 ∷ 32 ∷ 0 ∷ 10 ∷ 37 ∷ 115 ∷ 10 ∷ 0 ∷ []) a 0

-- The codes of a, b and Enter.
abbrev typing : Keyboard
typing = record {
  key_states = replicate 256 false;
  scancode_queue = 30 ∷ 48 ∷ 28 ∷ replicate 253 0;
  queue_widx = 3;
  queue_ridx = 0;
}

abbrev pressed : ℕ → ℕ → Bool → MappedKey
pressed mapped_code scancode printable = record {
  mapped_code = mapped_code;
  scancode = scancode;
  e0_key = false;
  printable = printable;
  down_stroke = true;
  capitalized = false;
}

abbrev keys : List MappedKey
keys = pressed 97 30 true ∷ pressed 133 48 true ∷ pressed 108 28 false ∷ []

abbrev next_keyboard : Keyboard → Keyboard
next_keyboard s = elim (kb_next_mapped_key s) [ none ↦ s | some (key, s') ↦ s' ]

abbrev typed_out : Keyboard
typed_out = next_keyboard (next_keyboard (next_keyboard typing))

shell_round-Echoes_example :
    (e : Editor latches) × (after : Mem) × (c : S latches) × (shell_round latches 64 1 4 2048 100
        typing memory
        (tio_init latches off)
      ≡ some (after, c, typed_out))
    × (shell_read latches 64 1 4 2048 100 typing memory (tio_init latches off)
        ≡ some (e, typed_out))
    × Edits 2048 (typed keys) e
    × CStr after 64 (reply_text (typed keys).text)
    × (tio_write_color latches 100 after 64 vga_color_white e.console ≡ some c)
unfolding kb_next_mapped_key kb_has_new_input
shell_round-Echoes_example =
    shell_round-Echoes latches 64 1 4 2048 100 3 typing typed_out keys memory empty
      (tio_init latches off)
      (refl, omega arith, omega arith, (refl, omega arith, omega arith, refl))
      (
        refl,
        omega arith,
        omega arith,
        (
          refl,
          omega arith,
          omega arith,
          (refl, omega arith, omega arith, (refl, omega arith, omega arith, refl)),
        ),
      )
      (inr (omega arith)) (inr (omega arith)) (inl (omega arith)) (inr (omega arith))
      (tio_init-Refines latches off (λ i h. refl)) refl (omega arith)
      (press refl refl refl refl (press refl refl refl refl (enter refl refl refl refl)))
      (omega arith) (omega arith)
      (
        (omega arith, omega arith, omega arith),
        ((omega arith, omega arith, omega arith), ((omega arith, omega arith, omega arith), tt)),
      )
      (omega arith)
