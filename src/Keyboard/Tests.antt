-- ===== src/Keyboard/Tests.antt =====
-- The queue with two codes in it.
use palley_os.Prelude.{
  ℕ, Bool, List, none, some, not, ◌&&◌, ◌==◌, if◌then◌else◌, ◌<◌, ◌≡◌, refl, true, false, [], ◌∷◌,
  ◌++◌, arith, length, replicate, set,
}
use palley_os.Ports.{Ports, latches}
use palley_os.Ports.Io.{Cpu, cli}
use palley_os.Console.{Console}
use palley_os.Keyboard.Line.{Editor, kb_get_line}
use palley_os.Keyboard.Editing.{Edits}
use palley_os.Keyboard.Frame.{Outside}
use palley_os.Keyboard.Reading.{enter, press, release, edited_by, kb_get_line-Edits}
use palley_os.Keyboard.{
  MappedKey, kb_next_mapped_key, Keyboard, keyboard_interrupt_handler, kb_has_new_input,
}
use palley_os.Keyboard.Controller.{
  Keysets, no_scan_code_set, keyset_message, ack, echo, scan_code, no_subcommand,
  ps2_send_sub_command, ps2_get_keyset, ps2_init, kb_init,
}
use palley_os.Keyboard.Answers.{Answered, sent, ps2_send_sub_command-Answered, Ends, kb_init-Ends}
use palley_os.Keyboard.SelfTests.{failures}
use palley_os.Keyboard.Keysets.{AckKeyboard, ps2_get_keyset-ack}
use palley_os.Keyboard.Queue.{pending, IsKeyboard, keyboard_interrupt_handler-pending}

abbrev keyboard : Keyboard
keyboard = record {
  key_states = replicate 256 false;
  scancode_queue = set (set (replicate 256 0) 255 30) 0 158;
  queue_widx = 1;
  queue_ridx = 255;
}

keyboard-IsKeyboard : IsKeyboard keyboard
keyboard-IsKeyboard = (refl, omega arith, omega arith, refl)

keyboard_interrupt_handler-pending_example :
    (length (pending keyboard) < 255
      → pending (keyboard_interrupt_handler 28 keyboard) ≡ pending keyboard ++ (28 ∷ []))
    × (length (pending keyboard) ≡ 255
        → (pending (keyboard_interrupt_handler 28 keyboard) ≡ [])
          × (kb_has_new_input (keyboard_interrupt_handler 28 keyboard) ≡ false))
keyboard_interrupt_handler-pending_example =
    keyboard_interrupt_handler-pending 28 keyboard keyboard-IsKeyboard

-- The codes of a, b, the left arrow, c and Enter, with the release of a.
abbrev typed_keyboard : Keyboard
typed_keyboard = record {
  key_states = replicate 256 false;
  scancode_queue = 30 ∷ 158 ∷ 48 ∷ 0xE0 ∷ 0x4B ∷ 46 ∷ 28 ∷ replicate 249 0;
  queue_widx = 7;
  queue_ridx = 0;
}

abbrev prompt : Console latches.State
prompt = record {
  platform_vb = λ i. 0;
  pages = λ k. 0;
  num_pages = 10;
  blank_buffer_page = λ k. 32;
  row = 0;
  height = 24;
  width = 80;
  x = 2;
  y = 0;
  on_screen = true;
  devices = λ port. 0;
}

abbrev pressed : ℕ → ℕ → Bool → MappedKey
pressed mapped_code scancode printable = record {
  mapped_code = mapped_code;
  scancode = scancode;
  e0_key = not printable && not (scancode == 28);
  printable = printable;
  down_stroke = true;
  capitalized = false;
}

abbrev typed_keys : List MappedKey
typed_keys =
    pressed 97 30 true
    ∷ pressed 133 48 true
    ∷ pressed 0xa8 0x4B false
    ∷ pressed 131 46 true
    ∷ pressed 108 28 false
    ∷ []

abbrev next_keyboard : Keyboard → Keyboard
next_keyboard s = elim (kb_next_mapped_key s) [ none ↦ s | some (key, s') ↦ s' ]

abbrev last_keyboard : Keyboard
last_keyboard =
    next_keyboard
      (next_keyboard (next_keyboard (next_keyboard (next_keyboard (next_keyboard typed_keyboard)))))

kb_get_line-Edits_example :
    (e : Editor latches) × (kb_get_line latches 500 9 typed_keyboard (λ a. 0) prompt
      ≡ some (e, last_keyboard))
    × Edits 500 (edited_by typed_keys (record { text = []; at = 0 })) e
    × ((a : ℕ) → Outside 500 5 a → e.mem a ≡ 0)
unfolding kb_next_mapped_key kb_has_new_input
kb_get_line-Edits_example =
    kb_get_line-Edits latches 500 6 9 typed_keyboard last_keyboard typed_keys (λ a. 0) prompt
      (press refl refl refl refl (
        release refl refl refl (
          press refl refl refl refl
            (press refl refl refl refl (press refl refl refl refl (enter refl refl refl refl))))))
      (omega arith) refl refl
      (
        (omega arith, omega arith, omega arith),
        (
          (omega arith, omega arith, omega arith),
          (
            (omega arith, omega arith, omega arith),
            (
              (omega arith, omega arith, omega arith),
              ((omega arith, omega arith, omega arith), tt),
            ),
          ),
        ),
      )
      (omega arith)

-- A keyboard in set 2, by the answers that wait.
abbrev next_answer : List ℕ → ℕ × List ℕ
next_answer [] = (0, [])
next_answer (a ∷ rest) = (a, rest)

abbrev wire : Ports
wire = record {
  State = List ℕ;
  inb = λ port s. next_answer s;
  outb = λ port value s. s ++ (if value == 0 then ack ∷ 2 ∷ [] else ack ∷ []);
  inw = λ port s. (0, s);
  outw = λ port value s. s;
}

abbrev ack_keyboard : AckKeyboard wire
ack_keyboard = record {
  answers = λ d. d;
  scan_set = λ d. 2;
  reads = λ d a rest e. rw e (refl, refl);
  asked = λ d e. rw e refl;
}

abbrev quiet : Cpu (List ℕ)
quiet = record { interrupts = true; devices = [] }

abbrev no_keysets : Keysets
no_keysets = record { kb_keyset = []; kb_keyset_upper = []; keyboard_initialized = false }

ps2_send_sub_command-Answered_example :
    Answered wire (sent wire scan_code 0 []) (ps2_send_sub_command wire scan_code 0 quiet)
ps2_send_sub_command-Answered_example = ps2_send_sub_command-Answered wire scan_code 0 quiet

ps2_get_keyset-ack_example :
    ((ps2_get_keyset wire quiet).0 ≡ ack)
    × (keyset_message (ps2_get_keyset wire quiet).0 ≡ no_scan_code_set)
    × ((ps2_get_keyset wire quiet).1.devices ≡ 2 ∷ [])
ps2_get_keyset-ack_example = ps2_get_keyset-ack wire ack_keyboard quiet refl

kb_init-Ends_example :
    Ends wire
      (failures wire quiet.devices)
      (sent wire echo no_subcommand (ps2_init wire (cli quiet).1).1.devices)
      no_keysets
      (kb_init wire no_keysets quiet)
kb_init-Ends_example = kb_init-Ends wire no_keysets quiet
