-- ===== src/Keyboard.antt =====
-- src/keyboard_io.c: the queue of scan codes between the interrupt handler and the readers, the
-- tables of scan codes, and the step that turns a scan code into a key. A read behind the end of a
-- table has no result. The commands to the controller are in Keyboard.Controller.
pub mod Queue
pub mod Line
pub mod Cells
pub mod Editing
pub mod Frame
pub mod Reading
pub mod Controller
pub mod SelfTests
pub mod Answers
pub mod Keysets
mod Tests
use Prim.Native.Nat.{bit_and, bit_xor}
use palley_os.Prelude.{
  ℕ, zero, suc, ◌+◌, ◌-◌, ◌%◌, ◌^◌, Bool, true, false, not, ◌&&◌, ◌||◌, Option, none, some, List,
  [], ◌∷◌, ◌==◌, ltb, if◌then◌else◌, get_elem?, get_or, set,
}
use palley_os.Prelude.Bits.{is_clear}

abbrev pub queue_size : ℕ
queue_size = 256

abbrev pub key_l_shift : ℕ
key_l_shift = 0x80

abbrev pub key_r_shift : ℕ
key_r_shift = 0x8B

abbrev pub key_caps : ℕ
key_caps = 0x60

-- The tables hold the characters' codes; 63 is the question mark of a key without a character.
abbrev pub scancode_set1 : List ℕ
scancode_set1 =
    63 ∷ 63 ∷ 49 ∷ 50 ∷ 51 ∷ 52 ∷ 53 ∷ 54 ∷ 55 ∷ 56 ∷ 57 ∷ 48 ∷ 45 ∷ 61 ∷ 63 ∷ 63 ∷ 113 ∷ 119 ∷ 101
    ∷ 114 ∷ 116 ∷ 121 ∷ 117 ∷ 105 ∷ 111 ∷ 112 ∷ 91 ∷ 93 ∷ 63 ∷ 63 ∷ 97 ∷ 115 ∷ 100 ∷ 102 ∷ 103 ∷ 104
    ∷ 106 ∷ 107 ∷ 108 ∷ 59 ∷ 39 ∷ 96 ∷ 63 ∷ 92 ∷ 122 ∷ 120 ∷ 99 ∷ 118 ∷ 98 ∷ 110 ∷ 109 ∷ 44 ∷ 46
    ∷ 47 ∷ 63 ∷ 42 ∷ 63 ∷ 32 ∷ 63 ∷ 63 ∷ 63 ∷ 63 ∷ 63 ∷ 63 ∷ 63 ∷ 63 ∷ 63 ∷ 63 ∷ 63 ∷ 63 ∷ 63 ∷ 55
    ∷ 56 ∷ 57 ∷ 45 ∷ 52 ∷ 53 ∷ 54 ∷ 43 ∷ 49 ∷ 50 ∷ 51 ∷ 48 ∷ 46 ∷ 63 ∷ 63 ∷ 63 ∷ 63 ∷ 63 ∷ 63 ∷ []

abbrev pub uppercase_scancode_set1 : List ℕ
uppercase_scancode_set1 =
    63 ∷ 63 ∷ 33 ∷ 64 ∷ 35 ∷ 36 ∷ 37 ∷ 94 ∷ 38 ∷ 42 ∷ 40 ∷ 41 ∷ 95 ∷ 43 ∷ 32 ∷ 32 ∷ 81 ∷ 87 ∷ 69
    ∷ 82 ∷ 84 ∷ 89 ∷ 85 ∷ 73 ∷ 79 ∷ 80 ∷ 123 ∷ 125 ∷ 63 ∷ 63 ∷ 65 ∷ 83 ∷ 68 ∷ 70 ∷ 71 ∷ 72 ∷ 74 ∷ 75
    ∷ 76 ∷ 59 ∷ 34 ∷ 126 ∷ 63 ∷ 124 ∷ 90 ∷ 88 ∷ 67 ∷ 86 ∷ 66 ∷ 78 ∷ 77 ∷ 60 ∷ 62 ∷ 63 ∷ 63 ∷ 42 ∷ 63
    ∷ 32 ∷ 63 ∷ 63 ∷ 63 ∷ 63 ∷ 63 ∷ 63 ∷ 63 ∷ 63 ∷ 63 ∷ 63 ∷ 63 ∷ 63 ∷ 63 ∷ 55 ∷ 56 ∷ 57 ∷ 45 ∷ 52
    ∷ 53 ∷ 54 ∷ 43 ∷ 49 ∷ 50 ∷ 51 ∷ 48 ∷ 46 ∷ 63 ∷ 63 ∷ 63 ∷ 63 ∷ 63 ∷ []

abbrev pub scancode_set1_to_mapped : List ℕ
scancode_set1_to_mapped =
    255 ∷ 0 ∷ 33 ∷ 34 ∷ 35 ∷ 36 ∷ 37 ∷ 38 ∷ 39 ∷ 40 ∷ 41 ∷ 42 ∷ 43 ∷ 44 ∷ 45 ∷ 64 ∷ 65 ∷ 66 ∷ 67
    ∷ 68 ∷ 69 ∷ 70 ∷ 71 ∷ 72 ∷ 73 ∷ 74 ∷ 75 ∷ 76 ∷ 108 ∷ 160 ∷ 97 ∷ 98 ∷ 99 ∷ 100 ∷ 101 ∷ 102 ∷ 103
    ∷ 104 ∷ 105 ∷ 106 ∷ 107 ∷ 32 ∷ 128 ∷ 77 ∷ 129 ∷ 130 ∷ 131 ∷ 132 ∷ 133 ∷ 134 ∷ 135 ∷ 136 ∷ 137
    ∷ 138 ∷ 139 ∷ 51 ∷ 162 ∷ 163 ∷ 96 ∷ 1 ∷ 2 ∷ 3 ∷ 4 ∷ 5 ∷ 6 ∷ 7 ∷ 8 ∷ 9 ∷ 10 ∷ 49 ∷ 14 ∷ 81 ∷ 82
    ∷ 83 ∷ 52 ∷ 109 ∷ 110 ∷ 111 ∷ 140 ∷ 141 ∷ 142 ∷ 107 ∷ 108 ∷ 255 ∷ 255 ∷ 255 ∷ 11 ∷ 12 ∷ []

abbrev pub set1_to_mapped : ℕ → Option ℕ
set1_to_mapped scancode1 = get_elem? scancode_set1_to_mapped scancode1

-- The bytes of special_keys_to_mapped, whose size is 0x78, by their offsets.
unfoldable pub special_to_mapped : ℕ → Option ℕ
special_to_mapped scancode1 =
    if scancode1 == 0x35
    then some 0x32
    else if scancode1 == 0x38
    then some 0xa4
    else if scancode1 == 0x47
    then some 0x2f
    else if scancode1 == 0x48
    then some 0x8c
    else if scancode1 == 0x49
    then some 0x30
    else if scancode1 == 0x4b
    then some 0xa8
    else if scancode1 == 0x4d
    then some 0xaa
    else if scancode1 == 0x4f
    then some 0x4f
    else if scancode1 == 0x50
    then some 0xa9
    else if scancode1 == 0x51
    then some 0x50
    else if scancode1 == 0x52
    then some 0x2e
    else if scancode1 == 0x53
    then some 0x4e
    else if ltb scancode1 0x78
    then some 0
    else none

pub record MappedKey : Type 0 where
  pub mapped_code : ℕ
  pub scancode : ℕ
  pub e0_key : Bool
  pub printable : Bool
  pub down_stroke : Bool
  pub capitalized : Bool

-- The static variables; both indices are a uint8_t. keyboard_state stays normal.
pub record Keyboard : Type 0 where
  pub key_states : List Bool
  pub scancode_queue : List ℕ
  pub queue_widx : ℕ
  pub queue_ridx : ℕ

-- The byte that is read from the port is given.
unfoldable pub keyboard_interrupt_handler : ℕ → Keyboard → Keyboard
keyboard_interrupt_handler scan_code s = record s {
  scancode_queue = set s.scancode_queue s.queue_widx scan_code;
  queue_widx = (s.queue_widx + 1) % queue_size;
}

unfoldable pub kb_has_new_input : Keyboard → Bool
kb_has_new_input s = not (s.queue_ridx == s.queue_widx)

-- `scancode_queue[queue_ridx++]`
unfoldable pub next_code : Keyboard → ℕ × Keyboard
next_code s = (
  get_or s.scancode_queue s.queue_ridx 0,
  record s { queue_ridx = (s.queue_ridx + 1) % queue_size },
)

-- `(curr_code & (1 << 7)) == 0`, and the code of the press.
abbrev pub being_pressed : ℕ → Bool
being_pressed curr_code = is_clear curr_code 7

abbrev pub pressed_code : ℕ → ℕ
pressed_code curr_code = if being_pressed curr_code then curr_code else bit_xor curr_code (2 ^ 7)

abbrev pub set_key : ℕ → Bool → Keyboard → Keyboard
set_key mapped_code down s = record s { key_states = set s.key_states mapped_code down }

unfoldable pub handle_e0_key : Keyboard → Option (MappedKey × Keyboard)
unfolding next_code special_to_mapped
handle_e0_key s =
    let (code, s') = next_code s in
    let curr_code = pressed_code code in
    elim (special_to_mapped curr_code) [
      | none ↦ none
      | some mapped_code ↦ some (
        record {
          mapped_code = mapped_code;
          e0_key = true;
          printable = false;
          down_stroke = being_pressed code;
          scancode = curr_code;
          capitalized = false;
        },
        set_key mapped_code (being_pressed code) s',
      )
    ]

unfoldable pub handle_unknown_key : ℕ → ℕ → Bool → Keyboard → MappedKey × Keyboard
handle_unknown_key scancode mapped_code down s =
    let key : MappedKey = record {
      mapped_code = mapped_code;
      printable = false;
      down_stroke = down;
      scancode = scancode;
      e0_key = false;
      capitalized = false;
    } in
    if not (mapped_code == key_caps)
    then (key, set_key mapped_code down s)
    else if down
    then (key, set_key key_caps (not (get_or s.key_states key_caps false)) s)
    else (key, s)

-- A key with a character.
unfoldable pub handle_character : ℕ → ℕ → Bool → Keyboard → MappedKey × Keyboard
handle_character scancode mapped_code down s =
    let s' = set_key mapped_code down s in
    let shifted =
      get_or s'.key_states key_l_shift false
      || get_or s'.key_states key_r_shift false
      || get_or s'.key_states key_caps false in
    (
      record {
        mapped_code = mapped_code;
        printable = true;
        down_stroke = down;
        scancode = scancode;
        e0_key = false;
        capitalized = down && shifted;
      },
      s',
    )

-- The step of kbNextMappedKey once the queue has a code; with an empty queue it waits.
unfoldable pub kb_next_mapped_key : Keyboard → Option (MappedKey × Keyboard)
unfolding next_code handle_e0_key handle_unknown_key handle_character
kb_next_mapped_key s =
    let (code, s') = next_code s in
    let curr_code = pressed_code code in
    let known : Option (MappedKey × Keyboard) = elim (set1_to_mapped curr_code) [
      | none ↦ none
      | some mapped_code ↦ elim (get_elem? scancode_set1 curr_code) [
        | none ↦ none
        | some character ↦ some (
            if character == 63
            then handle_unknown_key curr_code mapped_code (being_pressed code) s'
            else handle_character curr_code mapped_code (being_pressed code) s')
      ]
    ] in
    if code == 0xE0 then handle_e0_key s' else known

-- The loops of kbGetChar and of kbNextMappedKey, over the codes that are in the queue: the first
-- character that is pressed. `none` is a wait for more codes, or a read outside the tables.
unfoldable pub get_char_loop : ℕ → Keyboard → Option (ℕ × Keyboard)
unfolding kb_has_new_input kb_next_mapped_key
get_char_loop zero s = none
get_char_loop (suc fuel) s =
    if kb_has_new_input s
    then elim (kb_next_mapped_key s) [
      | none ↦ none
      | some (key, s') ↦
          let rest = get_char_loop fuel s' in
          let character =
            if key.capitalized
            then get_or uppercase_scancode_set1 key.scancode 63
            else get_or scancode_set1 key.scancode 63 in
          if not key.printable || not key.down_stroke then rest else some (character, s')
    ]
    else none

-- kbGetChar on an initialised keyboard: the queue holds fewer than 256 codes.
unfoldable pub kb_get_char : Keyboard → Option (ℕ × Keyboard)
unfolding get_char_loop
kb_get_char s = get_char_loop queue_size s
