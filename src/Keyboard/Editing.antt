-- ===== src/Keyboard/Editing.antt =====
-- src/keyboard_io.c: what the line editor makes of the keys, against a text and a place in it.
use palley_os.Prelude.{
  ℕ, ◌+◌, ◌-◌, ◌≤◌, ◌<◌, Bool, true, false, ◌==◌, ltb, leb, if◌then◌else◌, get_or, List, length,
  ◌≡◌, ◌≢◌, sym, ◌∙◌, arith, min, inl, inr, Bool-cases,
}
use palley_os.Ports.{Ports}
use palley_os.Vga.{
  ShiftDirection, shift_direction_up, shift_direction_down, vga_color_white, create_vga_entry,
}
use palley_os.Console.{
  S, tio_try_cursor_inc, tio_try_cursor_dec, tio_write_char_color, view_shift, render_screen,
}
use palley_os.Console.Column.{
  view_shift-x, cursor_inc-x, tio_backspace-x, cursor_dec-x, place_char-x,
}
use palley_os.Console.Edit.{tio_shift_left, tio_shift_right}
use palley_os.Keyboard.{MappedKey}
use palley_os.Keyboard.Cells.{
  insert_at, remove_at, length-insert_at, length-remove_at, get_or-insert_at, get_or-remove_at,
  get_or-length, inserted, deleted,
}
use palley_os.Keyboard.Line.{
  key_arrow_left, key_arrow_right, key_arrow_up, key_arrow_down, key_backspace, Editor,
  type_character, type_backspace, type_left, type_right, type_key, character_of, show_character,
}

-- A text and the place in it where the next character goes.
pub record Line : Type 0 where
  pub text : List ℕ
  pub at : ℕ

-- The buffer spells the text with a NUL behind it, the place is in it, and the cursor stands behind
-- the prompt of two columns.
pub record Edits {v : Ports} (buffer : ℕ) (l : Line) (e : Editor v) : Type 0 where
  pub size_of : e.size ≡ length l.text + 1
  pub index_of : e.index ≡ l.at
  pub place : l.at ≤ length l.text
  pub spells : (i : ℕ) → i ≤ length l.text → e.mem (buffer + i) ≡ get_or l.text i 0
  pub column : e.console.x ≡ l.at + 2

-- What a pressed key does to the text: a character goes in at the place, a backspace takes out the
-- one in front of it, and the arrows move inside the text.
abbrev pub edited : MappedKey → Line → Line
edited key l =
    if key.printable
    then record { text = insert_at l.at (character_of key) l.text; at = l.at + 1 }
    else if key.mapped_code == key_arrow_left
    then record l { at = l.at - 1 }
    else if key.mapped_code == key_arrow_right
    then record l { at = min (l.at + 1) (length l.text) }
    else if key.mapped_code == key_arrow_up
    then l
    else if key.mapped_code == key_arrow_down
    then l
    else if key.mapped_code == key_backspace
    then (if l.at == 0 then l else record { text = remove_at (l.at - 1) l.text; at = l.at - 1 })
    else l

module _ (v : Ports) (buffer : ℕ) where
  show_character-x :
      (ret : ℕ) (c : S v)
      → ret ≢ 0
      → ret ≢ 10
      → ret ≢ 13
      → c.x + 1 < 80
      → (show_character v buffer ret c).x ≡ c.x + 1
  unfolding tio_write_char_color
  show_character-x ret c nul feed back h =
      ground (arith, place_char-x v (create_vga_entry ret vga_color_white) c h)

  type_character-Edits :
      (ret : ℕ) (l : Line) (e : Editor v)
      → Edits buffer l e
      → ret ≢ 0
      → ret ≢ 10
      → ret ≢ 13
      → l.at + 3 < 80
      → Edits buffer
          (record { text = insert_at l.at ret l.text; at = l.at + 1 })
          (type_character v buffer ret e)
  unfolding type_character tio_shift_right render_screen
  type_character-Edits ret l e r nul feed back short =
      let text' = insert_at l.at ret l.text in
      let n = length l.text in
      let last : n + 1 - 1 ≡ n = omega arith in
      record {
        size_of = omega (arith, r.size_of, length-insert_at l.at ret l.text);
        index_of = omega (arith, r.index_of);
        place = omega (arith, r.place, length-insert_at l.at ret l.text);
        spells = λ i h.
            rw (r.size_of, r.index_of, last)
              (inserted e.mem buffer l.at n ret i (λ k. get_or l.text k 0) r.spells
                (get_or-length l.text) r.place (omega (arith, length-insert_at l.at ret l.text)))
            ∙ sym (get_or-insert_at l.at ret l.text i r.place);
        column =
            let c = if e.index == e.size - 1 then e.console else tio_shift_right e.console in
            let same : c.x ≡ e.console.x = ground arith in
            show_character-x ret c nul feed back (omega (arith, r.column))
            ∙ omega (arith, r.column);
      }

  type_backspace-Edits :
      (l : Line) (e : Editor v)
      → Edits buffer l e
      → Edits buffer
          (if l.at == 0 then l else record { text = remove_at (l.at - 1) l.text; at = l.at - 1 })
          (type_backspace v buffer e)
  unfolding type_backspace tio_shift_left render_screen
  type_backspace-Edits l e r = elim (Bool-cases (l.at == 0)) [
    | inl start ↦
        let stays : (e.index == 0) ≡ true = ground (arith, r.index_of) in rw (start, stays) r
    | inr inside ↦
        let n = length l.text in
        let moves : (e.index == 0) ≡ false = ground (arith, r.index_of) in
        let shorter : n + 1 - 1 ≡ n = omega arith in
        let some_left : ltb n 1 ≡ false = ground (arith, r.place) in
        let removed = length-remove_at (l.at - 1) l.text (ground (arith, r.place)) in
        rw (inside, moves)
          (record {
            size_of = ground (arith, r.size_of, removed);
            index_of = ground (arith, r.index_of);
            place = ground (arith, r.place, removed);
            spells = λ i h.
                rw (r.size_of, r.index_of, shorter, some_left)
                  (deleted e.mem buffer l.at n i (λ k. get_or l.text k 0) r.spells
                    (get_or-length l.text) (ground arith) r.place (omega (arith, removed)))
                ∙ sym (get_or-remove_at (l.at - 1) l.text i (ground (arith, r.place)));
            column =
                tio_backspace-x v (tio_shift_left e.console) (omega (arith, r.column))
                ∙ ground (arith, r.column);
          })
  ]

  type_left-Edits :
      (l : Line) (e : Editor v)
      → Edits buffer l e
      → Edits buffer (record l { at = l.at - 1 }) (type_left v buffer e)
  unfolding type_left tio_try_cursor_dec
  type_left-Edits l e r = elim (Bool-cases (l.at == 0)) [
    | inl start ↦
        let stays : leb e.console.x 2 ≡ true = ground (arith, r.column) in
        rw stays (record {
          size_of = r.size_of;
          index_of = ground (arith, r.index_of);
          place = ground (arith, r.place);
          spells = r.spells;
          column = ground (arith, r.column);
        })
    | inr inside ↦
        let moves : leb e.console.x 2 ≡ false = ground (arith, r.column) in
        rw moves (record {
          size_of = r.size_of;
          index_of = ground (arith, r.index_of);
          place = omega (arith, r.place);
          spells = r.spells;
          column = cursor_dec-x v e.console (omega (arith, r.column)) ∙ ground (arith, r.column);
        })
  ]

  type_right-Edits :
      (l : Line) (e : Editor v)
      → Edits buffer l e
      → l.at + 3 < 80
      → Edits buffer (record l { at = min (l.at + 1) (length l.text) }) (type_right v buffer e)
  unfolding type_right tio_try_cursor_inc
  type_right-Edits l e r short = elim (Bool-cases (ltb l.at (length l.text))) [
    | inl inside ↦
        let moves : ltb e.console.x (2 + e.size - 1) ≡ true = ground (arith, r.column, r.size_of) in
        let kept : ltb (e.size - 1) (e.index + 1) ≡ false = ground (arith, r.index_of, r.size_of) in
        rw (moves, kept)
          (record {
            size_of = r.size_of;
            index_of = ground (arith, r.index_of);
            place = omega arith;
            spells = r.spells;
            column = cursor_inc-x v e.console (omega (arith, r.column)) ∙ ground (arith, r.column);
          })
    | inr end ↦
        let stays : ltb e.console.x (2 + e.size - 1) ≡ false =
          ground (arith, r.column, r.size_of) in
        let kept : ltb (e.size - 1) e.index ≡ false =
          ground (arith, r.index_of, r.size_of, r.place) in
        rw (stays, kept)
          (record {
            size_of = r.size_of;
            index_of = ground (arith, r.index_of, r.place);
            place = omega arith;
            spells = r.spells;
            column = ground (arith, r.column, r.place);
          })
  ]

  scrolled-Edits :
      (l : Line) (e : Editor v) (dir : ShiftDirection)
      → Edits buffer l e
      → Edits buffer l (record e { console = view_shift v dir 1 e.console })
  scrolled-Edits l e dir r = record {
    size_of = r.size_of;
    index_of = r.index_of;
    place = r.place;
    spells = r.spells;
    column = view_shift-x v dir 1 e.console ∙ r.column;
  }

  -- A key that is pressed while the cursor stands in the first 77 columns, and is no NUL, line feed or
  -- carriage return, changes the buffer, the place and the cursor's column as it changes the text.
  pub type_key-Edits :
      (key : MappedKey) (l : Line) (e : Editor v)
      → Edits buffer l e
      → character_of key ≢ 0
      → character_of key ≢ 10
      → character_of key ≢ 13
      → l.at + 3 < 80
      → Edits buffer (edited key l) (type_key v buffer key e)
  unfolding type_key
  type_key-Edits key l e r nul feed back short =
      chosen key.printable (key.mapped_code == key_arrow_left) (key.mapped_code == key_arrow_right)
        (key.mapped_code == key_arrow_up) (key.mapped_code == key_arrow_down)
        (key.mapped_code == key_backspace)
    where
      chosen :
          (shown left right up down erase : Bool)
          → Edits buffer
              (if shown
                then record { text = insert_at l.at (character_of key) l.text; at = l.at + 1 }
                else if left
                then record l { at = l.at - 1 }
                else if right
                then record l { at = min (l.at + 1) (length l.text) }
                else if up
                then l
                else if down
                then l
                else if erase
                then (if l.at == 0
                    then l
                    else record { text = remove_at (l.at - 1) l.text; at = l.at - 1 })
                else l)
              (if shown
                then type_character v buffer (character_of key) e
                else if left
                then type_left v buffer e
                else if right
                then type_right v buffer e
                else if up
                then record e { console = view_shift v shift_direction_down 1 e.console }
                else if down
                then record e { console = view_shift v shift_direction_up 1 e.console }
                else if erase
                then type_backspace v buffer e
                else e)
      chosen true left right up down erase =
          type_character-Edits (character_of key) l e r nul feed back short
      chosen false true right up down erase = type_left-Edits l e r
      chosen false false true up down erase = type_right-Edits l e r short
      chosen false false false true down erase = scrolled-Edits l e shift_direction_down r
      chosen false false false false true erase = scrolled-Edits l e shift_direction_up r
      chosen false false false false false true = type_backspace-Edits l e r
      chosen false false false false false false = r
