-- ===== src/Keyboard/Frame.antt =====
-- src/keyboard_io.c: the memory that the keys of the line editor leave alone.
use palley_os.Prelude.{
  ℕ, ◌+◌, ◌-◌, ◌<◌, ◌==◌, if_lem, length, ◌≡◌, refl, ◌⊎◌, arith, inl, inr, Bool-cases,
}
use palley_os.Ports.{Ports}
use palley_os.Console.Edit.{move_left_loop-at, move_right_loop-at}
use palley_os.Keyboard.{MappedKey}
use palley_os.Keyboard.Line.{
  Editor, type_character, type_backspace, type_left, type_right, type_key, character_of,
}
use palley_os.Keyboard.Editing.{Line, Edits}

-- An address outside of the characters that a text of a length and one character more take, with
-- their NUL.
abbrev pub Outside : ℕ → ℕ → ℕ → Type 0
Outside buffer size a = (a < buffer) ⊎ (buffer + size + 1 < a)

module _ (v : Ports) (buffer : ℕ) where
  type_character-kept :
      (ret : ℕ) (l : Line) (e : Editor v) (a : ℕ)
      → Edits buffer l e
      → Outside buffer (length l.text) a
      → (type_character v buffer ret e).mem a ≡ e.mem a
  unfolding type_character
  type_character-kept ret l e a r out =
      let moved = move_right_loop-at (e.size - e.index) (buffer + e.index) e.mem a in
      elim (Bool-cases (e.index == e.size - 1)) [
        | inl end ↦ rw end (ground (arith, r.index_of, r.size_of, r.place))
        | inr inside ↦ rw inside (ground (arith, moved, r.index_of, r.size_of, r.place))
      ]

  type_backspace-kept :
      (l : Line) (e : Editor v) (a : ℕ)
      → Edits buffer l e
      → Outside buffer (length l.text) a
      → (type_backspace v buffer e).mem a ≡ e.mem a
  unfolding type_backspace
  type_backspace-kept l e a r out =
      let moved = move_left_loop-at (e.size - 1 - (e.index - 1)) (buffer + (e.index - 1)) e.mem a in
      elim (Bool-cases (e.index == 0)) [
        | inl start ↦ rw start refl
        | inr inside ↦ elim (Bool-cases (e.index == e.size - 1)) [
          | inl end ↦ rw (inside, end) (ground (arith, r.index_of, r.size_of, r.place))
          | inr middle ↦ rw (inside, middle) (ground (arith, moved, r.index_of, r.size_of, r.place))
        ]
      ]

  pub type_key-kept :
      (key : MappedKey) (l : Line) (e : Editor v) (a : ℕ)
      → Edits buffer l e
      → Outside buffer (length l.text) a
      → (type_key v buffer key e).mem a ≡ e.mem a
  unfolding type_key type_left type_right
  type_key-kept key l e a r out =
      let Kept : Editor v → Type 0 = λ e'. e'.mem a ≡ e.mem a in
      if_lem Kept key.printable (λ _. type_character-kept (character_of key) l e a r out)
        (λ _. ground (arith, type_backspace-kept l e a r out))
