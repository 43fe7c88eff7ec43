-- ===== src/Shell/Typed.antt =====
-- src/keyboard_io.c: the characters of a typed line, which a string may hold.
use palley_os.Prelude.{
  ℕ, zero, suc, ◌+◌, ◌-◌, ◌≤◌, ◌<◌, ◌≢◌, if_lem, List, [], ◌∷◌, length, get_or, All, arith,
}
use palley_os.Keyboard.{MappedKey, scancode_set1, uppercase_scancode_set1}
use palley_os.Keyboard.Cells.{insert_at, remove_at, length-insert_at}
use palley_os.Keyboard.Line.{character_of}
use palley_os.Keyboard.Editing.{Line, edited}
use palley_os.Keyboard.Reading.{edited_by, IsPlain}
use palley_os.Kprintf.Shown.{IsCharacter}

get_or-lt : (xs : List ℕ) (i : ℕ) → All (λ c. c < 256) xs → get_or xs i 63 < 256
get_or-lt [] i h = omega arith
get_or-lt (x ∷ xs) zero h = h.0
get_or-lt (x ∷ xs) (suc i) h = get_or-lt xs i h.1

character_of-lt : (key : MappedKey) → character_of key < 256
character_of-lt key =
    if_lem (λ c. c < 256) key.capitalized
      (λ _. get_or-lt uppercase_scancode_set1 key.scancode (omega arith))
      (λ _. get_or-lt scancode_set1 key.scancode (omega arith))

insert_at-All :
    (i r : ℕ) (xs : List ℕ)
    → IsCharacter r
    → All IsCharacter xs
    → All IsCharacter (insert_at i r xs)
insert_at-All zero r xs hr h = (hr, h)
insert_at-All (suc i) r [] hr h = (hr, tt)
insert_at-All (suc i) r (x ∷ xs) hr h = (h.0, insert_at-All i r xs hr h.1)

remove_at-All : (i : ℕ) (xs : List ℕ) → All IsCharacter xs → All IsCharacter (remove_at i xs)
remove_at-All i [] h = tt
remove_at-All zero (x ∷ xs) h = h.1
remove_at-All (suc i) (x ∷ xs) h = (h.0, remove_at-All i xs h.1)

edited-All :
    (key : MappedKey) (l : Line)
    → character_of key ≢ 0
    → All IsCharacter l.text
    → All IsCharacter (edited key l).text
edited-All key l nul h = ground (
  arith,
  insert_at-All l.at (character_of key) l.text (nul, character_of-lt key) h,
  remove_at-All (l.at - 1) l.text h,
)

remove_at-le : (i : ℕ) (xs : List ℕ) → length (remove_at i xs) ≤ length xs
remove_at-le i [] = omega arith
remove_at-le zero (x ∷ xs) = omega arith
remove_at-le (suc i) (x ∷ xs) = omega (arith, remove_at-le i xs)

edited-le : (key : MappedKey) (l : Line) → length (edited key l).text ≤ length l.text + 1
edited-le key l =
    ground (arith, length-insert_at l.at (character_of key) l.text, remove_at-le (l.at - 1) l.text)

-- A line typed with plain keys is a string of no more characters than keys.
pub edited_by-All :
    (keys : List MappedKey) (l : Line)
    → All IsPlain keys
    → All IsCharacter l.text
    → (All IsCharacter (edited_by keys l).text)
      × (length (edited_by keys l).text ≤ length l.text + length keys)
edited_by-All [] l plain h = (h, omega arith)
edited_by-All (key ∷ keys) l plain h =
    let (all, short) = edited_by-All keys (edited key l) plain.1 (edited-All key l plain.0.0 h) in
    (all, omega (arith, edited-le key l))
