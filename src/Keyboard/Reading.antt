-- ===== src/Keyboard/Reading.antt =====
-- src/keyboard_io.c: kbGetLine over the keys that the queue holds, up to the press of Enter.
use palley_os.Prelude.{
  ℕ, zero, suc, ◌+◌, ◌≤◌, ◌<◌, Bool, true, false, ◌&&◌, Option, some, ◌==◌, if◌then◌else◌, List, [],
  ◌∷◌, length, All, ◌≡◌, ◌≢◌, refl, ap, ◌∙◌, arith, ◌-◌, inl, inr,
}
use palley_os.Prelude.Memory.{Mem}
use palley_os.Ports.{Ports}
use palley_os.Console.{S}
use palley_os.Keyboard.{Keyboard, MappedKey, kb_has_new_input, kb_next_mapped_key}
use palley_os.Keyboard.Line.{Editor, character_of, type_key, get_line_loop, kb_get_line, key_enter}
use palley_os.Keyboard.Cells.{length-insert_at, length-remove_at}
use palley_os.Keyboard.Editing.{Line, Edits, edited, type_key-Edits}
use palley_os.Keyboard.Frame.{Outside, type_key-kept}

-- The keyboard gives the presses of the keys, the last of which is Enter, in that many codes.
pub data Reads : ℕ → Keyboard → List MappedKey → Keyboard → Type 0 where
  enter :
      {s s' : Keyboard} {key : MappedKey}
      → kb_has_new_input s ≡ true
      → kb_next_mapped_key s ≡ some (key, s')
      → key.down_stroke ≡ true
      → (key.mapped_code == key_enter) ≡ true
      → Reads 1 s (key ∷ []) s'
  press :
      {n : ℕ} {s s' s'' : Keyboard} {key : MappedKey} {keys : List MappedKey}
      → kb_has_new_input s ≡ true
      → kb_next_mapped_key s ≡ some (key, s')
      → key.down_stroke ≡ true
      → (key.mapped_code == key_enter) ≡ false
      → Reads n s' keys s''
      → Reads (suc n) s (key ∷ keys) s''
  release :
      {n : ℕ} {s s' s'' : Keyboard} {key : MappedKey} {keys : List MappedKey}
      → kb_has_new_input s ≡ true
      → kb_next_mapped_key s ≡ some (key, s')
      → key.down_stroke ≡ false
      → Reads n s' keys s''
      → Reads (suc n) s keys s''

abbrev pub edited_by : List MappedKey → Line → Line
edited_by [] l = l
edited_by (key ∷ keys) l = edited_by keys (edited key l)

-- A key whose character is shown as it is.
abbrev pub IsPlain : MappedKey → Type 0
IsPlain key = (character_of key ≢ 0) × (character_of key ≢ 10) × (character_of key ≢ 13)

edited-at : (key : MappedKey) (l : Line) → (edited key l).at ≤ l.at + 1
edited-at key l = ground arith

edited-length :
    (key : MappedKey) (l : Line)
    → l.at ≤ length l.text
    → length (edited key l).text ≤ length l.text + 1
edited-length key l h =
    ground
      (arith, length-insert_at l.at (character_of key) l.text, length-remove_at (l.at - 1) l.text)

Outside-narrow : (buffer n k a : ℕ) → n ≤ k → Outside buffer k a → Outside buffer n a
Outside-narrow buffer n k a h (inl below) = inl below
Outside-narrow buffer n k a h (inr above) = inr (omega arith)

module _ (v : Ports) (buffer : ℕ) where
  -- What the loop goes on with behind a key, by its stroke and by whether it is Enter.
  abbrev after : Bool → Bool → ℕ → Keyboard → MappedKey → Editor v → Option (Editor v × Keyboard)
  after down is_enter fuel s key e =
      let e' = if down then type_key v buffer key e else e in
      if down && is_enter then some (e', s) else get_line_loop v buffer fuel s e'

  get_line_loop-after :
      (fuel : ℕ) (s s' : Keyboard) (key : MappedKey) (e : Editor v)
      → kb_has_new_input s ≡ true
      → kb_next_mapped_key s ≡ some (key, s')
      → get_line_loop v buffer (suc fuel) s e
        ≡ after key.down_stroke (key.mapped_code == key_enter) fuel s' key e
  unfolding get_line_loop
  get_line_loop-after fuel s s' key e has next = rw (has, next) refl

  get_line_loop-Edits :
      {n fuel : ℕ} {s s' : Keyboard} {keys : List MappedKey} (limit : ℕ) (l : Line) (e : Editor v)
      → Reads n s keys s'
      → n ≤ fuel
      → Edits buffer l e
      → All IsPlain keys
      → l.at + length keys + 2 < 80
      → length l.text + length keys ≤ limit
      → (e' : Editor v) × (get_line_loop v buffer fuel s e ≡ some (e', s'))
        × Edits buffer (edited_by keys l) e'
        × ((a : ℕ) → Outside buffer limit a → e'.mem a ≡ e.mem a)
  get_line_loop-Edits {fuel = zero} limit l e (enter has next down is_enter) enough r plain short
        room =
      absurd (omega arith)
  get_line_loop-Edits {fuel = zero} limit l e (press has next down not_enter more) enough r plain
        short room =
      absurd (omega arith)
  get_line_loop-Edits {fuel = zero} limit l e (release has next up more) enough r plain short room =
      absurd (omega arith)
  get_line_loop-Edits {fuel = suc fuel} limit l e
        (enter {s' = t} {key = key} has next down is_enter) enough r plain short room =
      let r' = type_key-Edits v buffer key l e r plain.0.0 plain.0.1 plain.0.2 (omega arith) in
      (
        type_key v buffer key e,
        get_line_loop-after fuel _ t key e has next
            ∙ ap (λ b. after b (key.mapped_code == key_enter) fuel t key e) down
            ∙ ap (λ b. after true b fuel t key e) is_enter,
        r',
        λ a out.
            type_key-kept v buffer key l e a r (Outside-narrow buffer _ limit a (omega arith) out),
      )
  get_line_loop-Edits {fuel = suc fuel} limit l e
        (press {s' = t} {key = key} has next down not_enter more) enough r plain short room =
      let r' = type_key-Edits v buffer key l e r plain.0.0 plain.0.1 plain.0.2 (omega arith) in
      let (e', same, r'', kept) =
        get_line_loop-Edits {fuel = fuel} limit (edited key l) (type_key v buffer key e) more
          (omega arith) r' plain.1 (omega (arith, edited-at key l))
          (omega (arith, edited-length key l r.place)) in
      (
        e',
        get_line_loop-after fuel _ t key e has next
            ∙ ap (λ b. after b (key.mapped_code == key_enter) fuel t key e) down
            ∙ ap (λ b. after true b fuel t key e) not_enter
            ∙ same,
        r'',
        λ a out.
            kept a out
            ∙ type_key-kept v buffer key l e a r
                (Outside-narrow buffer _ limit a (omega arith) out),
      )
  get_line_loop-Edits {fuel = suc fuel} limit l e (release {s' = t} {key = key} has next up more)
        enough r plain short room =
      let (e', same, r', kept) =
        get_line_loop-Edits {fuel = fuel} limit l e more (omega arith) r plain short room in
      (
        e',
        get_line_loop-after fuel _ t key e has next
            ∙ ap (λ b. after b (key.mapped_code == key_enter) fuel t key e) up
            ∙ same,
        r',
        kept,
      )

  -- Keys that are typed at an empty line behind the prompt, with a NUL in the buffer, at most 77 of
  -- them with characters that are shown as they are, make kbGetLine return with the line that they
  -- spell in the buffer, with a NUL behind it, and with the cursor at the place in it; no byte
  -- changes in front of the buffer or behind its first two bytes and one for each key.
  pub kb_get_line-Edits :
      (n fuel : ℕ) (s s' : Keyboard) (keys : List MappedKey) (m : Mem) (c : S v)
      → Reads n s keys s'
      → n ≤ fuel
      → m buffer ≡ 0
      → c.x ≡ 2
      → All IsPlain keys
      → length keys < 78
      → (e : Editor v) × (kb_get_line v buffer fuel s m c ≡ some (e, s'))
        × Edits buffer (edited_by keys (record { text = []; at = 0 })) e
        × ((a : ℕ) → Outside buffer (length keys) a → e.mem a ≡ m a)
  unfolding kb_get_line
  kb_get_line-Edits n fuel s s' keys m c reads enough nul prompt plain short =
      get_line_loop-Edits (length keys) (record { text = []; at = 0 })
        (record { mem = m; index = 0; size = 1; console = c }) reads enough
        (record {
          size_of = refl;
          index_of = refl;
          place = omega arith;
          spells = λ i h. let here : buffer + i ≡ buffer = omega arith in ap m here ∙ nul;
          column = prompt;
        })
        plain (omega arith) (omega arith)
