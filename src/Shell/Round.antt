-- ===== src/Shell/Round.antt =====
-- src/kshell.c: a round of the shell.
use palley_os.Prelude.{
  ℕ, zero, suc, ◌+◌, ◌/◌, ◌%◌, ◌≤◌, ◌<◌, ◌≡◌, refl, ap, ◌∙◌, ◌⊎◌, inl, inr, some, List, [], ◌∷◌,
  ◌++◌, length, length-append, All, arith, false, ◌==◌,
}
use mathlib.Core.Path.{subst}
use palley_os.Prelude.Memory.{Mem, CStr, CStr-agree}
use palley_os.Ports.{Ports}
use palley_os.Kstdlib.{kmemset}
use palley_os.Kstdlib.Fill.{kmemset_lem}
use palley_os.Kstdio.Format.{plain, convert_to, text}
use palley_os.Kstdio.Format.Run.{Printed, kvsprintf-Printed}
use palley_os.Vga.{VgaColor, vga_color_white}
use palley_os.Console.{S, tio_write_color, tio_write_char_color}
use palley_os.Console.View.{Text, Refines}
use palley_os.Console.Text.{write}
use palley_os.Keyboard.{Keyboard, MappedKey}
use palley_os.Keyboard.Line.{Editor, kb_get_line}
use palley_os.Keyboard.Cells.{get_or-length}
use palley_os.Keyboard.Editing.{Line, Edits}
use palley_os.Keyboard.Frame.{Outside}
use palley_os.Keyboard.Reading.{Reads, edited_by, IsPlain, kb_get_line-Edits}
use palley_os.Kprintf.{kprintf}
use palley_os.Kprintf.Shown.{IsCharacter, All-append, CStr-All, kprintf-both, kprintf-Refines}
use palley_os.Shell.{line_size, shell_read, shell_round}
use palley_os.Shell.Typed.{edited_by-All}

-- `n` bytes at `p` and `k` bytes at `q` have none in common.
abbrev pub Apart : ℕ → ℕ → ℕ → ℕ → Type 0
Apart p n q k = (p + n ≤ q) ⊎ (q + k ≤ p)

-- "> " and "\n%s\n".
abbrev pub prompt_text : List ℕ
prompt_text = 62 ∷ 32 ∷ []

abbrev pub reply_format : List ℕ
reply_format = 10 ∷ 37 ∷ 115 ∷ 10 ∷ []

-- The line that keys spell.
abbrev pub typed : List MappedKey → Line
typed keys = edited_by keys (record { text = []; at = 0 })

abbrev pub reply_text : List ℕ → List ℕ
reply_text line = 10 ∷ (line ++ (10 ∷ []))

module _ (v : Ports) where
  -- A string is written to any terminal in its length and one round more.
  tio_write_color-ends :
      (fuel : ℕ) (m : Mem) (p : ℕ) (s : List ℕ) (vc : VgaColor) (c : S v)
      → CStr m p s
      → length s < fuel
      → (c' : S v) × (tio_write_color v fuel m p vc c ≡ some c')
  unfolding tio_write_color
  tio_write_color-ends zero m p s vc c h enough = absurd (omega arith)
  tio_write_color-ends (suc fuel) m p [] vc c h enough = (c, rw h refl)
  tio_write_color-ends (suc fuel) m p (x ∷ s) vc c (here, nonzero, _, more) enough =
      let (c', e) =
        tio_write_color-ends fuel m (p + 1) s vc (tio_write_char_color v (m p) vc c) more
          (omega arith) in
      let going : (m p == 0) ≡ false = ground (arith, nonzero) in (c', rw going e)

  module _ (result prompt reply buffer fuel : ℕ) where
    -- The prompt stands at the row's start and leaves the cursor in the third column.
    prompt-x :
        (m : Mem) (t : Text) (c : S v)
        → CStr m prompt prompt_text
        → Apart result 1024 prompt 3
        → Refines t c
        → t.at % 80 ≡ 0
        → t.at / 80 + 2 < 237
        → 5 < fuel
        → (m' : Mem) × (c' : S v) × (kprintf v result fuel m prompt [] c ≡ some (m', c'))
          × (c'.x ≡ 2)
          × ((a : ℕ) → (a < result) ⊎ (result + 1024 ≤ a) → m' a ≡ m a)
    prompt-x m t c h apart r start rows enough =
        let (u, m', c', run, (w, (w', none_left, e'), e), shown, same) =
          kprintf-Refines v m result prompt (plain 62 ∷ plain 32 ∷ []) fuel t c (omega arith)
            (omega arith, (omega arith, tt)) tt h (clear apart) r rows (omega arith) in
        let first : u ≡ prompt_text = e ∙ ap (λ s. 62 ∷ s) (e' ∙ ap (λ s. 32 ∷ s) none_left) in
        let there = subst (λ s. Refines (write s vga_color_white t) c') first shown in
        (m', c', run, omega (arith, there.laid.place, there.laid.in_line), same)
      where
        clear : Apart result 1024 prompt 3 → (prompt + 2 < result) ⊎ (result + 2 < prompt)
        clear (inl before) = inr (omega arith)
        clear (inr behind) = inl (omega arith)

    -- The memory of before the line, where neither kprintf nor kmemset writes.
    cleared-same :
        (m m' : Mem) (a : ℕ)
        → ((a : ℕ) → (a < result) ⊎ (result + 1024 ≤ a) → m' a ≡ m a)
        → (a < result) ⊎ (result + 1024 ≤ a)
        → (a < buffer) ⊎ (buffer + 512 ≤ a)
        → kmemset m' buffer 0 line_size a ≡ m a
    cleared-same m m' a same out apart = kmemset_lem m' buffer 0 512 a ∙ ground (arith, same a out)

    -- The reply, on any terminal.
    reply-ends :
        (m : Mem) (line : List ℕ) (c : S v)
        → CStr m reply reply_format
        → CStr m buffer line
        → All IsCharacter line
        → length line < 78
        → Apart result 1024 reply 5
        → Apart result 1024 buffer 512
        → 84 < fuel
        → (after : Mem) × (c' : S v) × (kprintf v result fuel m reply (buffer ∷ []) c
            ≡ some (after, c'))
          × CStr after result (reply_text line)
          × (tio_write_color v fuel after result vga_color_white c ≡ some c')
    reply-ends m line c hr hl all short ar ab big =
        let (u, after, run, (w, (u', w', same', (z, none_left, e''), e'), e), printed) =
          kvsprintf-Printed m result reply
            (plain 10 ∷ convert_to (text buffer line) ∷ plain 10 ∷ []) fuel (omega arith)
            (
              omega arith,
              ((hl, clear 512 buffer (length line) ab (omega arith)), (omega arith, tt)),
            )
            hr (clear 5 reply 4 ar (omega arith)) (omega arith) in
        let it : u ≡ reply_text line =
          e ∙ ap (λ s. 10 ∷ s) (e' ∙ rw (same', e'', none_left) refl) in
        let shown = subst (λ s. Printed m result s after) it printed in
        let stands : CStr after result (reply_text line) =
          CStr-All after result (reply_text line)
            (newline, All-append line (10 ∷ []) all (newline, tt)) shown.bytes shown.nul in
        let (c', ends) =
          tio_write_color-ends fuel after result (reply_text line) vga_color_white c stands
            (omega (arith, length-append line (10 ∷ []))) in
        (
          after,
          c',
          kprintf-both v result fuel m after reply (buffer ∷ []) c c' run ends,
          stands,
          ends,
        )
      where
        newline : IsCharacter 10
        newline = (omega arith, omega arith)

        clear :
            (size p n : ℕ)
            → Apart result 1024 p size
            → n < size
            → (p + n < result) ⊎ (result + (1 + (length line + 1)) < p)
        clear size p n (inl before) h = inr (omega arith)
        clear size p n (inr behind) h = inl (omega arith)

    beside : (p n q k a : ℕ) → Apart p n q k → q ≤ a → a < q + k → (a < p) ⊎ (p + n ≤ a)
    beside p n q k a (inl before) lo hi = inr (omega arith)
    beside p n q k a (inr behind) lo hi = inl (omega arith)

    shell_round-both :
        (k k' : Keyboard) (m m1 : Mem) (c c1 : S v) (e : Editor v) (after : Mem) (c' : S v)
        → kprintf v result fuel m prompt [] c ≡ some (m1, c1)
        → kb_get_line v buffer fuel k (kmemset m1 buffer 0 line_size) c1 ≡ some (e, k')
        → kprintf v result fuel e.mem reply (buffer ∷ []) e.console ≡ some (after, c')
        → shell_round v result prompt reply buffer fuel k m c ≡ some (after, c', k')
    unfolding shell_round shell_read
    shell_round-both k k' m m1 c c1 e after c' shown read answered = ground arith

    shell_read-both :
        (k k' : Keyboard) (m m1 : Mem) (c c1 : S v) (e : Editor v)
        → kprintf v result fuel m prompt [] c ≡ some (m1, c1)
        → kb_get_line v buffer fuel k (kmemset m1 buffer 0 line_size) c1 ≡ some (e, k')
        → shell_read v result prompt reply buffer fuel k m c ≡ some (e, k')
    unfolding shell_read
    shell_read-both k k' m m1 c c1 e shown read = ground arith

    -- A round of the shell: with the prompt's and the reply's strings in memory, apart from the two
    -- arrays, the arrays apart from one another, a terminal whose text stands at the start of one of
    -- the first 235 rows, the presses of at most 77 plain keys to come, and fuel for them and above 84,
    -- the prompt and the line
    -- are read by shell_read, which leaves the line that the keys spell in the buffer; the round ends
    -- with the string of the line between two line feeds in the array of kprintf, and with what
    -- writing that string to the terminal of shell_read leaves.
    pub shell_round-Echoes :
        (n : ℕ) (k k' : Keyboard) (keys : List MappedKey) (m : Mem) (t : Text) (c : S v)
        → CStr m prompt prompt_text
        → CStr m reply reply_format
        → Apart result 1024 prompt 3
        → Apart result 1024 reply 5
        → Apart result 1024 buffer 512
        → Apart buffer 512 reply 5
        → Refines t c
        → t.at % 80 ≡ 0
        → t.at / 80 + 2 < 237
        → Reads n k keys k'
        → n ≤ fuel
        → 84 < fuel
        → All IsPlain keys
        → length keys < 78
        → (e : Editor v) × (after : Mem) × (c' : S v) × (shell_round v result prompt reply buffer
              fuel k m c
            ≡ some (after, c', k'))
          × (shell_read v result prompt reply buffer fuel k m c ≡ some (e, k'))
          × Edits buffer (typed keys) e
          × CStr after result (reply_text (typed keys).text)
          × (tio_write_color v fuel after result vga_color_white e.console ≡ some c')
    shell_round-Echoes n k k' keys m t c hp hr aprompt ar ab br shows start rows reads enough big
          plains short =
        let (m1, c1, shown, column, same) =
          prompt-x m t c hp aprompt shows start rows (omega arith) in
        let m2 = kmemset m1 buffer 0 line_size in
        let nul : m2 buffer ≡ 0 = kmemset_lem m1 buffer 0 512 buffer ∙ ground arith in
        let (e, read, edits, kept) =
          kb_get_line-Edits v buffer n fuel k k' keys m2 c1 reads enough nul column plains short in
        let (all, few) = edited_by-All keys (record { text = []; at = 0 }) plains tt in
        let line = (typed keys).text in
        let standing : CStr e.mem buffer line =
          CStr-All e.mem buffer line all (λ i lt. edits.spells i (omega arith))
            (edits.spells (length line) (omega arith) ∙ get_or-length line) in
        let format : CStr e.mem reply reply_format =
          CStr-agree m e.mem reply reply_format
            (λ a lo hi.
              kept a
                (beyond (length keys) a short (beside buffer 512 reply 5 a br lo (omega arith)))
              ∙ cleared-same m m1 a same (beside result 1024 reply 5 a ar lo (omega arith))
                  (beside buffer 512 reply 5 a br lo (omega arith)))
            hr in
        let (after, c', answered, stands, ends) =
          reply-ends e.mem line e.console format standing all (omega arith) ar ab big in
        (
          e,
          after,
          c',
          shell_round-both k k' m m1 c c1 e after c' shown read answered,
          shell_read-both k k' m m1 c c1 e shown read,
          edits,
          stands,
          ends,
        )
      where
        beyond :
            (size a : ℕ) → size < 78 → (a < buffer) ⊎ (buffer + 512 ≤ a) → Outside buffer size a
        beyond size a h (inl below) = inl below
        beyond size a h (inr above) = inr (omega arith)
