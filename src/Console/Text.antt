-- ===== src/Console/Text.antt =====
-- src/stdlib/tio.c: characters and strings written to the terminal, against a text that is one run
-- of cells with the place of the next character.
use palley_os.Prelude.{
  ℕ, zero, suc, ◌+◌, ◌-◌, ◌*◌, ◌/◌, ◌≤◌, ◌<◌, Bool, true, false, ◌==◌, leb, if◌then◌else◌, ◌≡◌,
  refl, ◌∙◌, arith, if_lem, List, [], ◌∷◌, length, some,
}
use palley_os.Prelude.Memory.{Mem, CStr}
use palley_os.Ports.{Ports}
use palley_os.Vga.{shift_direction_up, create_vga_entry, VgaColor}
use palley_os.Console.{
  S, view_shift, render_cursor, cursor_inc, put_cell, place_char, new_line, tio_write_char_color,
  tio_write_color, lines_below, tio_init, cursor_get_index_in_buffer, cursor_get_index,
  vb_set_value,
}
use palley_os.Console.View.{
  Text, Laid, Shows, Refines, view_shift-up, render_cursor-Refines, moved-Laid,
}

-- A character of the text: a line feed goes to the next row's start, a carriage return to its row's
-- start, any other takes a cell.
abbrev pub write_char : ℕ → VgaColor → Text → Text
write_char character vc t =
    if character == b'\n'
    then record t { at = (t.at / 80 + 1) * 80 }
    else if character == b'\r'
    then record t { at = t.at / 80 * 80 }
    else record { cells = put_cell t.cells t.at (create_vga_entry character vc); at = t.at + 1 }

abbrev pub write : List ℕ → VgaColor → Text → Text
write [] vc t = t
write (character ∷ s) vc t = write s vc (write_char character vc t)

write_char-row :
    (character : ℕ) (vc : VgaColor) (t : Text) → t.at / 80 ≤ (write_char character vc t).at / 80
write_char-row character vc t =
    if_lem (λ (r : Text). t.at / 80 ≤ r.at / 80) (character == b'\n') (λ e. omega arith)
      (λ e.
        if_lem (λ (r : Text). t.at / 80 ≤ r.at / 80) (character == b'\r') (λ e. omega arith)
          (λ e. omega arith))

-- The rows that text has reached are kept.
pub write-row : (s : List ℕ) (vc : VgaColor) (t : Text) → t.at / 80 ≤ (write s vc t).at / 80
write-row [] vc t = omega arith
write-row (character ∷ s) vc t =
    let first = write_char-row character vc t in
    let others = write-row s vc (write_char character vc t) in omega arith

module _ (v : Ports) where
  -- The view scrolls when the cursor has reached the last row.
  scroll-Refines :
      (t : Text) (c : S v)
      → Laid t c
      → c.row + c.y < 238
      → (c.y < 23 → Shows c × (c.on_screen ≡ true))
      → Refines t (if leb 23 c.y then view_shift v shift_direction_up 1 c else c)
  scroll-Refines t c l hr shown =
      if_lem (Refines t) (leb 23 c.y)
        (λ e. (view_shift-up v t 1 c l (ground arith) (ground arith)).0)
        (λ e.
          let (shows, on) = shown (ground arith) in
          record { laid = l; shows = shows; seen = on ∙ ground arith })

  -- The cursor stands on a shown row but the last, or one above the row that scrolls.
  cursor_inc-Refines :
      (t : Text) (c : S v)
      → Laid t c
      → c.y < 24
      → c.row + c.y < 237
      → (c.y < 23 → Shows c × (c.on_screen ≡ true))
      → Refines (record t { at = t.at + 1 }) (cursor_inc v c)
  unfolding cursor_inc
  cursor_inc-Refines t c l hy hr shown =
      let t' = record t { at = t.at + 1 } in
      render_cursor-Refines v t' _ (
        if_lem (λ m. Refines t' (if leb 23 m.y then view_shift v shift_direction_up 1 m else m))
          (leb 80 (c.x + 1))
          (λ e.
            scroll-Refines t' (record c { x = 0; y = c.y + 1 })
              (moved-Laid l l.in_buffer (omega arith) (ground (arith, l.place, l.in_line)))
              (omega arith) (λ h. shown (omega arith)))
          (λ e.
            scroll-Refines t' (record c { x = c.x + 1 })
              (moved-Laid l l.in_buffer (ground arith) (ground (arith, l.place))) (omega arith)
              (λ h. shown (omega arith))))

  new_line-Refines :
      (t : Text) (c : S v)
      → Refines t c
      → c.row + c.y < 237
      → Refines (record t { at = (t.at / 80 + 1) * 80 }) (new_line v c)
  unfolding new_line
  new_line-Refines t c r hr =
      scroll-Refines _ (record c { x = 0; y = c.y + 1 })
        (moved-Laid r.laid r.laid.in_buffer (omega arith)
          (omega (arith, r.laid.place, r.laid.in_line)))
        (omega arith) (λ h. (r.shows, r.seen ∙ ground arith))

  -- The character's cell in the buffer is the text's next one.
  written-Laid :
      (t : Text) (c : S v) (e : ℕ)
      → Laid t c
      → c.row + c.y < 237
      → Laid
          (record t { cells = put_cell t.cells t.at e })
          (vb_set_value (cursor_get_index_in_buffer c) e c)
  written-Laid t c e l hr =
      let index : cursor_get_index_in_buffer c ≡ t.at = omega (arith, l.place, l.in_line) in
      record {
        pages_of = l.pages_of;
        height_of = l.height_of;
        in_line = l.in_line;
        in_buffer = l.in_buffer;
        text = λ k. rw (index, l.text k) refl;
        place = l.place;
      }

  -- On the screen, the cell in the video memory is the same one.
  written-Shows :
      (c : S v) (e : ℕ)
      → Shows c
      → c.x < 80
      → c.y < 24
      → c.row < 216
      → Shows (
          vb_set_value
            (cursor_get_index_in_buffer c)
            e
            (record c { platform_vb = put_cell c.platform_vb (cursor_get_index c) e }))
  written-Shows c e shows hx hy hr i hi = ground (arith, shows i hi)

  advance-Refines :
      (t : Text) (c : S v) (e : ℕ)
      → Laid t c
      → c.y < 24
      → c.row + c.y < 237
      → (c.y < 23 → Shows (vb_set_value (cursor_get_index_in_buffer c) e c) × (c.on_screen ≡ true))
      → Refines
          (record { cells = put_cell t.cells t.at e; at = t.at + 1 })
          (render_cursor v (cursor_inc v (vb_set_value (cursor_get_index_in_buffer c) e c)))
  advance-Refines t c e l hy hr shown = render_cursor-Refines v _ _ (
      cursor_inc-Refines _ (vb_set_value (cursor_get_index_in_buffer c) e c)
        (written-Laid t c e l hr) hy hr shown)

  place_char-Refines :
      (t : Text) (c : S v) (e : ℕ)
      → Refines t c
      → c.row + c.y < 237
      → Refines (record { cells = put_cell t.cells t.at e; at = t.at + 1 }) (place_char v e c)
  unfolding place_char
  place_char-Refines t c e r hr =
      let drawn = record c { platform_vb = put_cell c.platform_vb (cursor_get_index c) e } in
      let l : Laid t drawn = moved-Laid r.laid r.laid.in_buffer r.laid.in_line r.laid.place in
      if_lem
        (λ m.
          Refines (record { cells = put_cell t.cells t.at e; at = t.at + 1 })
            (render_cursor v (cursor_inc v (vb_set_value (cursor_get_index_in_buffer m) e m))))
        c.on_screen
        (λ on.
          advance-Refines t drawn e l (ground (arith, r.seen)) hr
            (λ h. (written-Shows c e r.shows l.in_line (ground arith) l.in_buffer, on)))
        (λ off.
          let below : 24 ≤ c.y = ground (arith, r.seen) in
          let lines : lines_below v drawn ≡ c.y - 23 = omega arith in
          let (r', y', row') =
            view_shift-up v t (lines_below v drawn) drawn l (omega arith) (omega arith) in
          advance-Refines t _ e r'.laid (omega arith) (omega arith) (λ h. absurd (omega arith)))

  -- A character written to the terminal is the one of the text, shown on the screen, while the
  -- text's place is in the first 237 rows; the view is brought back to the cursor when it had been
  -- scrolled away.
  pub tio_write_char_color-Refines :
      (t : Text) (c : S v) (character : ℕ) (vc : VgaColor)
      → Refines t c
      → t.at / 80 < 237
      → Refines (write_char character vc t) (tio_write_char_color v character vc c)
  unfolding tio_write_char_color
  tio_write_char_color-Refines t c character vc r hr =
      write (character == b'\n') (character == b'\r')
    where
      write :
          (feed back : Bool)
          → Refines
              (if feed
                then record t { at = (t.at / 80 + 1) * 80 }
                else if back
                then record t { at = t.at / 80 * 80 }
                else record {
                  cells = put_cell t.cells t.at (create_vga_entry character vc);
                  at = t.at + 1;
                })
              (if feed
                then new_line v c
                else if back
                then record c { x = 0 }
                else place_char v (create_vga_entry character vc) c)
      write true back = new_line-Refines t c r (omega (arith, r.laid.place, r.laid.in_line))
      write false true = record {
        laid =
            moved-Laid r.laid r.laid.in_buffer (omega arith)
              (omega (arith, r.laid.place, r.laid.in_line));
        shows = r.shows;
        seen = r.seen;
      }
      write false false = place_char-Refines t c _ r (omega (arith, r.laid.place, r.laid.in_line))

  -- On a terminal that refines a text, so that the screen shows the buffer from the view's row on and
  -- the flag on_screen says whether the cursor stands in front of the view's end, a string whose text
  -- ends in the first 237 rows is written whole, its walk ends with more fuel than characters, and the terminal refines the text
  -- with the string behind it.
  pub tio_write_color-Refines :
      (fuel : ℕ) (m : Mem) (p : ℕ) (s : List ℕ) (vc : VgaColor) (t : Text) (c : S v)
      → CStr m p s
      → Refines t c
      → (write s vc t).at / 80 < 237
      → length s < fuel
      → (c' : S v) × (tio_write_color v fuel m p vc c ≡ some c') × Refines (write s vc t) c'
  unfolding tio_write_color
  tio_write_color-Refines zero m p s vc t c h r hr hf = absurd (omega arith)
  tio_write_color-Refines (suc fuel) m p [] vc t c h r hr hf = (c, rw h refl, r)
  tio_write_color-Refines (suc fuel) m p (character ∷ s) vc t c (here, nonzero, _, more) r hr hf =
      let first = write_char-row character vc t in
      let others = write-row s vc (write_char character vc t) in
      let (c', e, r') =
        tio_write_color-Refines fuel m (p + 1) s vc (write_char character vc t) _ more
          (tio_write_char_color-Refines t c character vc r (omega arith)) hr (omega arith) in
      let going : (character == 0) ≡ false = ground (arith, nonzero) in (c', rw (here, going) e, r')

  -- The terminal starts with an empty text, when it finds a blank screen, which it does not draw.
  pub tio_init-Refines :
      (c : S v)
      → ((i : ℕ) → i < 1920 → c.platform_vb i ≡ 32)
      → Refines (record { cells = (tio_init v c).pages; at = 0 }) (tio_init v c)
  unfolding tio_init
  tio_init-Refines c blank = record {
    laid = record {
      pages_of = refl;
      height_of = refl;
      in_line = omega arith;
      in_buffer = omega arith;
      text = λ k. refl;
      place = refl;
    };
    shows = λ i h. ground (arith, blank i h);
    seen = refl;
  }
