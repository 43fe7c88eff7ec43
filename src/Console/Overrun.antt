-- ===== src/Console/Overrun.antt =====
-- src/stdlib/tio.c: the row that the view is sent to when it reaches the buffer's end.
use mathlib.Core.Path.{subst}
use palley_os.Prelude.{
  ◌+◌, ◌-◌, ◌*◌, ◌%◌, ◌≤◌, ◌<◌, true, false, ◌==◌, leb, ◌≡◌, refl, sym, arith, u32_mod, if_lem,
}
use palley_os.Ports.{Ports}
use palley_os.Vga.{VgaColor, shift_direction_up}
use palley_os.Console.{
  Console, S, shift_step, shift_loop, render_screen, cursor_get_index_in_buffer, new_line,
  tio_write_char_color, vb_shift_pages, wrapped_row, geb_int,
}
use palley_os.Console.View.{Text, Refines, view_shift-loop, render_cursor_lem}

vb_shift_pages-kept :
    {D : Type 0} (c : Console D) → ((vb_shift_pages c).x ≡ c.x) × ((vb_shift_pages c).y ≡ c.y)
unfolding vb_shift_pages
vb_shift_pages-kept {D} c =
    if_lem (λ (m : Console D). (m.x ≡ c.x) × (m.y ≡ c.y)) (c.num_pages == 0) (λ e. (refl, refl))
      (λ e. (refl, refl))

module _ {D : Type 0} where
  abbrev advanced : Console D → Console D
  advanced c = record c { y = c.y - 1; row = (c.row + 1) % u32_mod }

  abbrev at_end : Console D → Console D
  at_end c = record (vb_shift_pages (advanced c)) { row = wrapped_row c.num_pages }

  shift_step-end :
      (c : Console D)
      → c.num_pages ≡ 10
      → c.height ≡ 24
      → 0 < c.y
      → c.row ≡ 215
      → shift_step shift_direction_up c ≡ (at_end c, false)
  unfolding shift_step
  shift_step-end c np hh hy hr =
      let positive : (c.y == 0) ≡ false = ground arith in
      let outside : geb_int (((c.row + 1) % u32_mod + c.height) % u32_mod) (c.num_pages * 24)
          ≡ true =
        ground arith in
      rw (positive, outside) refl

-- A line feed with the cursor at the last row of the last view sends the view to a row in front of
-- the buffer, and the next character's cell with it: its index is outside of the ten pages.
pub new_line-overrun :
    (v : Ports) (t : Text) (c : S v) (vc : VgaColor)
    → Refines t c
    → c.row ≡ 215
    → c.y ≡ 22
    → 10 * 1920 ≤ cursor_get_index_in_buffer (tio_write_char_color v b'\n' vc c)
unfolding tio_write_char_color new_line shift_loop render_screen
new_line-overrun v t c vc r hr hy =
    let moved : S v = record c { y = c.y + 1; x = 0 } in
    let step : shift_loop shift_direction_up 1 moved ≡ (at_end moved, false) =
      rw (shift_step-end moved r.laid.pages_of r.laid.height_of (omega arith) hr) refl in
    let (x, y) = vb_shift_pages-kept (advanced moved) in
    let far : 10 * 1920 ≤ cursor_get_index_in_buffer (at_end moved) =
      omega (arith, r.laid.pages_of) in
    if_lem Far (leb 23 (c.y + 1))
      (λ e.
        subst Far (sym (view_shift-loop v shift_direction_up 1 moved (at_end moved) step))
          (render_cursor_lem v Far _ (λ s. far)))
      (λ e. absurd (ground arith))
  where
    Far : S v → Type 0
    Far m = 10 * 1920 ≤ cursor_get_index_in_buffer m
