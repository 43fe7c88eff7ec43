-- ===== src/Console/Column.antt =====
-- src/stdlib/tio.c: the column of the cursor, which scrolling and drawing leave as it is.
use palley_os.Prelude.{
  ℕ, zero, suc, ◌+◌, ◌-◌, ◌%◌, u32_mod, ◌<◌, false, ◌&&◌, ◌==◌, ltb, leb, if◌then◌else◌, ◌≡◌, refl,
  ap, ◌∙◌, arith,
}
use palley_os.Ports.{Ports}
use palley_os.Vga.{ShiftDirection, shift_direction_up, shift_direction_down}
use palley_os.Console.{
  Console, S, tio_backspace, view_shift, cursor_inc, cursor_dec, place_char, shift_step, shift_loop,
  vb_shift_pages, render_screen, render_cursor, put_cell, cursor_get_index,
  cursor_get_index_in_buffer, vb_set_value, lines_below,
}
use palley_os.Console.View.{render_cursor_lem}

-- Scrolling leaves the cursor's column.
vb_shift_pages-x : {D : Type 0} (c : Console D) → (vb_shift_pages c).x ≡ c.x
unfolding vb_shift_pages
vb_shift_pages-x c = ground arith

shift_step-x : {D : Type 0} (dir : ShiftDirection) (c : Console D) → (shift_step dir c).0.x ≡ c.x
unfolding shift_step
shift_step-x shift_direction_up c =
    let scrolled = vb_shift_pages-x (record c { y = c.y - 1; row = (c.row + 1) % u32_mod }) in
    ground (arith, scrolled)
shift_step-x shift_direction_down c = ground arith

shift_loop-x :
    {D : Type 0} (dir : ShiftDirection) (n : ℕ) (c : Console D) → (shift_loop dir n c).0.x ≡ c.x
unfolding shift_loop
shift_loop-x dir zero c = refl
shift_loop-x dir (suc n) c =
    let first = shift_step-x dir c in
    let rest = shift_loop-x dir n (shift_step dir c).0 in ground (arith, first, rest)

module _ (v : Ports) where
  render_cursor-x : (c : S v) → (render_cursor v c).x ≡ c.x
  render_cursor-x c = render_cursor_lem v (λ m. m.x ≡ c.x) c (λ s. refl)

  pub view_shift-x : (dir : ShiftDirection) (n : ℕ) (c : S v) → (view_shift v dir n c).x ≡ c.x
  unfolding view_shift render_screen
  view_shift-x dir n c =
      let moved = shift_loop-x dir n c in
      let drawn = render_cursor-x (
        render_screen (record (shift_loop dir n c).0 {
          on_screen = ltb 0 (shift_loop dir n c).0.y && ltb (shift_loop dir n c).0.y 24;
        })) in
      ground (arith, moved, drawn)

  pub cursor_inc-x : (c : S v) → c.x + 1 < 80 → (cursor_inc v c).x ≡ c.x + 1
  unfolding cursor_inc
  cursor_inc-x c h =
      let next : S v = record c { x = c.x + 1 } in
      let inside : leb 80 (c.x + 1) ≡ false = ground arith in
      let drawn =
        render_cursor-x (if leb 23 c.y then view_shift v shift_direction_up 1 next else next) in
      let scrolled = view_shift-x shift_direction_up 1 next in
      rw inside (drawn ∙ ground (arith, scrolled))

  pub cursor_dec-x : (c : S v) → 0 < c.x → (cursor_dec v c).x ≡ c.x - 1
  unfolding cursor_dec
  cursor_dec-x c h =
      let inside : (c.x == 0) ≡ false = ground arith in
      rw inside (render_cursor-x (record c { x = c.x - 1 }))

  pub tio_backspace-x : (c : S v) → 0 < c.x → (tio_backspace v c).x ≡ c.x - 1
  unfolding tio_backspace
  tio_backspace-x c h = cursor_dec-x c h

  pub place_char-x : (e : ℕ) (c : S v) → c.x + 1 < 80 → (place_char v e c).x ≡ c.x + 1
  unfolding place_char
  place_char-x e c h =
      let drawn : S v = record c { platform_vb = put_cell c.platform_vb (cursor_get_index c) e } in
      let seen =
        if c.on_screen
        then drawn
        else view_shift v shift_direction_up (lines_below v drawn) drawn in
      let column : seen.x ≡ c.x =
        ground (arith, view_shift-x shift_direction_up (lines_below v drawn) drawn) in
      let written = vb_set_value (cursor_get_index_in_buffer seen) e seen in
      render_cursor-x (cursor_inc v written)
      ∙ cursor_inc-x written (omega arith)
      ∙ ap (λ k. k + 1) column
