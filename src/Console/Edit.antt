-- ===== src/Console/Edit.antt =====
-- src/stdlib/tio.c: tio_shift_right and tio_shift_left, which make room for a character in the
-- buffer behind the cursor and close it, and what they do to the buffer's cells.
use palley_os.Prelude.{
  ℕ, zero, suc, ◌+◌, ◌&&◌, ◌-◌, ◌*◌, ◌%◌, ◌<◌, true, ◌==◌, ltb, ◌%◌, leb, if◌then◌else◌, if_lem,
  ◌≢◌, ◌≡◌, sym, ◌∙◌, arith, u32_mod,
}
use palley_os.Ports.{Ports}
use palley_os.Console.View.{Text, Refines, render_cursor_lem}
use palley_os.Console.{
  Console, S, tio_backspace, cursor_dec, vb_set_value, put_cell, cursor_get_index_in_buffer,
  cursor_get_index, view_get_buffer_end_index, render_screen,
}

-- The loop of tio_shift_right, `for(j = start + left; j > start; j--)`.
unfoldable pub move_right_loop : ℕ → ℕ → (ℕ → ℕ) → ℕ → ℕ
move_right_loop zero start cells = cells
move_right_loop (suc left) start cells =
    move_right_loop left start (put_cell cells (start + suc left) (cells (start + left)))

-- The loop of tio_shift_left over `left` cells from `j` on.
unfoldable pub move_left_loop : ℕ → ℕ → (ℕ → ℕ) → ℕ → ℕ
move_left_loop zero j cells = cells
move_left_loop (suc left) j cells = move_left_loop left (j + 1) (put_cell cells j (cells (j + 1)))

module _ {D : Type 0} where
  unfoldable pub tio_shift_right : Console D → Console D
  unfolding move_right_loop render_screen
  tio_shift_right c =
      let start = cursor_get_index_in_buffer c in
      let moved = move_right_loop (view_get_buffer_end_index c - start) start c.pages in
      render_screen (record c { pages = put_cell moved start (c.platform_vb (cursor_get_index c)) })

  unfoldable pub tio_shift_left : Console D → Console D
  unfolding move_left_loop render_screen
  tio_shift_left c =
      let start = cursor_get_index_in_buffer c + (if c.x == 0 then 1 else 0) in
      render_screen
        (record c { pages = move_left_loop (view_get_buffer_end_index c - start) start c.pages })

pub move_right_loop-at :
    (left start : ℕ) (cells : ℕ → ℕ) (k : ℕ)
    → move_right_loop left start cells k
      ≡ (if ltb start k && leb k (start + left) then cells (k - 1) else cells k)
unfolding move_right_loop
move_right_loop-at zero start cells k = ground arith
move_right_loop-at (suc left) start cells k = move_right_loop-at left start _ k ∙ grind arith

pub move_left_loop-at :
    (left j : ℕ) (cells : ℕ → ℕ) (k : ℕ)
    → move_left_loop left j cells k
      ≡ (if leb j k && ltb k (j + left) then cells (k + 1) else cells k)
unfolding move_left_loop
move_left_loop-at zero j cells k = ground arith
move_left_loop-at (suc left) j cells k = move_left_loop-at left (j + 1) _ k ∙ grind arith

abbrev pub view_end : {D : Type 0} → Console D → ℕ
view_end c = (c.row + 24) * 80

-- The cells behind the cursor's move one to the left, from its own on unless it stands at the
-- row's start.
tio_shift_left-at :
    {D : Type 0} (c : Console D) (k : ℕ)
    → c.height ≡ 24
    → c.row < 216
    → c.y < 24
    → c.x < 80
    → c.x ≢ 0
    → (tio_shift_left c).pages k ≡ (
        if leb ((c.row + c.y) * 80 + c.x) k && ltb k (view_end c)
        then c.pages (k + 1)
        else c.pages k)
unfolding tio_shift_left
tio_shift_left-at c k hh hr hy hx inside =
    let start : cursor_get_index_in_buffer c + (if c.x == 0 then 1 else 0)
        ≡ (c.row + c.y) * 80 + c.x =
      ground arith in
    let stop : view_get_buffer_end_index c ≡ view_end c = omega arith in
    rw
      (
        start,
        stop,
        move_left_loop-at (view_end c - ((c.row + c.y) * 80 + c.x)) ((c.row + c.y) * 80 + c.x)
            c.pages k,
      )
      (grind arith)

module _ {D : Type 0} (t : Text) (c : Console D) (r : Refines t c) (on : c.y < 24) where
  abbrev here : ℕ
  here = (c.row + c.y) * 80 + c.x

  -- The cells from the cursor's on move one to the right, up to the one behind the view, and the
  -- cursor's keeps what it shows.
  tio_shift_right-at :
      (k : ℕ)
      → (tio_shift_right c).pages k
        ≡ (if ltb here k && leb k (view_end c) then c.pages (k - 1) else c.pages k)
  unfolding tio_shift_right
  tio_shift_right-at k =
      let start : cursor_get_index_in_buffer c ≡ here =
        omega (arith, r.laid.in_line, r.laid.in_buffer) in
      let stop : view_get_buffer_end_index c ≡ view_end c =
        omega (arith, r.laid.height_of, r.laid.in_buffer) in
      let index : cursor_get_index c ≡ c.y * 80 + c.x = omega (arith, r.laid.in_line) in
      let shown : c.platform_vb (c.y * 80 + c.x) ≡ c.pages (c.row * 80 + (c.y * 80 + c.x)) =
        r.shows (c.y * 80 + c.x) (omega (arith, r.laid.in_line)) in
      rw (start, stop, index, move_right_loop-at (view_end c - here) here c.pages k)
        (grind (arith, shown, r.laid.in_line))

  -- Room made for a character in front of the row's others, and closed again, on a terminal that
  -- shows a text (Refines) with the cursor on the screen and behind its row's start: the buffer is as
  -- it was but for the cell behind the view, and the screen shows what it did.
  pub tio_shift_left-tio_shift_right :
      c.x ≢ 0
      → ((k : ℕ) → k ≢ view_end c → (tio_shift_left (tio_shift_right c)).pages k ≡ c.pages k)
        × ((i : ℕ)
            → i < 1920
            → (tio_shift_left (tio_shift_right c)).platform_vb i ≡ c.platform_vb i)
  unfolding tio_shift_right tio_shift_left render_screen
  tio_shift_left-tio_shift_right inside = (cells, shown)
    where
      cells : (k : ℕ) → k ≢ view_end c → (tio_shift_left (tio_shift_right c)).pages k ≡ c.pages k
      cells k ne =
          tio_shift_left-at (tio_shift_right c) k r.laid.height_of r.laid.in_buffer on
            r.laid.in_line inside
          ∙ rw (tio_shift_right-at (k + 1), tio_shift_right-at k) (grind arith)

      shown :
          (i : ℕ) → i < 1920 → (tio_shift_left (tio_shift_right c)).platform_vb i ≡ c.platform_vb i
      shown i h =
          let low : ltb i 1920 ≡ true = ground arith in
          let index : (c.row * 80 % u32_mod + i) % u32_mod ≡ c.row * 80 + i =
            omega (arith, r.laid.in_buffer) in
          rw (low, index) (cells (c.row * 80 + i) (omega arith)) ∙ sym (r.shows i h)

-- A backspace changes no cell of the buffer: the one that it goes back to is written with what the
-- screen shows of it.
pub tio_backspace-pages :
    (v : Ports) (t : Text) (c : S v)
    → Refines t c
    → c.y < 24
    → (k : ℕ) → (tio_backspace v c).pages k ≡ c.pages k
unfolding tio_backspace cursor_dec
tio_backspace-pages v t c r on k =
    let wrapped : S v = record c { x = 79; y = c.y - 1 } in
    let back : S v = record c { x = c.x - 1 } in
    render_cursor_lem v Kept (if c.x == 0 then wrapped else back) (λ s.
      if_lem (λ (m : S v). Kept (record m { devices = s })) (c.x == 0) {x = wrapped} {y = back}
        (λ e. kept (c.y - 1) 79 s (omega arith) (omega arith))
        (λ e. kept c.y (c.x - 1) s on (omega (arith, r.laid.in_line))))
  where
    Kept : S v → Type 0
    Kept m =
        (vb_set_value (cursor_get_index_in_buffer m) (m.platform_vb (cursor_get_index m)) m).pages k
        ≡ c.pages k

    kept : (y x : ℕ) (s : v.State) → y < 24 → x < 80 → Kept (record c { y = y; x = x; devices = s })
    kept y x s hy hx =
        let index : (y * 80 + x) % u32_mod ≡ y * 80 + x = omega arith in
        let place : ((c.row + y) * 80 + x) % u32_mod ≡ c.row * 80 + (y * 80 + x) =
          omega (arith, r.laid.in_buffer) in
        let shown : c.platform_vb (y * 80 + x) ≡ c.pages (c.row * 80 + (y * 80 + x)) =
          r.shows (y * 80 + x) (omega arith) in
        rw (index, place, shown) (grind arith)
