-- ===== src/Console/View.antt =====
-- src/stdlib/tio.c: the view of the buffer. `Shown` is what holds between the terminal's calls while
-- the view stands inside the buffer; scrolling keeps it.
use palley_os.Prelude.{
  ℕ, zero, suc, ◌+◌, ◌-◌, ◌*◌, ◌%◌, ◌≤◌, ◌<◌, Bool, true, false, ◌&&◌, ◌==◌, ltb, if◌then◌else◌,
  ◌≡◌, refl, sym, arith, u32_mod,
}
use mathlib.Core.Path.{subst}
use palley_os.Ports.{Ports}
use palley_os.Vga.{ShiftDirection, shift_direction_up, shift_direction_down}
use palley_os.Console.{
  Console, S, shift_step, shift_loop, view_shift, render_screen, render_cursor, geb_int,
  is_negative,
}

-- What has been written, as one run of cells, and the place of the next character.
pub record Text : Type 0 where
  pub cells : ℕ → ℕ
  pub at : ℕ

-- The buffer holds the text, and the view and the cursor stand at its place inside the buffer.
pub record Laid {D : Type 0} (t : Text) (c : Console D) : Type 0 where
  pub pages_of : c.num_pages ≡ 10
  pub height_of : c.height ≡ 24
  pub in_line : c.x < 80
  pub in_buffer : c.row < 216
  pub text : (k : ℕ) → c.pages k ≡ t.cells k
  pub place : t.at ≡ (c.row + c.y) * 80 + c.x

-- The screen shows the rows of the buffer from the view's on.
abbrev pub Shows : {D : Type 0} → Console D → Type 0
Shows c = (i : ℕ) → i < 1920 → c.platform_vb i ≡ c.pages (c.row * 80 + i)

-- What holds between the terminal's calls: the text is laid out and shown, and the flag says
-- whether the cursor stands on the screen.
pub record Refines {D : Type 0} (t : Text) (c : Console D) : Type 0 where
  pub laid : Laid t c
  pub shows : Shows c
  pub seen : c.on_screen ≡ ltb c.y 24

module _ {D : Type 0} where
  abbrev pub scrolled_up : ℕ → Console D → Console D
  scrolled_up n c = record c { y = c.y - n; row = c.row + n }

  abbrev pub scrolled_down : ℕ → Console D → Console D
  scrolled_down n c = record c { y = c.y + n; row = c.row - n }

  shift_step-up :
      (c : Console D)
      → c.num_pages ≡ 10
      → c.height ≡ 24
      → 0 < c.y
      → c.row < 215
      → shift_step shift_direction_up c ≡ (scrolled_up 1 c, false)
  unfolding shift_step
  shift_step-up c np hh hy hr =
      let positive : (c.y == 0) ≡ false = ground arith in
      let next : (c.row + 1) % u32_mod ≡ c.row + 1 = omega arith in
      let inside : geb_int ((c.row + 1 + c.height) % u32_mod) (c.num_pages * 24) ≡ false =
        ground arith in
      rw (positive, next, inside) refl

  shift_step-down :
      (c : Console D)
      → 0 < c.row
      → c.row < 216
      → shift_step shift_direction_down c ≡ (scrolled_down 1 c, false)
  unfolding shift_step
  shift_step-down c hy hr =
      let up : (c.row + (u32_mod - 1)) % u32_mod ≡ c.row - 1 = omega arith in
      let inside : is_negative (c.row - 1) ≡ false = ground arith in rw (up, inside) refl

  pub shift_loop-up :
      (n : ℕ) (c : Console D)
      → c.num_pages ≡ 10
      → c.height ≡ 24
      → n ≤ c.y
      → c.row + n < 216
      → shift_loop shift_direction_up n c ≡ (scrolled_up n c, false)
  unfolding shift_loop
  shift_loop-up zero c np hh hy hr =
      let sum : c.row + 0 ≡ c.row = omega arith in
      let rest : c.y - 0 ≡ c.y = omega arith in rw (sum, rest) refl
  shift_loop-up (suc n) c np hh hy hr =
      let sum : c.row + 1 + n ≡ c.row + suc n = omega arith in
      let rest : c.y - 1 - n ≡ c.y - suc n = omega arith in
      rw
        (
          shift_step-up c np hh (omega arith) (omega arith),
          shift_loop-up n (scrolled_up 1 c) np hh (omega arith) (omega arith),
          sum,
          rest,
        )
        refl

  pub shift_loop-down :
      (n : ℕ) (c : Console D)
      → n ≤ c.row
      → c.row < 216
      → shift_loop shift_direction_down n c ≡ (scrolled_down n c, false)
  unfolding shift_loop
  shift_loop-down zero c hy hr =
      let sum : c.y + 0 ≡ c.y = omega arith in
      let rest : c.row - 0 ≡ c.row = omega arith in rw (sum, rest) refl
  shift_loop-down (suc n) c hy hr =
      let sum : c.y + 1 + n ≡ c.y + suc n = omega arith in
      let rest : c.row - 1 - n ≡ c.row - suc n = omega arith in
      rw
        (
          shift_step-down c (omega arith) (omega arith),
          shift_loop-down n (scrolled_down 1 c) (omega arith) (omega arith),
          sum,
          rest,
        )
        refl

  -- The text keeps to its cells while the view and the cursor move together.
  pub moved-Laid :
      {t : Text} {c : Console D} {at x y row : ℕ} {on_screen : Bool} {platform_vb : ℕ → ℕ}
      {devices : D}
      → Laid t c
      → row < 216
      → x < 80
      → at ≡ (row + y) * 80 + x
      → Laid
          (record t { at = at })
          (record c {
            row = row;
            y = y;
            x = x;
            on_screen = on_screen;
            platform_vb = platform_vb;
            devices = devices;
          })
  moved-Laid l hr hx place = record {
    pages_of = l.pages_of;
    height_of = l.height_of;
    in_line = hx;
    in_buffer = hr;
    text = l.text;
    place = place;
  }

  pub render-Refines :
      (t : Text) (c : Console D) → Laid t c → c.on_screen ≡ ltb c.y 24 → Refines t (render_screen c)
  unfolding render_screen
  render-Refines t c l seen = record {
    laid = moved-Laid l l.in_buffer l.in_line l.place;
    shows = λ i h.
        let index : (c.row * 80 % u32_mod + i) % u32_mod ≡ c.row * 80 + i =
          omega (arith, l.in_buffer) in
        let low : ltb i 1920 ≡ true = ground arith in rw (low, index) refl;
    seen = seen;
  }

  pub drawn-Refines :
      {t : Text} {c : Console D} → Refines t c → (s : D) → Refines t (record c { devices = s })
  drawn-Refines r s = record {
    laid = moved-Laid r.laid r.laid.in_buffer r.laid.in_line r.laid.place;
    shows = r.shows;
    seen = r.seen;
  }

-- What holds whatever the devices' state does holds after the cursor is drawn.
pub render_cursor_lem :
    (v : Ports) (P : S v → Type 0) (c : S v)
    → ((s : v.State) → P (record c { devices = s }))
    → P (render_cursor v c)
unfolding render_cursor
render_cursor_lem v P c h = drawn _ _
  where
    drawn : (hidden : Bool) (s : v.State) → P (if hidden then c else record c { devices = s })
    drawn true s = h c.devices
    drawn false s = h s

module _ (v : Ports) where
  -- Drawing the cursor keeps the text and the screen.
  pub render_cursor-Refines : (t : Text) (c : S v) → Refines t c → Refines t (render_cursor v c)
  render_cursor-Refines t c r = render_cursor_lem v (Refines t) c λ s. drawn-Refines r s

  -- After the rounds of the loop the screen is drawn from what they leave.
  pub view_shift-loop :
      (dir : ShiftDirection) (n : ℕ) (c m : S v)
      → shift_loop dir n c ≡ (m, false)
      → view_shift v dir n c
        ≡ render_cursor v (render_screen (record m { on_screen = ltb 0 m.y && ltb m.y 24 }))
  unfolding view_shift
  view_shift-loop dir n c m e = rw e refl

  abbrev At : Text → ℕ → ℕ → S v → Type 0
  At t y row c = Refines t c × (c.y ≡ y) × (c.row ≡ row)

  view_shift-Refines :
      (t : Text) (dir : ShiftDirection) (n : ℕ) (c m : S v)
      → shift_loop dir n c ≡ (m, false)
      → Laid t m
      → 0 < m.y
      → At t m.y m.row (view_shift v dir n c)
  unfolding render_screen
  view_shift-Refines t dir n c m e l positive =
      let shown : S v = record m { on_screen = ltb 0 m.y && ltb m.y 24 } in
      let r : Refines t (render_screen shown) =
        render-Refines t shown (moved-Laid l l.in_buffer l.in_line l.place) (ground arith) in
      subst (At t m.y m.row) (sym (view_shift-loop dir n c m e)) (
        render_cursor_lem v (At t m.y m.row) (render_screen shown)
          λ s. (drawn-Refines r s, refl, refl))

  -- The view moves up by `n` rows, which stays inside the buffer, and the cursor with the text.
  pub view_shift-up :
      (t : Text) (n : ℕ) (c : S v)
      → Laid t c
      → n < c.y
      → c.row + n < 216
      → At t (c.y - n) (c.row + n) (view_shift v shift_direction_up n c)
  view_shift-up t n c l hy hr =
      view_shift-Refines t shift_direction_up n c (scrolled_up n c)
        (shift_loop-up n c l.pages_of l.height_of (omega arith) hr)
        (moved-Laid l hr l.in_line (omega (arith, l.place))) (omega arith)

  -- And down, as far as the first row.
  pub view_shift-down :
      (t : Text) (n : ℕ) (c : S v)
      → Laid t c
      → n ≤ c.row
      → 0 < c.y + n
      → At t (c.y + n) (c.row - n) (view_shift v shift_direction_down n c)
  view_shift-down t n c l hy hr =
      view_shift-Refines t shift_direction_down n c (scrolled_down n c)
        (shift_loop-down n c hy l.in_buffer)
        (moved-Laid l (omega (arith, l.in_buffer)) l.in_line (omega (arith, l.place))) (omega arith)
