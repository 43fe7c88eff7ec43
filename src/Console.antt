-- ===== src/Console.antt =====
-- src/stdlib/tio.c: the terminal. The video memory and the pages of the full video buffer are
-- cells by their index; an index behind the ten pages is other memory. The cursor's numbers never
-- stay below 0 and are numbers here, with a test for 0 in front of each decrement; the view's row
-- is an int, as the 32 bits that hold it.
pub mod View
pub mod Column
pub mod Text
pub mod Edit
mod Overrun
mod Tests
use Prim.Native.Nat.{bit_and, bit_or}
use palley_os.Prelude.{
  ℕ, zero, suc, ◌+◌, ◌-◌, ◌*◌, ◌/◌, ◌%◌, ◌^◌, Bool, true, false, not, ◌&&◌, Option, none, some,
  ◌==◌, ltb, leb, if◌then◌else◌, u32_mod,
}
use palley_os.Prelude.Memory.{Mem}
use palley_os.Ports.{Ports}
use palley_os.Vga.{
  term_width, term_height, vb_size, fvb_pages, vga_color_black, vga_color_white, VgaColor,
  ShiftDirection, shift_direction_up, shift_direction_down, create_vga_entry,
}

-- The static variables: platform_vb, fvb, blank_buffer_page, term_view and cursor, and the devices.
pub record Console (D : Type 0) : Type 0 where
  pub platform_vb : ℕ → ℕ
  pub pages : ℕ → ℕ
  pub num_pages : ℕ
  pub blank_buffer_page : ℕ → ℕ
  pub row : ℕ
  pub height : ℕ
  pub width : ℕ
  pub x : ℕ
  pub y : ℕ
  pub on_screen : Bool
  pub devices : D

-- `a >= b` for two ints.
abbrev pub geb_int : ℕ → ℕ → Bool
geb_int a b = leb ((b + 2 ^ 31) % u32_mod) ((a + 2 ^ 31) % u32_mod)

abbrev pub is_negative : ℕ → Bool
is_negative a = leb (2 ^ 31) a

abbrev pub put_cell : (ℕ → ℕ) → ℕ → ℕ → ℕ → ℕ
put_cell cells k value j = if j == k then value else cells j

-- vb_page_replace, from the page that begins at `source` in some cells to page `dest`.
abbrev pub vb_page_replace : (ℕ → ℕ) → ℕ → ℕ → (ℕ → ℕ) → ℕ → ℕ
vb_page_replace from source dest cells k =
    if leb (dest * vb_size) k && ltb k (dest * vb_size + vb_size)
    then from (source + (k - dest * vb_size))
    else cells k

-- The loop of vb_shift_pages from page `i` on, with `left` to come.
unfoldable pub shift_pages_loop : ℕ → ℕ → (ℕ → ℕ) → ℕ → ℕ
shift_pages_loop zero i cells = cells
shift_pages_loop (suc left) i cells =
    shift_pages_loop left (i + 1) (vb_page_replace cells (i * vb_size) (i - 1) cells)

unfoldable pub vb_shift_pages : {D : Type 0} → Console D → Console D
unfolding shift_pages_loop
vb_shift_pages c =
    let shifted = shift_pages_loop (c.num_pages - 1) 1 c.pages in
    if c.num_pages == 0
    then c
    else record c { pages = vb_page_replace c.blank_buffer_page 0 (c.num_pages - 1) shifted }

-- The row that the view is sent to, `num_pages-2 * TERM_HEIGHT + 1` as it is written.
abbrev pub wrapped_row : ℕ → ℕ
wrapped_row num_pages = (num_pages + u32_mod - 2 * term_height + 1) % u32_mod

module _ {D : Type 0} where
  abbrev pub cursor_get_index_in_buffer : Console D → ℕ
  cursor_get_index_in_buffer c = ((c.row + c.y) * term_width + c.x) % u32_mod

  abbrev pub cursor_get_index : Console D → ℕ
  cursor_get_index c = (c.y * term_width + c.x) % u32_mod

  abbrev pub view_get_buffer_end_index : Console D → ℕ
  view_get_buffer_end_index c = (c.row + c.height) * term_width % u32_mod

  abbrev pub view_get_buffer_start_index : Console D → ℕ
  view_get_buffer_start_index c = c.row * term_width % u32_mod

  abbrev pub vb_set_value : ℕ → ℕ → Console D → Console D
  vb_set_value index value c = record c { pages = put_cell c.pages index value }

  abbrev pub shown_cells : Console D → ℕ → ℕ
  shown_cells c i =
      if ltb i vb_size
      then c.pages ((view_get_buffer_start_index c + i) % u32_mod)
      else c.platform_vb i

  unfoldable pub render_screen : Console D → Console D
  render_screen c = record c { platform_vb = shown_cells c }

  -- A round of the loop of __view_shift; the flag says that it has returned.
  unfoldable pub shift_step : ShiftDirection → Console D → Console D × Bool
  unfolding vb_shift_pages
  shift_step shift_direction_up c =
      let moved = record c { y = c.y - 1; row = (c.row + 1) % u32_mod } in
      let num_rows = c.num_pages * term_height in
      let scrolled = record (vb_shift_pages moved) { row = wrapped_row c.num_pages } in
      if c.y == 0
      then (record c { y = 0; on_screen = true }, true)
      else if geb_int ((moved.row + c.height) % u32_mod) num_rows
      then (scrolled, false)
      else (moved, false)
  shift_step shift_direction_down c =
      let up = (c.row + (u32_mod - 1)) % u32_mod in
      if is_negative up
      then (record c { row = 0 }, false)
      else (record c { row = up; y = c.y + 1 }, false)

  unfoldable pub shift_loop : ShiftDirection → ℕ → Console D → Console D × Bool
  shift_loop dir zero c = (c, false)
  shift_loop dir (suc left) c =
      let round = shift_step dir c in
      let rest = shift_loop dir left round.0 in if round.1 then round else rest

module _ (v : Ports) where
  abbrev pub S : Type 0
  S = Console v.State

  -- The position is an int16_t.
  unfoldable pub render_cursor : S → S
  render_cursor c =
      let pos = (c.y * term_width + c.x) % 2 ^ 16 in
      if leb vb_size pos && ltb pos (2 ^ 15) then c else record c {
        devices =
            v.outb 0x3D5 (pos / 2 ^ 8 % 256)
              (v.outb 0x3D4 0x0E (v.outb 0x3D5 (pos % 256) (v.outb 0x3D4 0x0F c.devices)));
      }

  unfoldable pub view_shift : ShiftDirection → ℕ → S → S
  view_shift dir amt c =
      let (c', returned) = shift_loop dir amt c in
      let shown = record c' { on_screen = ltb 0 c'.y && ltb c'.y term_height } in
      if returned then c' else render_cursor (render_screen shown)

  unfoldable pub tio_init : S → S
  tio_init c =
      let blank = create_vga_entry b' ' vga_color_black in
      let page : ℕ → ℕ = λ k. if ltb k vb_size then blank else c.blank_buffer_page k in
      record c {
        blank_buffer_page = page;
        num_pages = fvb_pages;
        pages = λ k. if ltb k (fvb_pages * vb_size) then page (k % vb_size) else c.pages k;
        row = 0;
        height = term_height;
        width = term_width;
        x = 0;
        y = 0;
        on_screen = true;
      }

  unfoldable pub cursor_inc : S → S
  cursor_inc c =
      let moved =
        if leb term_width (c.x + 1)
        then record c { x = 0; y = c.y + 1 }
        else record c { x = c.x + 1 } in
      render_cursor
        (if leb (term_height - 1) moved.y then view_shift shift_direction_up 1 moved else moved)

  unfoldable pub cursor_dec : S → S
  cursor_dec c =
      render_cursor (
        if c.x == 0 then record c { x = term_width - 1; y = c.y - 1 } else record c { x = c.x - 1 })

  unfoldable pub tio_try_cursor_inc : ℕ → ℕ → S → S × Bool
  tio_try_cursor_inc chars_typed padding_front c =
      if ltb c.x (padding_front + chars_typed - 1) then (cursor_inc c, true) else (c, false)

  unfoldable pub tio_try_cursor_dec : ℕ → S → S × Bool
  tio_try_cursor_dec padding_size c =
      if leb c.x padding_size then (c, false) else (cursor_dec c, true)

  -- `cursor.y - TERM_HEIGHT+1`, passed as a uint32_t.
  abbrev pub lines_below : S → ℕ
  lines_below c = (c.y + u32_mod - term_height + 1) % u32_mod

  -- A character that is shown: to the video memory, and to the buffer once the view shows it.
  unfoldable pub place_char : ℕ → S → S
  place_char vga_entry c =
      let drawn = record c {
        platform_vb = put_cell c.platform_vb (cursor_get_index c) vga_entry;
      } in
      let seen =
        if c.on_screen then drawn else view_shift shift_direction_up (lines_below drawn) drawn in
      render_cursor (cursor_inc (vb_set_value (cursor_get_index_in_buffer seen) vga_entry seen))

  unfoldable pub new_line : S → S
  new_line c =
      let moved = record c { y = c.y + 1; x = 0 } in
      if leb (term_height - 1) moved.y then view_shift shift_direction_up 1 moved else moved

  unfoldable pub tio_write_char_color : ℕ → VgaColor → S → S
  tio_write_char_color character vc c =
      if character == b'\n'
      then new_line c
      else if character == b'\r'
      then record c { x = 0 }
      else place_char (create_vga_entry character vc) c

  -- The walk over the string ends at its NUL; `none` is fuel that has run out.
  unfoldable pub tio_write_color : ℕ → Mem → ℕ → VgaColor → S → Option S
  tio_write_color zero m string vc c = none
  tio_write_color (suc fuel) m string vc c =
      let rest = tio_write_color fuel m (string + 1) vc (tio_write_char_color (m string) vc c) in
      if m string == 0 then some c else rest

  unfoldable pub tio_write : ℕ → Mem → ℕ → S → Option S
  tio_write fuel m string c = tio_write_color fuel m string vga_color_white c

  unfoldable pub tio_backspace : S → S
  tio_backspace c =
      let back = cursor_dec c in
      vb_set_value (cursor_get_index_in_buffer back) (back.platform_vb (cursor_get_index back)) back

  unfoldable pub tio_enable_cursor : v.State → v.State
  tio_enable_cursor s =
      let (start, s1) = v.inb 0x3D5 (v.outb 0x3D4 0x0A s) in
      let s2 = v.outb 0x3D4 0x0B (v.outb 0x3D5 (bit_or (bit_and start 0xC0) 0) s1) in
      let (end, s3) = v.inb 0x3D5 s2 in v.outb 0x3D5 (bit_or (bit_and end 0xE0) 15) s3
