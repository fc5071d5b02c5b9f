-- ===== src/Console/Screen.antt =====
-- kernel/console.c: the frame, the lines of the log inside it, and the cursor.
use bumbel_bee.Base.{
  ℕ, zero, suc, ◌+◌, ◌-◌, ◌*◌, ◌%◌, Bool, Array, ◌==◌, ltb, leb, if◌then◌else◌, u32,
}
use bumbel_bee.Data.{Kernel}
use bumbel_bee.Mouse.{MouseState}
use bumbel_bee.Console.{
  Console, screen_w, screen_h, gui_left, gui_top, gui_right, gui_bottom, log_capacity,
  current_log_index, visible_width, visible_height,
}
use bumbel_bee.Console.Chrome.{put_at, fill_row, fill_rows, refresh_gui_chrome}

-- the two columns beside the log, and the two rows above and below it
frame_sides : ℕ → ℕ → Array ℕ → Array ℕ
frame_sides zero r vga = vga
frame_sides (suc n) r vga =
    frame_sides n (r + 1) (put_at r (gui_right + 1) 32 0x70 (put_at r (gui_left - 2) 32 0x70 vga))

frame_ends : ℕ → ℕ → Array ℕ → Array ℕ
frame_ends zero c vga = vga
frame_ends (suc n) c vga =
    frame_ends n (c + 1) (put_at (gui_bottom + 1) c 32 0x70 (put_at (gui_top - 1) c 32 0x70 vga))

abbrev pub text_color : ℕ
text_color = 0x0f

unfoldable pub draw_frame : Kernel → MouseState → Console → Array ℕ
unfolding fill_row fill_rows frame_sides frame_ends refresh_gui_chrome
draw_frame k mouse s =
    let plain = fill_rows 0 screen_h 0 screen_w 0x17 s.vga in
    let sides = frame_sides (gui_bottom + 1 - (gui_top - 1) + 1) (gui_top - 1) plain in
    let ends = frame_ends (gui_right - (gui_left - 1) + 1) (gui_left - 1) sides in
    let framed =
      fill_rows gui_top (gui_bottom - gui_top + 1) gui_left (gui_right - gui_left + 1) 0x1f ends in
    if s.gui_mode
    then refresh_gui_chrome k mouse (record s { vga = framed })
    else fill_row 0 0 (screen_w * screen_h) text_color s.vga

-- the characters of a line, from the column `c` of the line on, with `n` places left
unfoldable pub draw_chars : ℕ → ℕ → ℕ → ℕ → Array ℕ → ℕ → Array ℕ → Array ℕ
draw_chars r c0 c zero chars attr vga = vga
draw_chars r c0 c (suc n) chars attr vga =
    draw_chars r c0 (c + 1) n chars attr (put_at r (c0 + c) (chars c) attr vga)

abbrev pub content_row0 : Bool → ℕ
content_row0 gui = if gui then gui_top else 0

abbrev pub content_col0 : Bool → ℕ
content_col0 gui = if gui then gui_left else 0

abbrev pub log_attr : Bool → ℕ
log_attr gui = if gui then 0x1f else text_color

abbrev pub smaller : ℕ → ℕ → ℕ
smaller a b = if ltb a b then a else b

-- One round of the loop over the rows.
unfoldable pub draw_row : ℕ → ℕ → Console → Array ℕ → Array ℕ
unfolding fill_row draw_chars
draw_row start_line view s vga =
    let r = content_row0 s.gui_mode + view in
    let c0 = content_col0 s.gui_mode in
    let attr = log_attr s.gui_mode in
    let width = visible_width s.gui_mode in
    let logical = u32 (start_line + view) in
    let idx = u32 (s.log_start + logical) % log_capacity in
    let blank = fill_row r c0 width attr vga in
    if leb s.log_count logical
    then blank
    else draw_chars r c0 0 (smaller (s.log_lens idx) width) (s.log_lines idx) attr blank

unfoldable pub draw_rows : ℕ → ℕ → ℕ → Console → Array ℕ → Array ℕ
unfolding draw_row
draw_rows zero view start_line s vga = vga
draw_rows (suc n) view start_line s vga =
    draw_rows n (view + 1) start_line s (draw_row start_line view s vga)

abbrev pub first_line : Console → ℕ
first_line s =
    let height = visible_height s.gui_mode in
    if ltb (u32 (height + s.viewport_offset)) s.log_count
    then s.log_count - height - s.viewport_offset
    else 0

-- Where the cursor is put. Showing it is a write to its ports.
abbrev pub place_cursor : Console → Console
place_cursor s =
    let width = visible_width s.gui_mode in
    let height = visible_height s.gui_mode in
    let current_len = s.log_lens (current_log_index s) in
    let lines = smaller s.log_count height in
    let used_lines = if lines == 0 then 1 else lines in
    let row0 = content_row0 s.gui_mode in
    let col0 = content_col0 s.gui_mode in
    if s.viewport_offset == 0
    then record s {
      row = row0 + used_lines - 1;
      col = col0 + (if ltb current_len width then current_len else width - 1);
    }
    else record s { row = row0 + height - 1; col = col0 }

unfoldable pub render_output : Kernel → MouseState → Console → Console
unfolding draw_frame draw_rows
render_output k mouse s =
    let height = visible_height s.gui_mode in
    let framed = draw_frame k mouse s in
    place_cursor (record s { vga = draw_rows height 0 (first_line s) s framed })
