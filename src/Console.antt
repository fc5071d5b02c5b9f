-- ===== src/Console.antt =====
-- kernel/console.c: the log of lines behind the screen. A line is an array of characters with its
-- length beside it. What is drawn is Console/Screen, and the calls that draw are Console/Output.
pub mod Chrome
pub mod Screen
pub mod Output
pub mod Lines
pub mod Typing
pub mod Cells
pub mod Shown
pub mod Writes
pub mod Prints
use bumbel_bee.Base.{ℕ, ◌+◌, ◌-◌, ◌%◌, Bool, Array, write, ◌==◌, ltb, leb, if◌then◌else◌, u32}

abbrev pub screen_w : ℕ
screen_w = 80

abbrev pub screen_h : ℕ
screen_h = 25

abbrev pub gui_left : ℕ
gui_left = 4

abbrev pub gui_top : ℕ
gui_top = 3

abbrev pub gui_right : ℕ
gui_right = 76

abbrev pub gui_bottom : ℕ
gui_bottom = 21

abbrev pub log_capacity : ℕ
log_capacity = 512

abbrev pub log_line_max : ℕ
log_line_max = 160

-- The static variables, with the characters on the screen, each a byte below its attribute.
pub record Console : Type 0 where
  pub gui_mode : Bool
  pub log_lines : Array (Array ℕ)
  pub log_lens : Array ℕ
  pub log_start : ℕ
  pub log_count : ℕ
  pub viewport_offset : ℕ
  pub row : ℕ
  pub col : ℕ
  pub vga : Array ℕ

abbrev pub current_log_index : Console → ℕ
current_log_index s = u32 (s.log_start + s.log_count - 1) % log_capacity

abbrev pub visible_width : Bool → ℕ
visible_width gui = if gui then gui_right - gui_left + 1 else screen_w

abbrev pub visible_height : Bool → ℕ
visible_height gui = if gui then gui_bottom - gui_top + 1 else screen_h

abbrev pub max_viewport_offset : Console → ℕ
max_viewport_offset s =
    if ltb (visible_height s.gui_mode) s.log_count
    then s.log_count - visible_height s.gui_mode
    else 0

-- Line `idx` gets the length `n`, and a terminator there.
abbrev pub cut_line : ℕ → ℕ → Console → Console
cut_line idx n s = record s {
  log_lines = write s.log_lines idx (write (s.log_lines idx) n 0);
  log_lens = write s.log_lens idx n;
}

unfoldable pub log_reset : Console → Console
log_reset s = record s {
  log_lines = λ i j. 0;
  log_lens = λ i. 0;
  log_start = 0;
  log_count = 1;
  viewport_offset = 0;
}

unfoldable pub log_newline : Console → Console
log_newline s =
    let bottom = record s { viewport_offset = 0 } in
    let longer = record bottom { log_count = s.log_count + 1 } in
    let moved = record bottom { log_start = u32 (s.log_start + 1) % log_capacity } in
    if ltb s.log_count log_capacity
    then cut_line (u32 (s.log_start + s.log_count) % log_capacity) 0 longer
    else cut_line (current_log_index moved) 0 moved

-- the end of `log_put_char`
abbrev pub store_char : ℕ → Console → Console
store_char c s =
    let idx = current_log_index s in
    let len = s.log_lens idx in
    let stored = record s { log_lines = write s.log_lines idx (write (s.log_lines idx) len c) } in
    if ltb (len + 1) log_line_max then cut_line idx (len + 1) stored else s

-- The mark of a line that goes on, in the last but one of its places.
abbrev pub mark_wrapped : ℕ → ℕ → Console → Console
mark_wrapped idx width s =
    let marked = write (s.log_lines idx) (width - 2) b'\\' in
    if ltb 3 width
    then cut_line idx (width - 1) (record s { log_lines = write s.log_lines idx marked })
    else s

-- the part of `log_put_char` that ends a line without room
unfoldable pub end_full_line : ℕ → Console → Console
unfolding log_newline
end_full_line width s =
    let idx = current_log_index s in
    if leb width (s.log_lens idx)
    then log_newline s
    else (if s.log_lens idx == width - 1 then log_newline (mark_wrapped idx width s) else s)

unfoldable pub log_put_char : ℕ → Console → Console
unfolding end_full_line
log_put_char c s = store_char c (end_full_line (visible_width s.gui_mode) s)

-- the part of `console_putc` before the screen is drawn
unfoldable pub log_char : ℕ → Console → Console
unfolding log_newline log_put_char
log_char c s =
    let idx = current_log_index s in
    if c == 10
    then log_newline s
    else (if c == 13
        then cut_line idx 0 s
        else (if c == 8
            then (if ltb 0 (s.log_lens idx) then cut_line idx (s.log_lens idx - 1) s else s)
            else log_put_char c s))
