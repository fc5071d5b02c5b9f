-- ===== src/Console/Shown.antt =====
-- What the screen of kernel/console.c shows: the last lines of the log, or those that it was
-- scrolled to.
use bumbel_bee.Base.{
  ℕ, ◌+◌, ◌-◌, ◌≤◌, ◌<◌, ◌≡◌, refl, ◌∙◌, sym, ap, Bool, true, false, Bool-cases, inl, inr, List, [],
  ◌∷◌, ◌++◌, Array, lt→ltb, le→ltb, ltb, if◌then◌else◌, length, get_or, get_or_past, keep, u32,
  arith, ◌==◌,
}
use native.Mathlib.Decide.{dec_lt}
use bumbel_bee.Data.{Kernel}
use bumbel_bee.Mouse.{MouseState}
use bumbel_bee.Ring.{length-window, get_or-window}
use bumbel_bee.Console.{Console, max_viewport_offset, visible_width, visible_height, log_capacity}
use bumbel_bee.Console.Chrome.{cell}
use bumbel_bee.Console.Screen.{
  draw_rows, draw_frame, first_line, place_cursor, render_output, log_attr,
}
use bumbel_bee.Console.Lines.{History, line, Follows, all_lines}
use bumbel_bee.Console.Cells.{place, line_at, draw_rows_inside}

-- the line that the top row of the log shows
abbrev pub top : Bool → ℕ → List (List ℕ) → ℕ
top gui offset lines = length lines - (visible_height gui + offset)

-- all the lines of a text that the log keeps
abbrev kept_lines : History → List (List ℕ)
kept_lines h = keep 511 h.done ++ (h.cur ∷ [])

-- The screen shows the log of a text: as many of the last lines as there are rows, or those that
-- stand `viewport_offset` lines before them.
abbrev pub Shows : Console → History → Type 0
Shows s h =
    (view col : ℕ)
    → view < visible_height h.gui
    → col < visible_width h.gui
    → s.vga (place h.gui view col)
      ≡ cell (log_attr h.gui) (
          get_or (get_or (kept_lines h) (top h.gui s.viewport_offset (kept_lines h) + view) []) col
            32)

pub length-kept : (s : Console) (h : History) → Follows s h → length (kept_lines h) ≡ s.log_count
length-kept s h f =
    sym (ap length (all_lines s h f)) ∙ length-window log_capacity (line s) s.log_start s.log_count

line_at-kept :
    (s : Console) (h : History) (l : ℕ) → Follows s h → line_at s l ≡ get_or (kept_lines h) l []
line_at-kept s h l f = elim (dec_lt l s.log_count) [
  | yes lt ↦ rw (lt→ltb l s.log_count lt) (
      sym (get_or-window log_capacity (line s) s.log_start s.log_count l [] lt)
      ∙ ap (λ ls. get_or ls l []) (all_lines s h f))
  | no ge ↦
      rw (le→ltb l s.log_count (omega (arith, ge)))
        (sym (get_or_past (kept_lines h) l [] (omega (arith, ge, length-kept s h f))))
]

visible_height_le : (gui : Bool) → visible_height gui ≤ 25
visible_height_le true = omega arith
visible_height_le false = omega arith

first_line_lem :
    (s : Console) (h : History)
    → Follows s h
    → first_line s ≡ top s.gui_mode s.viewport_offset (kept_lines h)
first_line_lem s h f = rw (length-kept s h f) (cases (visible_height s.gui_mode) few)
  where
    few : visible_height s.gui_mode ≤ 25
    few = visible_height_le s.gui_mode

    cases :
        (n : ℕ)
        → n ≤ 25
        → (if ltb (u32 (n + s.viewport_offset)) s.log_count
            then s.log_count - n - s.viewport_offset
            else 0)
          ≡ s.log_count - (n + s.viewport_offset)
    cases n le = ground (arith, f.scrolled)

place_cursor-Follows : (s : Console) (h : History) → Follows s h → Follows (place_cursor s) h
place_cursor-Follows s h f = elim (Bool-cases (s.viewport_offset == 0)) [
  | inl bottom ↦ rw bottom (record {
    gui = f.gui;
    scrolled = f.scrolled;
    start = f.start;
    some_line = f.some_line;
    room = f.room;
    done = f.done;
    cur = f.cur;
    short = f.short;
  })
  | inr scrolled ↦ rw scrolled (record {
    gui = f.gui;
    scrolled = f.scrolled;
    start = f.start;
    some_line = f.some_line;
    room = f.room;
    done = f.done;
    cur = f.cur;
    short = f.short;
  })
]

place_cursor-Shows : (s : Console) (h : History) → Shows s h → Shows (place_cursor s) h
place_cursor-Shows s h f = elim (Bool-cases (s.viewport_offset == 0)) [
  | inl bottom ↦ rw bottom f
  | inr scrolled ↦ rw scrolled f
]

drawn-Shows :
    (s : Console) (h : History) (framed : Array ℕ)
    → Follows s h
    → Shows (record s { vga = draw_rows (visible_height s.gui_mode) 0 (first_line s) s framed }) h
drawn-Shows s h framed f view col row_fits fits =
    ap (λ gui. draw_rows (visible_height s.gui_mode) 0 (first_line s) s framed (place gui view col))
      (sym f.gui)
    ∙ ap
        (λ v.
          draw_rows (visible_height s.gui_mode) 0 (first_line s) s framed (place s.gui_mode v col))
        {y = 0 + view} (omega arith)
    ∙ draw_rows_inside s (first_line s) (rw first (omega (arith, f.room, length-kept s h f)))
        f.start (visible_height s.gui_mode) 0 view col framed (rw f.gui row_fits)
        (omega (arith, visible_height_le s.gui_mode)) (rw f.gui fits)
    ∙ ap (λ l. cell (log_attr s.gui_mode) (get_or l col 32))
        (line_at-kept s h (first_line s + (0 + view)) f)
    ∙ ap (λ v. cell (log_attr s.gui_mode) (get_or (get_or (kept_lines h) v []) col 32)) at
    ∙ ap
        (λ gui. cell (log_attr gui) (
          get_or (get_or (kept_lines h) (top gui s.viewport_offset (kept_lines h) + view) []) col
            32))
        f.gui
  where
    first : first_line s ≡ top s.gui_mode s.viewport_offset (kept_lines h)
    first = first_line_lem s h f

    at : first_line s + (0 + view) ≡ top s.gui_mode s.viewport_offset (kept_lines h) + view
    at = ap (λ n. n + (0 + view)) first ∙ omega arith

pub render_output-Shows :
    (k : Kernel) (mouse : MouseState) (s : Console) (h : History)
    → Follows s h
    → Follows (render_output k mouse s) h × Shows (render_output k mouse s) h
unfolding render_output
render_output-Shows k mouse s h f = (
  place_cursor-Follows drawn h (record {
    gui = f.gui;
    scrolled = f.scrolled;
    start = f.start;
    some_line = f.some_line;
    room = f.room;
    done = f.done;
    cur = f.cur;
    short = f.short;
  }),
  place_cursor-Shows drawn h (drawn-Shows s h (draw_frame k mouse s) f),
)
  where
    drawn : Console
    drawn = record s {
      vga = draw_rows (visible_height s.gui_mode) 0 (first_line s) s (draw_frame k mouse s);
    }

place_cursor-offset :
    (s : Console)
    → ((place_cursor s).viewport_offset ≡ s.viewport_offset)
      × (max_viewport_offset (place_cursor s) ≡ max_viewport_offset s)
place_cursor-offset s = elim (Bool-cases (s.viewport_offset == 0)) [
  | inl bottom ↦ rw bottom (refl, refl)
  | inr scrolled ↦ rw scrolled (refl, refl)
]

-- Drawing moves no line, and leaves the offset.
pub render_output-offset :
    (k : Kernel) (mouse : MouseState) (s : Console)
    → let s' = render_output k mouse s in
      (s'.viewport_offset ≡ s.viewport_offset) × (max_viewport_offset s' ≡ max_viewport_offset s)
unfolding render_output
render_output-offset k mouse s = place_cursor-offset (record s {
  vga = draw_rows (visible_height s.gui_mode) 0 (first_line s) s (draw_frame k mouse s);
})
