-- ===== src/Console/Cells.antt =====
-- The places of the screen that the drawing loops of kernel/console.c write.
use bumbel_bee.Base.{
  ℕ, zero, suc, ◌+◌, ◌*◌, ◌%◌, ◌^◌, ◌≤◌, ◌<◌, ◌≡◌, refl, ◌∙◌, sym, ap, Bool, true, false,
  Bool-cases, inl, inr, List, [], ◌⊎◌, Array, write_self, write_ne, slice, length-slice, lt→ltb,
  le→ltb, le→leb, lt→leb, ltb, leb, if◌then◌else◌, get_or, get_or_past, get_or-slice, u32, arith,
}
use native.Mathlib.Decide.{dec_lt}
use bumbel_bee.Console.{Console, visible_width, log_capacity}
use bumbel_bee.Console.Chrome.{cell, put_at, fill_row}
use bumbel_bee.Console.Screen.{
  draw_chars, draw_row, draw_rows, content_row0, content_col0, log_attr, smaller,
}
use bumbel_bee.Console.Lines.{line}

-- A place outside the `n` places from `at` on.
abbrev Outside : ℕ → ℕ → ℕ → Type 0
Outside at n p = (p < at) ⊎ (at + n ≤ p)

fill_row-Outside :
    (r c n attr : ℕ) (vga : Array ℕ) (p : ℕ)
    → Outside (r * 80 + c) n p
    → fill_row r c n attr vga p ≡ vga p
unfolding fill_row
fill_row-Outside r c zero attr vga p h = refl
fill_row-Outside r c (suc n) attr vga p h =
    fill_row-Outside r (c + 1) n attr (put_at r c 32 attr vga) p (ground arith)
    ∙ write_ne vga (r * 80 + c) p (cell attr 32) (ground arith)

fill_row_inside :
    (r c n attr : ℕ) (vga : Array ℕ) (j : ℕ)
    → j < n
    → fill_row r c n attr vga (r * 80 + c + j) ≡ cell attr 32
unfolding fill_row
fill_row_inside r c zero attr vga j h = absurd (omega arith)
fill_row_inside r c (suc n) attr vga zero h =
    fill_row-Outside r (c + 1) n attr (put_at r c 32 attr vga) (r * 80 + c + 0) (inl (omega arith))
    ∙ ap (put_at r c 32 attr vga) (omega arith)
    ∙ write_self vga (r * 80 + c) (cell attr 32)
fill_row_inside r c (suc n) attr vga (suc j) h =
    ap (fill_row r (c + 1) n attr (put_at r c 32 attr vga)) (omega arith)
    ∙ fill_row_inside r (c + 1) n attr (put_at r c 32 attr vga) j (omega arith)

draw_chars-Outside :
    (r c0 c n : ℕ) (chars : Array ℕ) (attr : ℕ) (vga : Array ℕ) (p : ℕ)
    → Outside (r * 80 + c0 + c) n p
    → draw_chars r c0 c n chars attr vga p ≡ vga p
unfolding draw_chars
draw_chars-Outside r c0 c zero chars attr vga p h = refl
draw_chars-Outside r c0 c (suc n) chars attr vga p h =
    draw_chars-Outside r c0 (c + 1) n chars attr (put_at r (c0 + c) (chars c) attr vga) p
      (ground arith)
    ∙ write_ne vga (r * 80 + (c0 + c)) p (cell attr (chars c)) (ground arith)

draw_chars_inside :
    (r c0 c n : ℕ) (chars : Array ℕ) (attr : ℕ) (vga : Array ℕ) (j : ℕ)
    → j < n
    → draw_chars r c0 c n chars attr vga (r * 80 + c0 + c + j) ≡ cell attr (chars (c + j))
unfolding draw_chars
draw_chars_inside r c0 c zero chars attr vga j h = absurd (omega arith)
draw_chars_inside r c0 c (suc n) chars attr vga zero h =
    draw_chars-Outside r c0 (c + 1) n chars attr (put_at r (c0 + c) (chars c) attr vga)
      (r * 80 + c0 + c + 0) (inl (omega arith))
    ∙ ap (put_at r (c0 + c) (chars c) attr vga) (omega arith)
    ∙ write_self vga (r * 80 + (c0 + c)) (cell attr (chars c))
    ∙ ap (λ i. cell attr (chars i)) (omega arith)
draw_chars_inside r c0 c (suc n) chars attr vga (suc j) h =
    ap (draw_chars r c0 (c + 1) n chars attr (put_at r (c0 + c) (chars c) attr vga)) (omega arith)
    ∙ draw_chars_inside r c0 (c + 1) n chars attr (put_at r (c0 + c) (chars c) attr vga) j
        (omega arith)
    ∙ ap (λ i. cell attr (chars i)) (omega arith)

-- the line at a place in the log, empty beyond its end
abbrev pub line_at : Console → ℕ → List ℕ
line_at s l = if ltb l s.log_count then line s ((s.log_start + l) % log_capacity) else []

-- the place of a column of the log in a row of it
abbrev pub place : Bool → ℕ → ℕ → ℕ
place gui view col = (content_row0 gui + view) * 80 + content_col0 gui + col

-- a row with a line in it, blank behind the line's end
drawn_line :
    (r c0 width attr : ℕ) (vga chars : Array ℕ) (len col : ℕ)
    → col < width
    → draw_chars r c0 0
        (smaller len width)
        chars
        attr
        (fill_row r c0 width attr vga)
        (r * 80 + c0 + col)
      ≡ cell attr (get_or (slice chars 0 len) col 32)
drawn_line r c0 width attr vga chars len col fits = elim (dec_lt col (smaller len width)) [
  | yes lt ↦
      ap (draw_chars r c0 0 (smaller len width) chars attr (fill_row r c0 width attr vga))
        (omega arith)
      ∙ draw_chars_inside r c0 0 (smaller len width) chars attr (fill_row r c0 width attr vga) col
          lt
      ∙ ap (cell attr) (sym (get_or-slice chars 0 len col 32 (ground arith)))
  | no ge ↦
      draw_chars-Outside r c0 0 (smaller len width) chars attr (fill_row r c0 width attr vga)
        (r * 80 + c0 + col) (inr (ground arith))
      ∙ fill_row_inside r c0 width attr vga col fits
      ∙ ap (cell attr) (
          sym
            (get_or_past (slice chars 0 len) col 32 (rw (length-slice chars 0 len) (ground arith))))
]

visible_width_fits : (gui : Bool) → content_col0 gui + visible_width gui ≤ 80
visible_width_fits true = omega arith
visible_width_fits false = omega arith

module _ (s : Console) (start_line : ℕ) (bound : start_line < 2 ^ 16)
    (start : s.log_start < 512) where
  draw_row_inside :
      (view col : ℕ) (vga : Array ℕ)
      → view < 25
      → col < visible_width s.gui_mode
      → draw_row start_line view s vga (place s.gui_mode view col)
        ≡ cell (log_attr s.gui_mode) (get_or (line_at s (start_line + view)) col 32)
  unfolding draw_row
  draw_row_inside view col vga few fits = elim (dec_lt l s.log_count) [
    | no past ↦
        rw
          (
            logical,
            le→leb s.log_count l (omega (arith, past)),
            le→ltb l s.log_count (omega (arith, past)),
          )
          (fill_row_inside r c0 width attr vga col fits)
    | yes lt ↦
        rw (logical, lt→leb l s.log_count lt, lt→ltb l s.log_count lt)
          (drawn_line r c0 width attr vga (s.log_lines idx) (s.log_lens idx) col fits
            ∙ ap (λ i. cell attr (get_or (line s i) col 32)) index)
  ]
    where
      l : ℕ
      l = start_line + view

      r : ℕ
      r = content_row0 s.gui_mode + view

      c0 : ℕ
      c0 = content_col0 s.gui_mode

      width : ℕ
      width = visible_width s.gui_mode

      attr : ℕ
      attr = log_attr s.gui_mode

      idx : ℕ
      idx = u32 (s.log_start + l) % log_capacity

      index : idx ≡ (s.log_start + l) % log_capacity
      index = omega (arith, bound, few, start)

      logical : u32 (start_line + view) ≡ start_line + view
      logical = omega (arith, bound, few)

  -- A row leaves alone what stands in front of it.
  draw_row_before :
      (view : ℕ) (vga : Array ℕ) (p : ℕ)
      → p < place s.gui_mode view 0
      → draw_row start_line view s vga p ≡ vga p
  unfolding draw_row
  draw_row_before view vga p lt = elim (Bool-cases (leb s.log_count (u32 (start_line + view)))) [
    | inl past ↦ rw past blank
    | inr inside ↦ rw inside (
        draw_chars-Outside r c0 0 (smaller (s.log_lens idx) width) (s.log_lines idx) attr
          (fill_row r c0 width attr vga) p (inl (omega (arith, lt)))
        ∙ blank)
  ]
    where
      idx : ℕ
      idx = u32 (s.log_start + u32 (start_line + view)) % log_capacity

      r : ℕ
      r = content_row0 s.gui_mode + view

      c0 : ℕ
      c0 = content_col0 s.gui_mode

      width : ℕ
      width = visible_width s.gui_mode

      attr : ℕ
      attr = log_attr s.gui_mode

      blank : fill_row r c0 width attr vga p ≡ vga p
      blank = fill_row-Outside r c0 width attr vga p (inl (omega (arith, lt)))

  draw_rows_before :
      (n view : ℕ) (vga : Array ℕ) (p : ℕ)
      → p < place s.gui_mode view 0
      → draw_rows n view start_line s vga p ≡ vga p
  unfolding draw_rows
  draw_rows_before zero view vga p lt = refl
  draw_rows_before (suc n) view vga p lt =
      draw_rows_before n (view + 1) (draw_row start_line view s vga) p (omega (arith, lt))
      ∙ draw_row_before view vga p lt

  pub draw_rows_inside :
      (n view w col : ℕ) (vga : Array ℕ)
      → w < n
      → view + n ≤ 25
      → col < visible_width s.gui_mode
      → draw_rows n view start_line s vga (place s.gui_mode (view + w) col)
        ≡ cell (log_attr s.gui_mode) (get_or (line_at s (start_line + (view + w))) col 32)
  unfolding draw_rows
  draw_rows_inside zero view w col vga lt few fits = absurd (omega arith)
  draw_rows_inside (suc n) view zero col vga lt few fits =
      draw_rows_before n (view + 1) (draw_row start_line view s vga)
        (place s.gui_mode (view + 0) col) (ends (visible_width_fits s.gui_mode))
      ∙ ap (λ v. draw_row start_line view s vga (place s.gui_mode v col)) (omega arith)
      ∙ draw_row_inside view col vga (omega arith) fits
      ∙ ap (λ v. cell (log_attr s.gui_mode) (get_or (line_at s (start_line + v)) col 32))
          (omega arith)
    where
      ends :
          content_col0 s.gui_mode + visible_width s.gui_mode ≤ 80
          → place s.gui_mode (view + 0) col < place s.gui_mode (view + 1) 0
      ends h = omega (arith, h, fits)
  draw_rows_inside (suc n) view (suc w) col vga lt few fits =
      ap
        (λ v.
          draw_rows n (view + 1) start_line s (draw_row start_line view s vga)
            (place s.gui_mode v col))
        (omega arith)
      ∙ draw_rows_inside n (view + 1) w col (draw_row start_line view s vga) (omega arith)
          (omega arith) fits
      ∙ ap (λ v. cell (log_attr s.gui_mode) (get_or (line_at s (start_line + v)) col 32))
          (omega arith)
