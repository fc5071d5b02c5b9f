-- ===== src/Console/Writes.antt =====
-- What stands on the screen after the calls of kernel/console.c.
use Prim.Native.Nat.{min}
use bumbel_bee.Base.{
  drop, keep, length, length-append, length-keep, ap₂, ◌∙◌, true, false, ℕ, ◌+◌, ◌-◌, ◌≤◌, ◌<◌, ◌≡◌,
  refl, Bool, List, [], ◌∷◌, ltb, ==_iff, ne→==, if◌then◌else◌, ap, u32, ◌^◌, arith,
}
use bumbel_bee.Data.{Kernel}
use bumbel_bee.Mouse.{MouseState}
use bumbel_bee.Console.{
  Console, visible_width, visible_height, max_viewport_offset, log_reset, log_char,
}
use bumbel_bee.Console.Screen.{render_output}
use native.Mathlib.Decide.{ℕ_discrete}
use bumbel_bee.Console.Output.{
  Delta, up, down, scrolled, console_clear, console_putc, console_write, console_scroll,
}
use bumbel_bee.Console.Lines.{History, typed, Follows}
use bumbel_bee.Console.Typing.{log_char-Follows}
use bumbel_bee.Console.Shown.{Shows, length-kept, render_output-Shows, render_output-offset}

unfoldable pub typed_all : List ℕ → History → History
typed_all [] h = h
typed_all (c ∷ cs) h = typed_all cs (typed (visible_width h.gui) c h)

console_write-Follows :
    (k : Kernel) (mouse : MouseState) (c : ℕ) (cs : List ℕ) (s : Console) (h : History)
    → Follows s h
    → let s' = console_write k mouse (c ∷ cs) s in
      Follows s' (typed_all (c ∷ cs) h) × Shows s' (typed_all (c ∷ cs) h)
unfolding console_write typed_all console_putc
console_write-Follows k mouse c [] s h f =
    render_output-Shows k mouse (log_char c s) (typed (visible_width h.gui) c h)
      (log_char-Follows s h c f)
console_write-Follows k mouse c (d ∷ cs) s h f =
    console_write-Follows k mouse d cs (console_putc k mouse c s) (typed (visible_width h.gui) c h)
      (render_output-Shows k mouse (log_char c s) (typed (visible_width h.gui) c h)
        (log_char-Follows s h c f)).0

abbrev pub no_lines : Bool → History
no_lines gui = record { gui = gui; done = []; cur = [] }

log_reset-Follows : (s : Console) → Follows (log_reset s) (no_lines s.gui_mode)
unfolding log_reset drop
log_reset-Follows s = record {
  gui = refl;
  scrolled = omega arith;
  start = omega arith;
  some_line = omega arith;
  room = omega arith;
  done = refl;
  cur = refl;
  short = omega arith;
}

-- On a screen that is cleared, a text that is not empty stands as its lines: the log keeps the last
-- 512 of them, and the last of those that fit are shown, each with blanks behind its end. `typed`
-- says what a character does to the lines; a line that would fill the width is ended one place
-- before, its last character replaced by a backslash.
pub cleared_text-Shows :
    (k : Kernel) (mouse : MouseState) (c : ℕ) (cs : List ℕ) (s : Console)
    → let s' = console_write k mouse (c ∷ cs) (console_clear k mouse s) in
      let h = typed_all (c ∷ cs) (no_lines s.gui_mode) in Follows s' h × Shows s' h
unfolding console_clear
cleared_text-Shows k mouse c cs s =
    console_write-Follows k mouse c cs (render_output k mouse (log_reset s)) (no_lines s.gui_mode)
      (render_output-Shows k mouse (log_reset s) (no_lines s.gui_mode) (log_reset-Follows s)).0

-- How many of the lines stand above the screen, where the last ones are shown: the log keeps 512
-- lines, and the screen has 19 rows for them, or 25 without the frame.
abbrev pub lines_above : History → ℕ
lines_above h = min (length h.done) 511 + 1 - (if h.gui then 19 else 25)

visible_height_lem : (gui : Bool) → visible_height gui ≡ (if gui then 19 else 25)
visible_height_lem true = refl
visible_height_lem false = refl

max_viewport_offset_lem :
    (s : Console) (h : History) → Follows s h → max_viewport_offset s ≡ lines_above h
max_viewport_offset_lem s h f =
    let rows : visible_height s.gui_mode ≡ (if h.gui then 19 else 25) =
      ap visible_height f.gui ∙ visible_height_lem h.gui in
    let lines : s.log_count ≡ min (length h.done) 511 + 1 = omega (
      arith,
      length-kept s h f,
      length-append (keep 511 h.done) (h.cur ∷ []),
      length-keep 511 h.done,
    ) in
    above (visible_height s.gui_mode) s.log_count ∙ ap₂ ◌-◌ lines rows
  where
    above : (n c : ℕ) → (if ltb n c then c - n else 0) ≡ c - n
    above n c = ground arith

-- the offset after a scroll, between 0 and the most there is
abbrev pub moved : Delta → ℕ → ℕ → ℕ
moved (up amount) most offset = min (offset + amount) most
moved (down amount) most offset = offset - amount

-- the size of an argument of type int
abbrev pub size : Delta → ℕ
size (up amount) = amount
size (down amount) = amount

abbrev scrolled_to : ℕ → Console → Console
scrolled_to offset s = record s { viewport_offset = offset }

scrolled_lem :
    (delta : Delta) (s : Console)
    → s.viewport_offset ≤ max_viewport_offset s
    → max_viewport_offset s ≤ 512
    → size delta < 2 ^ 31
    → scrolled delta s ≡ scrolled_to (moved delta (max_viewport_offset s) s.viewport_offset) s
scrolled_lem (up amount) s fits small int = elim (ℕ_discrete amount 0) [
  | yes e ↦ rw ((==_iff amount 0).1 e) (ap (λ o. scrolled_to o s) (omega (arith, e, fits)))
  | no ne ↦
      rw (ne→== amount 0 ne) (ap (λ o. scrolled_to o s) (up_lem (max_viewport_offset s) fits small))
]
  where
    up_lem :
        (most : ℕ)
        → s.viewport_offset ≤ most
        → most ≤ 512
        → (if ltb most (u32 (s.viewport_offset + amount))
            then most
            else u32 (s.viewport_offset + amount))
          ≡ min (s.viewport_offset + amount) most
    up_lem most le bound = ground (arith, int)
scrolled_lem (down amount) s fits small int = ap (λ o. scrolled_to o s) down_lem
  where
    down_lem :
        (if ltb s.viewport_offset amount then 0 else s.viewport_offset - amount)
        ≡ s.viewport_offset - amount
    down_lem = ground arith

moved-le : (delta : Delta) (most offset : ℕ) → offset ≤ most → moved delta most offset ≤ most
moved-le (up amount) most offset h = omega arith
moved-le (down amount) most offset h = omega arith

scrolled_to-Follows :
    (s : Console) (h : History) (offset : ℕ)
    → Follows s h
    → offset ≤ 512
    → Follows (scrolled_to offset s) h
scrolled_to-Follows s h offset f le = record {
  gui = f.gui;
  scrolled = le;
  start = f.start;
  some_line = f.some_line;
  room = f.room;
  done = f.done;
  cur = f.cur;
  short = f.short;
}

-- The same with what the code takes for the most lines.
scroll_lem :
    (k : Kernel) (mouse : MouseState) (delta : Delta) (s : Console) (h : History)
    → Follows s h
    → s.viewport_offset ≤ max_viewport_offset s
    → size delta < 2 ^ 31
    → let s' = console_scroll k mouse delta s in
      Follows s' h
      × Shows s' h
      × (s'.viewport_offset ≡ moved delta (max_viewport_offset s) s.viewport_offset)
      × (s'.viewport_offset ≤ max_viewport_offset s')
unfolding console_scroll
scroll_lem k mouse delta s h f fits int =
    let most = max_viewport_offset s in
    let offset = moved delta most s.viewport_offset in
    let small : most ≤ 512 = ground (arith, f.room) in
    let le : offset ≤ most = moved-le delta most s.viewport_offset fits in
    let (g, shows) =
      render_output-Shows k mouse (scrolled_to offset s) h
        (scrolled_to-Follows s h offset f (omega (arith, le, small))) in
    let (same, range) = render_output-offset k mouse (scrolled_to offset s) in
    rw (scrolled_lem delta s fits small int) (g, shows, same, rw (same, range) le)

-- From an offset of at most as many lines as stand above the screen (of the 512 that the log keeps),
-- scrolling ends at such an offset, which moved by the lines asked for where there are so many, and
-- to the first or the last of them where not. No line is changed, and the screen shows the lines
-- there.
pub console_scroll-Shows :
    (k : Kernel) (mouse : MouseState) (delta : Delta) (s : Console) (h : History)
    → Follows s h
    → s.viewport_offset ≤ lines_above h
    → size delta < 2 ^ 31
    → let s' = console_scroll k mouse delta s in
      Follows s' h
      × Shows s' h
      × (s'.viewport_offset ≡ moved delta (lines_above h) s.viewport_offset)
      × (s'.viewport_offset ≤ lines_above h)
unfolding console_scroll
console_scroll-Shows k mouse delta s h f fits int =
    let above = max_viewport_offset_lem s h f in
    let (g, shows, same, range) = scroll_lem k mouse delta s h f (omega (arith, above, fits)) int in
    let to : (console_scroll k mouse delta s).viewport_offset
        ≡ moved delta (lines_above h) s.viewport_offset =
      same ∙ ap (λ most. moved delta most s.viewport_offset) above in
    (g, shows, to, omega (arith, to, moved-le delta (lines_above h) s.viewport_offset fits))
