-- ===== src/Tests/Written.antt =====
-- The theorems on the console, applied to a short text on a cleared screen, and to a scroll.
use bumbel_bee.Base.{ℕ, zero, suc, ◌≡◌, ◌≤◌, refl, false, drop, true, List, [], ◌∷◌, codes, arith}
use bumbel_bee.Mouse.{MouseState}
use bumbel_bee.Console.{Console}
use bumbel_bee.Console.Output.{up, console_clear, console_write, console_scroll}
use bumbel_bee.Console.Lines.{History, Follows}
use bumbel_bee.Console.Shown.{Shows}
use bumbel_bee.Console.Writes.{
  typed_all, no_lines, lines_above, moved, cleared_text-Shows, console_scroll-Shows,
}
use bumbel_bee.Tests.Sample.{booted}

abbrev pub no_mouse : MouseState
no_mouse = record {
  present = false;
  x = 0;
  y = 0;
  buttons = 0;
  packets = 0;
  packet = λ i. 0;
  packet_index = 0;
}

abbrev pub dark : Console
dark = record {
  gui_mode = true;
  log_lines = λ i j. 0;
  log_lens = λ i. 0;
  log_start = 0;
  log_count = 1;
  viewport_offset = 0;
  row = 0;
  col = 0;
  vga = λ i. 0;
}

cleared_text-Shows_example :
    let s' = console_write booted no_mouse (codes "ok\n>") (console_clear booted no_mouse dark) in
    Follows s' (typed_all (codes "ok\n>") (no_lines true))
    × Shows s' (typed_all (codes "ok\n>") (no_lines true))
cleared_text-Shows_example = cleared_text-Shows booted no_mouse 111 (codes "k\n>") dark

-- two lines, the first of them done
two_lines :
    typed_all (codes "ok\n>") (no_lines true)
    ≡ record { gui = true; done = codes "ok" ∷ []; cur = codes ">" }
unfolding typed_all
two_lines = refl

-- A log of 100 lines, all empty, in a window of 19 rows.
abbrev long : Console
long = record dark { log_count = 100; viewport_offset = 80 }

abbrev empty_lines : ℕ → List (List ℕ)
empty_lines zero = []
empty_lines (suc n) = [] ∷ empty_lines n

abbrev hundred : History
hundred = record { gui = true; done = empty_lines 99; cur = [] }

long-Follows : Follows long hundred
unfolding drop
long-Follows = record {
  gui = refl;
  scrolled = omega arith;
  start = omega arith;
  some_line = omega arith;
  room = omega arith;
  done = refl;
  cur = refl;
  short = omega arith;
}

console_scroll-Shows_example :
    let s' = console_scroll booted no_mouse (up 3) long in
    Follows s' hundred
    × Shows s' hundred
    × (s'.viewport_offset ≡ moved (up 3) (lines_above hundred) 80)
    × (s'.viewport_offset ≤ lines_above hundred)
console_scroll-Shows_example =
    console_scroll-Shows booted no_mouse (up 3) long hundred long-Follows (omega arith)
      (omega arith)

-- Of the three lines asked for, there is one above.
scrolled_by_one : moved (up 3) (lines_above hundred) 80 ≡ 81
scrolled_by_one = refl
