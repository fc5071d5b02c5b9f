-- ===== src/Console/Lines.antt =====
-- The log of kernel/console.c against the lines that a text gives, of which the log keeps the last.
use Prim.Native.Nat.{ℕ}
use bumbel_bee.Base.{
  suc, ◌+◌, ◌-◌, ◌%◌, ◌≤◌, ◌<◌, ◌≡◌, ◌≢◌, refl, ◌∙◌, sym, ap, ap₂, fun_ext, Bool, Bool-cases, inl,
  inr, List, [], ◌∷◌, ◌++◌, write, write_self, ==_iff, lt→ltb, le→ltb, keep_short, keep_full,
  keep-keep, slice, slice_past, ◌==◌, leb, if◌then◌else◌, length, take, keep, u32, arith,
}
use native.Mathlib.Decide.{dec_lt}
use bumbel_bee.Ring.{
  window, window-snoc, window_past, window_mod, window-cons, length-window, IsModulus-512,
}
use bumbel_bee.Console.{Console, current_log_index, cut_line, log_newline, log_capacity}

-- A text as lines on a screen of the given mode: those that are done, and the one that is being
-- written.
pub record History : Type 0 where
  pub gui : Bool
  pub done : List (List ℕ)
  pub cur : List ℕ

-- Without its last element.
abbrev pub drop_last : List ℕ → List ℕ
drop_last cs = take (length cs - 1) cs

abbrev pub start_line : History → History
start_line h = record h { done = h.done ++ (h.cur ∷ []); cur = [] }

-- A line that the next character would fill is ended, its last character replaced by the mark.
abbrev pub end_full : ℕ → History → History
end_full width h =
    if leb width (length h.cur)
    then start_line h
    else (if length h.cur == width - 1
        then start_line (record h { cur = take (width - 2) h.cur ++ (b'\\' ∷ []) })
        else h)

abbrev pub put_char : ℕ → History → History
put_char c h = record h { cur = h.cur ++ (c ∷ []) }

-- What a character does to the lines of a screen of the given width.
abbrev pub typed : ℕ → ℕ → History → History
typed width c h =
    if c == 10
    then start_line h
    else (if c == 13
        then record h { cur = [] }
        else (if c == 8 then record h { cur = drop_last h.cur } else put_char c (end_full width h)))

abbrev pub line : Console → ℕ → List ℕ
line s i = slice (s.log_lines i) 0 (s.log_lens i)

-- The log holds the line that is being written, and of those that are done the last 511.
pub record Follows (s : Console) (h : History) : Type 0 where
  pub gui : s.gui_mode ≡ h.gui
  pub scrolled : s.viewport_offset ≤ log_capacity
  pub start : s.log_start < log_capacity
  pub some_line : 1 ≤ s.log_count
  pub room : s.log_count ≤ log_capacity
  pub done : window log_capacity (line s) s.log_start (s.log_count - 1) ≡ keep 511 h.done
  pub cur : line s (current_log_index s) ≡ h.cur
  pub short : s.log_lens (current_log_index s) ≤ 79

pub cut-line :
    (s t : Console) (idx n : ℕ)
    → ((i : ℕ) → idx ≢ i → t.log_lines i ≡ s.log_lines i)
    → t.log_lens ≡ s.log_lens
    → line (cut_line idx n t) ≡ write (line s) idx (slice (t.log_lines idx) 0 n)
cut-line s t idx n same lens = fun_ext (λ i. elim (Bool-cases (idx == i)) [
  | inl here ↦ rw here (slice_past (t.log_lines idx) 0 n n 0 (omega arith))
  | inr there ↦
      let ne : idx ≢ i = λ e. cc (there, (==_iff idx i).1 e) in
      rw there (ap₂ (λ l k. slice l 0 k) (same i ne) (ap (λ f. f i) lens))
])

-- The same start and number of lines, and a new text in the line that is being written.
pub record Rewritten (s t : Console) (l : List ℕ) : Type 0 where
  pub gui : t.gui_mode ≡ s.gui_mode
  pub offset : t.viewport_offset ≡ s.viewport_offset
  pub start : t.log_start ≡ s.log_start
  pub count : t.log_count ≡ s.log_count
  pub lines : line t ≡ write (line s) (current_log_index s) l
  pub short : t.log_lens (current_log_index s) ≤ 79

pub Rewritten-Follows :
    (s t : Console) (h : History) (l : List ℕ)
    → Follows s h
    → Rewritten s t l
    → Follows t (record h { cur = l })
Rewritten-Follows s t h l f r = record {
  gui = r.gui ∙ f.gui;
  scrolled = rw r.offset f.scrolled;
  start = rw r.start f.start;
  some_line = rw r.count f.some_line;
  room = rw r.count f.room;
  done =
      rw (r.start, r.count, r.lines)
        (window_past log_capacity IsModulus-512 (line s) s.log_start (s.log_count - 1)
            (current_log_index s) l (omega (arith, f.some_line, f.room))
            (omega (arith, f.start, f.room, f.some_line))
          ∙ f.done);
  cur =
      ap line_at same
      ∙ ap (λ a. a (current_log_index s)) r.lines
      ∙ write_self (line s) (current_log_index s) l;
  short = rw same r.short;
}
  where
    line_at : ℕ → List ℕ
    line_at = line t

    same : current_log_index t ≡ current_log_index s
    same = rw (r.start, r.count) refl

-- All the lines of the log, the one that is being written at the end.
pub all_lines :
    (s : Console) (h : History)
    → Follows s h
    → window log_capacity (line s) s.log_start s.log_count ≡ keep 511 h.done ++ (h.cur ∷ [])
all_lines s h f =
    ap (window log_capacity (line s) s.log_start) {y = suc (s.log_count - 1)}
      (omega (arith, f.some_line))
    ∙ window-snoc log_capacity (line s) s.log_start (s.log_count - 1)
    ∙ ap₂ (λ l x. l ++ (x ∷ [])) f.done (ap (line s) index ∙ f.cur)
  where
    index : (s.log_start + (s.log_count - 1)) % log_capacity ≡ current_log_index s
    index = omega (arith, f.start, f.some_line, f.room)

-- An empty line at the end of the log.
fresh_line-Follows :
    (t : Console) (h : History) (idx : ℕ) (done : List (List ℕ))
    → t.gui_mode ≡ h.gui
    → t.viewport_offset ≤ log_capacity
    → t.log_start < log_capacity
    → 1 ≤ t.log_count
    → t.log_count ≤ log_capacity
    → idx ≡ current_log_index t
    → window log_capacity (line t) t.log_start (t.log_count - 1) ≡ keep 511 done
    → Follows (cut_line idx 0 t) (record h { done = done; cur = [] })
fresh_line-Follows t h idx done gui scrolled start some_line room at d = record {
  gui = gui;
  scrolled = scrolled;
  start = start;
  some_line = some_line;
  room = room;
  done = rw cut (
      window_past log_capacity IsModulus-512 (line t) t.log_start (t.log_count - 1) idx []
        (omega (arith, some_line, room)) (at ∙ omega (arith, start, some_line, room))
      ∙ d);
  cur =
      ap (λ a. a (current_log_index t)) cut
      ∙ ap (write (line t) idx []) (sym at)
      ∙ write_self (line t) idx [];
  short = rw (← at) (rw (write_self t.log_lens idx 0) (omega arith));
}
  where
    cut : line (cut_line idx 0 t) ≡ write (line t) idx []
    cut = cut-line t t idx 0 (λ i ne. refl) refl

pub new_line-Follows :
    (s : Console) (h : History) → Follows s h → Follows (log_newline s) (start_line h)
unfolding log_newline
new_line-Follows s h f = elim (dec_lt s.log_count log_capacity) [
  | yes lt ↦ rw (lt→ltb s.log_count log_capacity lt) (
      fresh_line-Follows (record s { viewport_offset = 0; log_count = s.log_count + 1 }) h _ all
        f.gui (omega arith) f.start (omega arith) (omega (arith, lt))
        (ap (λ n. u32 n % log_capacity) (omega arith))
        (ap (window log_capacity (line s) s.log_start) {y = s.log_count} (omega arith)
          ∙ whole
          ∙ sym (
              keep_short 511 (keep 511 h.done ++ (h.cur ∷ []))
                (omega (arith, lt, ap length whole, count)))
          ∙ keep-keep 511 h.done (h.cur ∷ [])))
  | no ge ↦ rw (le→ltb s.log_count log_capacity (omega (arith, ge))) (
      fresh_line-Follows
        (record s { viewport_offset = 0; log_start = u32 (s.log_start + 1) % log_capacity }) h _ all
        f.gui (omega arith) (omega arith) f.some_line f.room refl
        (shifted (omega (arith, ge, f.room))))
]
  where
    all : List (List ℕ)
    all = h.done ++ (h.cur ∷ [])

    whole : window log_capacity (line s) s.log_start s.log_count ≡ keep 511 h.done ++ (h.cur ∷ [])
    whole = all_lines s h f

    count : length (window log_capacity (line s) s.log_start s.log_count) ≡ s.log_count
    count = length-window log_capacity (line s) s.log_start s.log_count

    next : List (List ℕ)
    next = window log_capacity (line s) (s.log_start + 1) (s.log_count - 1)

    shifted :
        s.log_count ≡ log_capacity
        → window log_capacity (line s) (u32 (s.log_start + 1) % log_capacity) (s.log_count - 1)
          ≡ keep 511 all
    shifted e =
        window_mod log_capacity IsModulus-512 (line s) (u32 (s.log_start + 1) % log_capacity)
          (s.log_start + 1) (s.log_count - 1) (omega (arith, f.start))
        ∙ sym (
            keep_full 511 (line s (s.log_start % log_capacity)) next (
              omega (
                arith,
                e,
                length-window log_capacity (line s) (s.log_start + 1) (s.log_count - 1),
              )))
        ∙ ap (keep 511) (
            sym (window-cons log_capacity (line s) s.log_start s.log_count (omega (arith, e)))
            ∙ whole)
        ∙ keep-keep 511 h.done (h.cur ∷ [])
