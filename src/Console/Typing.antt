-- ===== src/Console/Typing.antt =====
-- What a character, and a text, do to the log of kernel/console.c.
use Prim.Native.Nat.{ℕ}
use bumbel_bee.Base.{
  zero, suc, ◌+◌, ◌-◌, ◌≤◌, ◌<◌, ◌≡◌, refl, ◌∙◌, sym, ap, ap₂, Bool, true, false, [], ◌∷◌, ◌++◌,
  Array, write, write_self, write_ne, ==_iff, lt→ltb, le→leb, lt→leb, le→ltb, slice, slice-write,
  length-slice, ltb, if◌then◌else◌, length, take, take_all, ne→==, arith,
}
use native.Mathlib.Decide.{dec_lt, ℕ_discrete}
use mathlib.Core.Path.{subst}
use bumbel_bee.Console.{
  Console, visible_width, current_log_index, cut_line, log_line_max, end_full_line, log_put_char,
  log_char, store_char, mark_wrapped,
}
use bumbel_bee.Console.Lines.{
  History, drop_last, end_full, put_char, typed, line, Follows, cut-line, Rewritten-Follows,
  new_line-Follows,
}

take-slice : (a : Array ℕ) (i m n : ℕ) → m ≤ n → take m (slice a i n) ≡ slice a i m
unfolding take
take-slice a i zero n h = refl
take-slice a i (suc m) zero h = absurd (omega arith)
take-slice a i (suc m) (suc n) h = ap (λ l. a i ∷ l) (take-slice a (i + 1) m n (omega arith))

-- the length of the line that is being written
length-cur :
    (s : Console) (h : History) → Follows s h → s.log_lens (current_log_index s) ≡ length h.cur
length-cur s h f =
    sym (length-slice (s.log_lines (current_log_index s)) 0 (s.log_lens (current_log_index s)))
    ∙ ap length f.cur

-- The line is cut.
cut-Follows :
    (s : Console) (h : History) (n : ℕ)
    → Follows s h
    → n ≤ length h.cur
    → Follows (cut_line (current_log_index s) n s) (record h { cur = take n h.cur })
cut-Follows s h n f le = Rewritten-Follows s (cut_line idx n s) h (take n h.cur) f (record {
  gui = refl;
  offset = refl;
  start = refl;
  count = refl;
  lines =
      cut-line s s idx n (λ i ne. refl) refl
      ∙ ap (write (line s) idx) (
          sym (take-slice (s.log_lines idx) 0 n (s.log_lens idx) (omega (arith, le, len)))
          ∙ ap (take n) f.cur);
  short = rw (write_self s.log_lens idx n) (omega (arith, le, len, f.short));
})
  where
    idx : ℕ
    idx = current_log_index s

    len : s.log_lens idx ≡ length h.cur
    len = length-cur s h f

-- A character is written at the place `n`, and the line ends behind it.
put-Follows :
    (s : Console) (h : History) (n c : ℕ)
    → Follows s h
    → n ≤ length h.cur
    → n < 79
    → let idx = current_log_index s in
      let put = write (s.log_lines idx) n c in
      Follows
        (cut_line idx (n + 1) (record s { log_lines = write s.log_lines idx put }))
        (record h { cur = take n h.cur ++ (c ∷ []) })
put-Follows s h n c f le lt =
    Rewritten-Follows s (cut_line idx (n + 1) put) h (take n h.cur ++ (c ∷ [])) f (record {
      gui = refl;
      offset = refl;
      start = refl;
      count = refl;
      lines =
          cut-line s put idx (n + 1) (λ i ne. write_ne s.log_lines idx i chars ne) refl
          ∙ ap (write (line s) idx) text;
      short = rw (write_self s.log_lens idx (n + 1)) (omega (arith, lt));
    })
  where
    idx : ℕ
    idx = current_log_index s

    chars : Array ℕ
    chars = write (s.log_lines idx) n c

    put : Console
    put = record s { log_lines = write s.log_lines idx chars }

    len : s.log_lens idx ≡ length h.cur
    len = length-cur s h f

    text : slice (put.log_lines idx) 0 (n + 1) ≡ take n h.cur ++ (c ∷ [])
    text =
        ap₂ (λ a k. slice a 0 k) {v = suc n} (write_self s.log_lines idx chars) (omega arith)
        ∙ slice-write (s.log_lines idx) 0 n n c (omega arith)
        ∙ ap (λ l. l ++ (c ∷ []))
            (sym (take-slice (s.log_lines idx) 0 n (s.log_lens idx) (omega (arith, le, len)))
              ∙ ap (take n) f.cur)

-- `store_char` with room in the line
store_char-Follows :
    (s : Console) (h : History) (c : ℕ)
    → Follows s h
    → length h.cur < 79
    → Follows (store_char c s) (record h { cur = h.cur ++ (c ∷ []) })
store_char-Follows s h c f lt =
    rw (length-cur s h f, lt→ltb (length h.cur + 1) log_line_max (omega (arith, lt)))
      (subst (λ l. Follows stored (record h { cur = l ++ (c ∷ []) }))
        (take_all (length h.cur) h.cur (omega arith))
        (put-Follows s h (length h.cur) c f (omega arith) lt))
  where
    stored : Console
    stored = cut_line (current_log_index s) (length h.cur + 1) (record s {
      log_lines =
          write s.log_lines (current_log_index s)
            (write (s.log_lines (current_log_index s)) (length h.cur) c);
    })

mark_wrapped-Follows :
    (s : Console) (h : History) (width : ℕ)
    → Follows s h
    → 3 < width
    → width ≤ 80
    → length h.cur ≡ width - 1
    → Follows
        (mark_wrapped (current_log_index s) width s)
        (record h { cur = take (width - 2) h.cur ++ (b'\\' ∷ []) })
mark_wrapped-Follows s h width f wide fits e = rw (lt→ltb 3 width wide) (
    subst
      (λ n.
        Follows (cut_line (current_log_index s) n marked)
          (record h { cur = take (width - 2) h.cur ++ (b'\\' ∷ []) }))
      (omega arith) (put-Follows s h (width - 2) b'\\' f (omega arith) (omega arith)))
  where
    marked : Console
    marked = record s {
      log_lines =
          write s.log_lines (current_log_index s)
            (write (s.log_lines (current_log_index s)) (width - 2) b'\\');
    }

-- Before a character is stored, there is room for it.
end_full_line-Follows :
    (s : Console) (h : History) (width : ℕ)
    → Follows s h
    → 3 < width
    → width ≤ 80
    → Follows (end_full_line width s) (end_full width h) × (length (end_full width h).cur < 79)
unfolding end_full_line
end_full_line-Follows s h width f wide fits = elim (dec_lt (length h.cur) width) [
  | no over ↦
      rw (length-cur s h f, le→leb width (length h.cur) (omega (arith, over)))
        (new_line-Follows s h f, omega arith)
  | yes lt ↦ elim (ℕ_discrete (length h.cur) (width - 1)) [
    | yes e ↦
        rw
          (
            length-cur s h f,
            lt→leb (length h.cur) width lt,
            (==_iff (length h.cur) (width - 1)).1 e,
          )
          (new_line-Follows _ _ (mark_wrapped-Follows s h width f wide fits e), omega arith)
    | no ne ↦
        rw (length-cur s h f, lt→leb (length h.cur) width lt, ne→== (length h.cur) (width - 1) ne)
          (f, omega (arith, lt, ne, fits))
  ]
]

visible_width_bounds : (gui : Bool) → (3 < visible_width gui) × (visible_width gui ≤ 80)
visible_width_bounds true = omega arith
visible_width_bounds false = omega arith

put_char-Follows :
    (s : Console) (h : History) (c : ℕ)
    → Follows s h
    → Follows (log_put_char c s) (put_char c (end_full (visible_width h.gui) h))
unfolding log_put_char
put_char-Follows s h c f =
    let (wide, fits) = visible_width_bounds s.gui_mode in
    let (g, room) = end_full_line-Follows s h (visible_width s.gui_mode) f wide fits in
    subst (λ gui. Follows (log_put_char c s) (put_char c (end_full (visible_width gui) h))) f.gui
      (store_char-Follows (end_full_line (visible_width s.gui_mode) s) _ c g room)

backspace-Follows :
    (s : Console) (h : History)
    → Follows s h
    → let idx = current_log_index s in
      Follows
        (if ltb 0 (s.log_lens idx) then cut_line idx (s.log_lens idx - 1) s else s)
        (record h { cur = drop_last h.cur })
backspace-Follows s h f = elim (dec_lt 0 (length h.cur)) [
  | yes lt ↦
      rw (length-cur s h f, lt→ltb 0 (length h.cur) lt)
        (cut-Follows s h (length h.cur - 1) f (omega arith))
  | no ge ↦
      rw (length-cur s h f, le→ltb 0 (length h.cur) (omega (arith, ge)))
        (subst (λ l. Follows s (record h { cur = l }))
          (sym (take_all (length h.cur - 1) h.cur (omega (arith, ge)))) f)
]

pub log_char-Follows :
    (s : Console) (h : History) (c : ℕ)
    → Follows s h
    → Follows (log_char c s) (typed (visible_width h.gui) c h)
unfolding log_char take
log_char-Follows s h c f = elim (ℕ_discrete c 10) [
  | yes e ↦ rw ((==_iff c 10).1 e) (new_line-Follows s h f)
  | no ne ↦ elim (ℕ_discrete c 13) [
    | yes e ↦ rw (ne→== c 10 ne, (==_iff c 13).1 e) (cut-Follows s h 0 f (omega arith))
    | no ne' ↦ elim (ℕ_discrete c 8) [
      | yes e ↦ rw (ne→== c 10 ne, ne→== c 13 ne', (==_iff c 8).1 e) (backspace-Follows s h f)
      | no ne'' ↦ rw (ne→== c 10 ne, ne→== c 13 ne', ne→== c 8 ne'') (put_char-Follows s h c f)
    ]
  ]
]
