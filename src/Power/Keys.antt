-- ===== src/Power/Keys.antt =====
-- The order of key strokes: what the keyboard's ring and the queue hold, taken together.
use bumbel_bee.Base.{
  ℕ, zero, suc, ◌+◌, ◌%◌, ◌≤◌, ◌<◌, ◌≡◌, refl, ◌∙◌, sym, ap, ap₂, ◌≢◌, ◌⊎◌, inl, inr, List, [], ◌∷◌,
  ◌++◌, append-nil, append_assoc, write, ◌==◌, ne→==, ==_iff, u64, lt→ltb, le→ltb, Array,
  Bool-cases, arith,
}
use native.Mathlib.Decide.{ℕ_discrete}
use bumbel_bee.Data.{PowerState, KeyboardState}
use bumbel_bee.Ring.{window, window_mod, window-write, IsModulus-256}
use bumbel_bee.Keyboard.{keyboard_buffer_put, buffer_size}
use bumbel_bee.Keyboard.Fifo.{IsWord, unread_count, unread, unread-put, put-IsWord, count-put}
use bumbel_bee.Power.{
  power_keyboard_char, keyboard_flush_now, flush_loop, power_keyboard_qcap, mode_performance,
}

pub record IsValid (p : PowerState) : Type 0 where
  pub head : p.keyboard_head < power_keyboard_qcap
  pub count : p.keyboard_count ≤ power_keyboard_qcap

-- The key strokes that wait in the queue, oldest first.
abbrev pub held_back : PowerState → List ℕ
held_back p = window power_keyboard_qcap p.keyboard_q p.keyboard_head p.keyboard_count

-- All that was typed and not yet read, in the order in which it will be read.
abbrev pub stream : PowerState → KeyboardState → List ℕ
stream p kb = unread kb ++ held_back p

keyboard_char-IsValid :
    (ch : ℕ) (p : PowerState) (kb : KeyboardState)
    → IsValid p
    → IsValid (power_keyboard_char ch p kb).0
unfolding power_keyboard_char
keyboard_char-IsValid ch p kb v = ground arith

-- Outside the performance mode, with the queue's indices in range and room in it, a key stroke
-- comes last of all that was typed and not yet read.
pub keyboard_char_in_order :
    (ch : ℕ) (p : PowerState) (kb : KeyboardState)
    → IsValid p
    → p.mode ≢ mode_performance
    → p.keyboard_count < power_keyboard_qcap
    → let (p', kb') = power_keyboard_char ch p kb in stream p' kb' ≡ stream p kb ++ (ch ∷ [])
unfolding power_keyboard_char
keyboard_char_in_order ch p kb v slow room =
    rw (ne→== p.mode mode_performance slow, lt→ltb p.keyboard_count power_keyboard_qcap room)
      (ap (λ l. unread kb ++ l)
          (ap (window power_keyboard_qcap queue p.keyboard_head) {y = suc p.keyboard_count}
              (omega arith)
            ∙ window-write power_keyboard_qcap IsModulus-256 p.keyboard_q p.keyboard_head
                p.keyboard_count tail ch room refl)
        ∙ sym (append_assoc (unread kb) (held_back p) (ch ∷ [])))
  where
    tail : ℕ
    tail = (p.keyboard_head + p.keyboard_count) % power_keyboard_qcap

    queue : Array ℕ
    queue = write p.keyboard_q tail ch

-- In the performance mode, or with the queue full, and with room in the keyboard's ring, a key
-- stroke goes in front of all that is held back.
pub keyboard_char_overtakes :
    (ch : ℕ) (p : PowerState) (kb : KeyboardState)
    → IsWord kb
    → unread_count kb < buffer_size
    → (p.mode ≡ mode_performance) ⊎ (power_keyboard_qcap ≤ p.keyboard_count)
    → let (p', kb') = power_keyboard_char ch p kb in stream p' kb' ≡ unread kb ++ (ch ∷ held_back p)
unfolding power_keyboard_char
keyboard_char_overtakes ch p kb w room (inl fast) = rw (fast) (
    ap (λ l. l ++ held_back p) (unread-put ch kb w room)
    ∙ append_assoc (unread kb) (ch ∷ []) (held_back p))
keyboard_char_overtakes ch p kb w room (inr full) =
    let here : unread (keyboard_buffer_put ch kb) ++ held_back p ≡ unread kb ++ (ch ∷ held_back p) =
      ap (λ l. l ++ held_back p) (unread-put ch kb w room)
      ∙ append_assoc (unread kb) (ch ∷ []) (held_back p) in
    elim (Bool-cases (p.mode == mode_performance)) [
      | inl e ↦ rw (e) here
      | inr e ↦ rw (e, le→ltb p.keyboard_count power_keyboard_qcap full) here
    ]

-- The loop of the flush moves what is held back behind what is unread.
record Moved (p : PowerState) (kb : KeyboardState) (p' : PowerState) (kb' : KeyboardState)
    : Type 0 where
  unread_all : unread kb' ≡ unread kb ++ held_back p
  nothing_left : p'.keyboard_count ≡ 0
  head : p'.keyboard_head < power_keyboard_qcap
  word : IsWord kb'

flush_loop-Moved :
    (n : ℕ) (p : PowerState) (kb : KeyboardState)
    → p.keyboard_count ≡ n
    → p.keyboard_head < power_keyboard_qcap
    → IsWord kb
    → unread_count kb + n ≤ buffer_size
    → Moved p kb (flush_loop n p kb).0 (flush_loop n p kb).1
unfolding flush_loop
flush_loop-Moved zero p kb e h w room = record {
  unread_all = sym (
      ap (λ n. unread kb ++ window power_keyboard_qcap p.keyboard_q p.keyboard_head n) e
      ∙ append-nil (unread kb));
  nothing_left = e;
  head = h;
  word = w;
}
flush_loop-Moved (suc n) p kb e h w room =
    let rest =
      flush_loop-Moved n next kb1 refl (omega arith) (put-IsWord ch kb w)
        (omega (arith, count-put ch kb w (omega arith))) in
    record {
      unread_all =
          rest.unread_all
          ∙ ap (λ l. l ++ held_back next) (unread-put ch kb w (omega arith))
          ∙ append_assoc (unread kb) (ch ∷ []) (held_back next)
          ∙ ap (λ l. unread kb ++ l) (sym split);
      nothing_left = rest.nothing_left;
      head = rest.head;
      word = rest.word;
    }
  where
    ch : ℕ
    ch = p.keyboard_q p.keyboard_head

    kb1 : KeyboardState
    kb1 = keyboard_buffer_put ch kb

    next : PowerState
    next = record p {
      keyboard_head = (p.keyboard_head + 1) % power_keyboard_qcap;
      keyboard_count = n;
    }

    split : held_back p ≡ ch ∷ held_back next
    split =
        ap (window power_keyboard_qcap p.keyboard_q p.keyboard_head) e
        ∙ ap₂ ◌∷◌ (ap p.keyboard_q (omega arith)) (
            window_mod power_keyboard_qcap IsModulus-256 p.keyboard_q (p.keyboard_head + 1)
              ((p.keyboard_head + 1) % power_keyboard_qcap) n (omega arith))

-- With the queue's indices in range, and room in the keyboard's ring for all that is held back, a
-- flush moves it there, in order, behind what is unread; the queue is empty and its indices stay
-- in range.
pub keyboard_flush_delivers :
    (p : PowerState) (kb : KeyboardState)
    → IsValid p
    → IsWord kb
    → unread_count kb + p.keyboard_count ≤ buffer_size
    → let (p', kb') = keyboard_flush_now p kb in
      (unread kb' ≡ stream p kb) × (p'.keyboard_count ≡ 0) × IsValid p' × IsWord kb'
unfolding keyboard_flush_now
keyboard_flush_delivers p kb v w room = elim (ℕ_discrete p.keyboard_count 0) [
  | yes e ↦
      let all : unread kb ≡ stream p kb = sym (
        ap (λ n. unread kb ++ window power_keyboard_qcap p.keyboard_q p.keyboard_head n) e
        ∙ append-nil (unread kb)) in
      rw ((==_iff p.keyboard_count 0).1 e) (all, e, v, w)
  | no ne ↦
      let counted : PowerState = record p {
        stats = record (p.stats) {
          wakeups = u64 (p.stats.wakeups + 1);
          keyboard_flushes = u64 (p.stats.keyboard_flushes + 1);
        };
      } in
      let moved = flush_loop-Moved p.keyboard_count counted kb refl v.head w room in
      rw (ne→== p.keyboard_count 0 ne) (
        moved.unread_all,
        moved.nothing_left,
        record { head = moved.head; count = omega (arith, moved.nothing_left) },
        moved.word,
      )
]

flush_loop-mode :
    (n : ℕ) (p : PowerState) (kb : KeyboardState) → (flush_loop n p kb).0.mode ≡ p.mode
unfolding flush_loop
flush_loop-mode zero p kb = refl
flush_loop-mode (suc n) p kb = flush_loop-mode n _ _

pub keyboard_flush_now-mode :
    (p : PowerState) (kb : KeyboardState) → (keyboard_flush_now p kb).0.mode ≡ p.mode
unfolding keyboard_flush_now
keyboard_flush_now-mode p kb = elim (ℕ_discrete p.keyboard_count 0) [
  | yes e ↦ rw ((==_iff p.keyboard_count 0).1 e) refl
  | no ne ↦ rw (ne→== p.keyboard_count 0 ne) (flush_loop-mode p.keyboard_count _ _)
]
