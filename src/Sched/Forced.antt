-- ===== src/Sched/Forced.antt =====
-- A yield during a replay: the recorded decision is taken as it stands, and what that does to the
-- table.
use mathlib.Core.Path.{subst}
use bumbel_bee.Base.{
  ℕ, ◌%◌, ◌^◌, ◌<◌, ◌≡◌, ◌≢◌, ◌↔◌, refl, sym, ◌∙◌, ap, Bool, true, false, not, ◌&&◌, ltb, lt→ltb,
  leb, lt→leb, ◌==◌, some, arith,
}
use bumbel_bee.Data.{Kernel, SchedState, Task}
use bumbel_bee.Clock.{trace_replay_active}
use bumbel_bee.Trace.{trace_replay_expected_next_task}
use bumbel_bee.Trace.Frame.{Framed}
use bumbel_bee.Sched.{
  max_tasks, task_visible, count_yield, switch_tasks, switch_to, sched_yield, choose_next, to_index,
}
use bumbel_bee.Sched.Invariant.{
  IsValid, IsValid-Framed, visible-SameTask, count_yield-IsValid, counted, switched,
  switch_to-Framed,
}

choose_next_forced :
    (k : Kernel) (v : ℕ)
    → k.trace.replay.active ≡ true
    → trace_replay_expected_next_task k.trace ≡ some v
    → choose_next k ≡ to_index v
unfolding choose_next trace_replay_active
choose_next_forced k v live e = rw (e, live)

sched_yield_forced :
    (k : Kernel) (v n : ℕ)
    → k.trace.replay.active ≡ true
    → trace_replay_expected_next_task k.trace ≡ some v
    → to_index v ≡ some n
    → sched_yield k ≡ switch_to (some n) (counted k)
unfolding sched_yield
sched_yield_forced k v n live e i =
    ap (λ c. switch_to c (counted k)) (choose_next_forced (counted k) v live e ∙ i)

current-switch_tasks : (n : ℕ) (s : SchedState) → (switch_tasks n s).current_task ≡ n
unfolding switch_tasks
current-switch_tasks n s = refl

-- A replay runs, and the next event of its record is one of the scheduler (type 3), whose second
-- word is `n`, as far as its low 32 bits go.
pub record Forces (k : Kernel) (n : ℕ) : Type 0 where
  pub active : k.trace.replay.active ≡ true
  pub left : k.trace.replay.event_index < k.trace.replay.event_count
  pub type : (k.trace.replay_buffer k.trace.replay.event_index).type ≡ 3
  pub word : (k.trace.replay_buffer k.trace.replay.event_index).data1 % 2 ^ 32 ≡ n

Forces-expects :
    (k : Kernel) (n : ℕ)
    → Forces k n
    → trace_replay_expected_next_task k.trace
      ≡ some (k.trace.replay_buffer k.trace.replay.event_index).data1
unfolding trace_replay_expected_next_task
Forces-expects k n f =
    let more : leb k.trace.replay.event_count k.trace.replay.event_index ≡ false =
      lt→leb k.trace.replay.event_index k.trace.replay.event_count f.left in
    rw (f.active, more, f.type) refl

Forces-index :
    (k : Kernel) (n : ℕ)
    → Forces k n
    → n < max_tasks
    → to_index (k.trace.replay_buffer k.trace.replay.event_index).data1 ≡ some n
Forces-index k n f b = rw f.word (rw (lt→ltb n (2 ^ 31) (omega arith)) refl)

-- The slot holds a task, in whatever state it is.
abbrev pub holds_task : Task → Bool
holds_task t = t.used && ltb 0 t.pid && not (t.pid == 0xffffffff)

visible-switch_tasks :
    (n : ℕ) (s : SchedState)
    → n ≢ s.current_task
    → task_visible ((switch_tasks n (count_yield s)).tasks n) ≡ holds_task (s.tasks n)
unfolding switch_tasks count_yield task_visible
visible-switch_tasks n s ne = ground arith

current-count_yield : (s : SchedState) → (count_yield s).current_task ≡ s.current_task
unfolding count_yield
current-count_yield s = refl

switch_tasks_forced :
    (n : ℕ) (s : SchedState)
    → IsValid s
    → n < max_tasks
    → task_visible ((switch_tasks n s).tasks n) ≡ true
    → IsValid (switch_tasks n s)
unfolding switch_tasks task_visible
switch_tasks_forced n s v b seen = record {
  in_table = b;
  current_runs = ground arith;
  current_visible = seen;
  only = λ i r. ground (arith, v.only i);
}

-- While a replay runs whose next event is one of the scheduler, to a slot `n` of the table other than
-- the current one, a yield from a valid table makes `n` the current slot, whether its
-- task is ready, has ended, or was never there; the table is valid afterwards exactly if the slot
-- holds a task, which then runs, also if it had ended.
pub forced_yield-IsValid :
    (k : Kernel) (n : ℕ)
    → Forces k n
    → n < max_tasks
    → n ≢ k.sched.current_task
    → IsValid k.sched
    → let s' = (sched_yield k).sched in
      (s'.current_task ≡ n) × (IsValid s' ↔ (holds_task (k.sched.tasks n) ≡ true))
forced_yield-IsValid k n forces b ne valid = rw (taken) (
  at,
  (
    (λ w.
        sym (visible-switch_tasks n k.sched ne)
        ∙ sym (visible-SameTask _ _ (f.tasks n))
        ∙ subst (λ c. task_visible (after.sched.tasks c) ≡ true) at w.current_visible),
    λ held. IsValid-Framed (switched n (counted k)) after f (
        switch_tasks_forced n (count_yield k.sched) (count_yield-IsValid k.sched valid) b
          (visible-switch_tasks n k.sched ne ∙ held)),
  ),
)
  where
    taken : sched_yield k ≡ switch_to (some n) (counted k)
    taken =
        sched_yield_forced k (k.trace.replay_buffer k.trace.replay.event_index).data1 n
          forces.active (Forces-expects k n forces) (Forces-index k n forces b)

    after : Kernel
    after = switch_to (some n) (counted k)

    f : Framed (switched n (counted k)) after
    f = switch_to-Framed n (counted k) (λ q. ne (q ∙ current-count_yield k.sched))

    at : after.sched.current_task ≡ n
    at = f.current ∙ current-switch_tasks n (count_yield k.sched)
