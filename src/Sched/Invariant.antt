-- ===== src/Sched/Invariant.antt =====
-- The table's invariant, and what a yield does to it when no replay runs.
use bumbel_bee.Base.{
  ℕ, ◌<◌, ◌≡◌, sym, ◌∙◌, ◌≢◌, inl, inr, true, false, some, ne→==, Option-cases, arith,
}
use mathlib.Core.Bool.{false≢true}
use bumbel_bee.Aspace.{aspace_switch}
use bumbel_bee.Data.{Kernel, SchedState, Task, ready, running, trace_event_sched}
use bumbel_bee.Clock.{trace_replay_active}
use bumbel_bee.Trace.Frame.{SameTask, Framed, trace_record-Framed}
use bumbel_bee.Sched.{
  max_tasks, task_visible, can_run, find_next_ready, switch_tasks, switch_to, count_yield,
  choose_next, sched_yield,
}
use bumbel_bee.Sched.Next.{find_next_ready-IsNext}

-- The current task is the one that runs.
pub record IsValid (s : SchedState) : Type 0 where
  pub in_table : s.current_task < max_tasks
  pub current_runs : (s.tasks s.current_task).state ≡ running
  pub current_visible : task_visible (s.tasks s.current_task) ≡ true
  pub only : (i : ℕ) → (s.tasks i).state ≡ running → i ≡ s.current_task

pub can_run-SameTask : (t t' : Task) → SameTask t t' → can_run t' ≡ can_run t
unfolding can_run
can_run-SameTask t t' h = rw (h.used, h.pid, h.state)

pub visible-SameTask : (t t' : Task) → SameTask t t' → task_visible t' ≡ task_visible t
unfolding task_visible
visible-SameTask t t' h = rw (h.used, h.pid, h.state)

running_cannot_run : (t : Task) → t.state ≡ running → can_run t ≡ false
unfolding can_run
running_cannot_run t h = ground arith

can_run-ready : (t : Task) → can_run t ≡ true → (t.state ≡ ready) × (task_visible t ≡ true)
unfolding can_run
can_run-ready t h = ground arith

-- A task that can run is not the current one.
pub can_run_off :
    (s : SchedState) (j : ℕ) → IsValid s → can_run (s.tasks j) ≡ true → j ≢ s.current_task
can_run_off s j v h e =
    let r : (s.tasks j).state ≡ running = rw e (v.current_runs) in
    false≢true (sym (running_cannot_run (s.tasks j) r) ∙ h)

-- The invariant does not read what `trace_record` writes.
pub IsValid-Framed : (k k' : Kernel) → Framed k k' → IsValid k.sched → IsValid k'.sched
IsValid-Framed k k' f v = record {
  in_table = rw (f.current) (v.in_table);
  current_runs = rw (f.current) ((f.tasks k.sched.current_task).state ∙ v.current_runs);
  current_visible =
      rw (f.current) (visible-SameTask _ _ (f.tasks k.sched.current_task) ∙ v.current_visible);
  only = λ i h. v.only i (sym ((f.tasks i).state) ∙ h) ∙ sym f.current;
}

-- A switch to a task that can run keeps the invariant.
switch_tasks-IsValid :
    (next : ℕ) (s : SchedState)
    → IsValid s
    → next < max_tasks
    → can_run (s.tasks next) ≡ true
    → IsValid (switch_tasks next s)
unfolding switch_tasks can_run
switch_tasks-IsValid next s v b h = record {
  in_table = b;
  current_runs = ground arith;
  current_visible = ground arith;
  only = λ i r. ground (arith, v.only i);
}

pub count_yield-IsValid : (s : SchedState) → IsValid s → IsValid (count_yield s)
unfolding count_yield task_visible
count_yield-IsValid s v = record {
  in_table = v.in_table;
  current_runs = ground arith;
  current_visible = ground arith;
  only = λ i r. ground (arith, v.only i);
}

-- The kernel that `switch_to` hands to `trace_record`.
abbrev pub switched : ℕ → Kernel → Kernel
switched next k =
    let sched = switch_tasks next k.sched in
    record k { sched = sched; mm = (aspace_switch (sched.tasks next).aspace_id k.mm).1 }

pub switch_to-Framed :
    (next : ℕ) (k : Kernel)
    → next ≢ k.sched.current_task
    → Framed (switched next k) (switch_to (some next) k)
unfolding switch_to
switch_to-Framed next k ne = rw (ne→== next k.sched.current_task ne) (
    trace_record-Framed trace_event_sched ((switch_tasks next k.sched).tasks next).pid
      k.sched.current_task next (switched next k))

switch_to-IsValid :
    (next : ℕ) (k : Kernel)
    → IsValid k.sched
    → next < max_tasks
    → can_run (k.sched.tasks next) ≡ true
    → IsValid (switch_to (some next) k).sched
switch_to-IsValid next k v b h =
    let ne = can_run_off k.sched next v h in
    IsValid-Framed (switched next k) (switch_to (some next) k) (switch_to-Framed next k ne)
      (switch_tasks-IsValid next k.sched v b h)

-- Without a replay the table decides.
pub choose_next-live :
    (k : Kernel) → k.trace.replay.active ≡ false → choose_next k ≡ find_next_ready k.sched
unfolding choose_next trace_replay_active
choose_next-live k live = rw live

abbrev pub counted : Kernel → Kernel
counted k = record k { sched = count_yield k.sched }

IsValid-idle : (s : SchedState) → IsValid s → IsValid (record s { resched_pending = false })
IsValid-idle s v = record {
  in_table = v.in_table;
  current_runs = v.current_runs;
  current_visible = v.current_visible;
  only = v.only;
}

-- A yield while no replay runs, from a valid table, leaves a valid table: the current index lies
-- in it, and the current task is visible and the only one that runs.
pub sched_yield-IsValid :
    (k : Kernel) → k.trace.replay.active ≡ false → IsValid k.sched → IsValid (sched_yield k).sched
unfolding sched_yield switch_to
sched_yield-IsValid k live v =
    let v' = count_yield-IsValid k.sched v in
    elim (Option-cases (find_next_ready (counted k).sched)) [
      | inl e ↦ rw (choose_next-live (counted k) live, e) (IsValid-idle (counted k).sched v')
      | inr (n, e) ↦
          rw (choose_next-live (counted k) live, e)
            (let (d, next) = find_next_ready-IsNext (counted k).sched n e in
              switch_to-IsValid n (counted k) v' (omega (arith, next.at)) next.runs)
    ]
