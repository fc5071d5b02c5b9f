-- ===== src/Sched/Exit.antt =====
-- The end of a task: the processor passes to another one, if one is ready.
use mathlib.Core.Bool.{false≢true}
use mathlib.Core.Path.{subst}
use bumbel_bee.Base.{
  ℕ, ◌<◌, ◌≡◌, refl, sym, ◌∙◌, ◌≢◌, inl, inr, true, false, some, Option-cases, arith,
}
use bumbel_bee.Data.{Kernel, SchedState, zombie}
use bumbel_bee.Aspace.{aspace_release}
use bumbel_bee.Sched.{
  max_tasks, can_run, find_next_ready, switch_tasks, switch_to, set_task, task_exit,
}
use bumbel_bee.Sched.Next.{find_next_ready-IsNext, find_next_ready-none}
use bumbel_bee.Sched.Invariant.{IsValid, IsValid-Framed, switched, switch_to-Framed}

-- The table once the current task is a zombie.
abbrev ended : SchedState → SchedState
ended s =
    let task = s.tasks s.current_task in
    set_task s.current_task (record task { state = zombie; exited_ticks = task.cpu_ticks }) s

abbrev ended_kernel : Kernel → Kernel
ended_kernel k = record k {
  mm = (aspace_release (k.sched.tasks k.sched.current_task).aspace_id k.mm).1;
  sched = ended k.sched;
}

-- After the switch to `n` from an ended task.
switch_ended-IsValid :
    (n : ℕ) (s : SchedState)
    → IsValid s
    → n < max_tasks
    → can_run ((ended s).tasks n) ≡ true
    → IsValid (switch_tasks n (ended s))
unfolding switch_tasks can_run
switch_ended-IsValid n s v b h = record {
  in_table = b;
  current_runs = ground arith;
  current_visible = ground arith;
  only = λ i r. ground (arith, v.only i);
}

ended_cannot_run : (s : SchedState) → can_run ((ended s).tasks s.current_task) ≡ false
unfolding can_run
ended_cannot_run s = ground arith

can_run-ended :
    (s : SchedState) (i : ℕ)
    → i ≢ s.current_task
    → can_run ((ended s).tasks i) ≡ can_run (s.tasks i)
unfolding can_run
can_run-ended s i ne = ground arith

-- An exit while another task can run: the table stays valid, the current task is another, which
-- was ready, and the ended one is a zombie.
pub record Passes (k k' : Kernel) : Type 0 where
  pub valid : IsValid k'.sched
  pub moved : k'.sched.current_task ≢ k.sched.current_task
  pub chosen : can_run (k.sched.tasks k'.sched.current_task) ≡ true
  pub ended_task : (k'.sched.tasks k.sched.current_task).state ≡ zombie

zombie-switch_tasks :
    (n : ℕ) (s : SchedState)
    → n ≢ s.current_task
    → ((switch_tasks n (ended s)).tasks s.current_task).state ≡ zombie
unfolding switch_tasks
zombie-switch_tasks n s ne = ground arith

current-switch_tasks : (n : ℕ) (s : SchedState) → (switch_tasks n s).current_task ≡ n
unfolding switch_tasks
current-switch_tasks n s = refl

-- A task that ends, in a valid table in which another one can run, hands over to a task that could
-- run, leaves the table valid, and stays behind as a zombie.
pub task_exit_hands_over :
    (k : Kernel) (i : ℕ)
    → IsValid k.sched
    → i < max_tasks
    → i ≢ k.sched.current_task
    → can_run (k.sched.tasks i) ≡ true
    → Passes k (task_exit k)
unfolding task_exit
task_exit_hands_over k i v b ne h = elim (Option-cases (find_next_ready (ended k.sched))) [
  | inl e ↦ absurd (
      false≢true (
        sym (find_next_ready-none (ended k.sched) v.in_table e i b)
        ∙ can_run-ended k.sched i ne
        ∙ h))
  | inr (n, e) ↦ rw (e, task_exit) (chosen n e)
]
  where
    chosen :
        (n : ℕ)
        → find_next_ready (ended k.sched) ≡ some n
        → Passes k (switch_to (some n) (ended_kernel k))
    chosen n e =
        let (d, next) = find_next_ready-IsNext (ended k.sched) n e in
        let off : n ≢ k.sched.current_task = λ q. false≢true (
          sym (ended_cannot_run k.sched)
          ∙ subst (λ j. can_run ((ended k.sched).tasks j) ≡ true) q next.runs) in
        let f = switch_to-Framed n (ended_kernel k) off in
        let now = f.current ∙ current-switch_tasks n (ended k.sched) in
        let bound : n < max_tasks = omega (arith, next.at) in
        record {
          valid =
              IsValid-Framed (switched n (ended_kernel k)) (switch_to (some n) (ended_kernel k)) f
                (switch_ended-IsValid n k.sched v bound next.runs);
          moved = λ q. off (sym now ∙ q);
          chosen = rw now (sym (can_run-ended k.sched n off) ∙ next.runs);
          ended_task = (f.tasks k.sched.current_task).state ∙ zombie-switch_tasks n k.sched off;
        }
