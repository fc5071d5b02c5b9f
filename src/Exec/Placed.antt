-- ===== src/Exec/Placed.antt =====
-- `sched_task_set_exec` of kernel/sched.c on a task that was just spawned finds that task.
use native.Mathlib.Decide.{ℕ_discrete}
use bumbel_bee.Base.{
  ℕ, ◌+◌, ◌<◌, ◌≡◌, sym, ◌∙◌, ap, Bool, true, ◌&&◌, ◌==◌, ==_refl, ==_iff, some, List, write,
  write_self, write_ne, write_twice, first_from-some, first_from-IsFirst, u32, arith,
}
use bumbel_bee.Data.{SchedState, Task}
use bumbel_bee.Strings.{copy_name}
use bumbel_bee.Sched.{max_tasks, Spawn, new_task, task_visible, find_slot_free}
use bumbel_bee.Sched.Pids.{HasUniquePids, spawned, spawn_slot_below, pid-new_task}
use bumbel_bee.Sched.Queries.{find_pid, sched_task_set_exec}

-- The pids are in order, and the next one is one that a task can have.
pub record CanNumber (s : SchedState) : Type 0 where
  pub unique : HasUniquePids s
  pub some_pid : 0 < s.next_pid
  pub fits : s.next_pid < 0xffffffff

-- The table with a new task in slot `i`, which has a path, and the next number counted.
abbrev pub with_new_task : Spawn → ℕ → List ℕ → ℕ → SchedState → SchedState
with_new_task sp a path i s = record s {
  tasks = write s.tasks i (record (new_task sp a s) { exec_path = copy_name 32 path });
  next_pid = u32 (s.next_pid + 1);
}

new_task_seen :
    (sp : Spawn) (a : ℕ) (s : SchedState) → CanNumber s → task_visible (new_task sp a s) ≡ true
unfolding new_task task_visible
new_task_seen sp a s c = ground (arith, c.some_pid, c.fits)

both : (a b : Bool) → (a && b) ≡ true → (a ≡ true) × (b ≡ true)
both a b h = (ground arith, ground arith)

module _ (sp : Spawn) (a i : ℕ) (s : SchedState) (c : CanNumber s)
    (free : find_slot_free s.tasks ≡ some i) where
  abbrev has_pid : ℕ → Bool
  has_pid j =
      task_visible ((spawned sp a i s).tasks j) && ((spawned sp a i s).tasks j).pid == s.next_pid

  at_slot : (spawned sp a i s).tasks i ≡ new_task sp a s
  at_slot = write_self s.tasks i (new_task sp a s)

  slot_has_pid : has_pid i ≡ true
  slot_has_pid = rw (at_slot, new_task_seen sp a s c, pid-new_task sp a s) (==_refl s.next_pid)

  -- No other task has the number.
  only_slot : (j : ℕ) → j < max_tasks → has_pid j ≡ true → j ≡ i
  only_slot j lt h = elim (ℕ_discrete j i) [
    | yes e ↦ e
    | no ne ↦
        let other : (spawned sp a i s).tasks j ≡ s.tasks j =
          write_ne s.tasks i j (new_task sp a s) (λ e. ne (sym e)) in
        let (seen, pid) = both _ _ h in
        let old = c.unique.below j lt (sym (ap task_visible other) ∙ seen) in
        let same : (s.tasks j).pid ≡ s.next_pid =
          sym (ap (λ (t : Task). t.pid) other) ∙ (==_iff _ _).0 pid in
        absurd (omega (arith, old, same))
  ]

  find_pid-spawned : find_pid s.next_pid (spawned sp a i s).tasks ≡ some i
  unfolding find_pid
  find_pid-spawned =
      let (j, found) =
        first_from-some has_pid max_tasks 0 i (omega arith)
          (omega (arith, spawn_slot_below s.tasks i free)) slot_has_pid in
      let first = first_from-IsFirst has_pid max_tasks 0 j found in
      found ∙ ap some (only_slot j (omega (arith, first.below)) first.passes)

  pub set_exec-spawned :
      (path : List ℕ)
      → (sched_task_set_exec s.next_pid path (spawned sp a i s)).1 ≡ with_new_task sp a path i s
  unfolding sched_task_set_exec
  set_exec-spawned path =
      let named = λ (t : Task). record t { exec_path = copy_name 32 path } in
      rw (sched_task_set_exec, find_pid-spawned)
        (ap (λ tasks. record (spawned sp a i s) { tasks = tasks })
          (ap (λ (t : Task). write (spawned sp a i s).tasks i (named t)) at_slot
            ∙ write_twice s.tasks i (new_task sp a s) (named (new_task sp a s))))
