-- ===== src/Tests/Schedule.antt =====
-- The scheduler's theorems applied to small task tables.
use bumbel_bee.Base.{first_from, ℕ, ◌<◌, ◌≢◌, ◌↔◌, ◌≤◌, ◌≡◌, refl, true, none, some, [], arith}
use bumbel_bee.Data.{Kernel}
use bumbel_bee.Aspace.{find_slot, aspace_retain}
use mathlib.Core.Path.{Path}
use bumbel_bee.Tests.Sample.{busy, shell_only, two_tasks, replaying}
use bumbel_bee.Sched.{
  max_tasks, can_run, task_visible, find_next_ready, next_ready_from, sched_yield, task_exit, Spawn,
  find_slot_free, sched_prepare_replay, sched_spawn_with_parent_aspace, slot_free, clear_zombie,
  new_task,
}
use bumbel_bee.Sched.Invariant.{IsValid, sched_yield-IsValid}
use bumbel_bee.Sched.Fairness.{yields, yields_serve}
use bumbel_bee.Sched.Exit.{Passes, task_exit_hands_over}
use bumbel_bee.Sched.Pids.{
  HasUniquePids, spawn-HasUniquePids, prepared, HasPidTwo, prepare_replay_reuses_pid,
}
use bumbel_bee.Sched.Forced.{Forces, holds_task, forced_yield-IsValid}

shell_only-finds : find_next_ready shell_only ≡ none
unfolding find_next_ready next_ready_from
shell_only-finds = refl

two_tasks-IsValid : IsValid two_tasks
unfolding task_visible
two_tasks-IsValid = record {
  in_table = omega arith;
  current_runs = refl;
  current_visible = refl;
  only = λ i e. ground arith;
}

sched_yield-IsValid_example : IsValid (sched_yield busy).sched
sched_yield-IsValid_example = sched_yield-IsValid busy refl two_tasks-IsValid

two_tasks-can_run : can_run (two_tasks.tasks 3) ≡ true
unfolding can_run
two_tasks-can_run = refl

yields_serve_example : (n : ℕ) × (n ≤ 7) × ((yields n busy).sched.current_task ≡ 3)
yields_serve_example = yields_serve busy 3 refl two_tasks-IsValid (omega arith) two_tasks-can_run

task_exit_hands_over_example : Passes busy (task_exit busy)
task_exit_hands_over_example =
    task_exit_hands_over busy 3 two_tasks-IsValid (omega arith) (λ e. omega (arith, e))
      two_tasks-can_run

abbrev worker : Spawn
worker = record { name = []; entry = 0x9000; arg = 7; parent_pid = 1 }

two_tasks-HasUniquePids : HasUniquePids two_tasks
unfolding task_visible
two_tasks-HasUniquePids = record {
  below = λ i r v. ground arith;
  unique = λ i j r t v w e. ground arith;
}

spawn-HasUniquePids_example : HasUniquePids (sched_spawn_with_parent_aspace worker 1 busy).1.sched
spawn-HasUniquePids_example =
    spawn-HasUniquePids worker 1 busy (omega arith) two_tasks-HasUniquePids

-- a replay that expects slot 3 next
abbrev forced : Kernel
forced = record busy { trace = replaying 1 }

forced-Forces : Forces forced 3
forced-Forces = record { active = refl; left = omega arith; type = refl; word = omega arith }

forced_yield-IsValid_example :
    ((sched_yield forced).sched.current_task ≡ 3)
    × (IsValid (sched_yield forced).sched ↔ (holds_task (forced.sched.tasks 3) ≡ true))
forced_yield-IsValid_example =
    forced_yield-IsValid forced 3 forced-Forces (omega arith) (λ e. omega (arith, e))
      two_tasks-IsValid

-- the table after the second spawn of the same pid
abbrev respawned : Kernel
respawned = (sched_spawn_with_parent_aspace worker 1 (prepared busy)).1

busy-respawns : sched_spawn_with_parent_aspace worker 1 (prepared busy) ≡ (some 2, respawned)
unfolding sched_spawn_with_parent_aspace find_slot_free first_from slot_free task_visible
    sched_prepare_replay clear_zombie aspace_retain find_slot new_task
busy-respawns = refl

busy-visible : task_visible (busy.sched.tasks 3) ≡ true
unfolding task_visible
busy-visible = refl

prepare_replay_reuses_pid_example :
    (Path ℕ 2 2)
    × HasPidTwo respawned 3
    × ((j : ℕ) × (j < max_tasks) × (j ≢ 3) × HasPidTwo respawned j)
prepare_replay_reuses_pid_example =
    prepare_replay_reuses_pid worker 1 3 2 busy respawned busy-visible refl refl busy-respawns
