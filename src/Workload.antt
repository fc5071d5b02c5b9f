-- ===== src/Workload.antt =====
-- kernel/workload.c: the tasks that a profile starts, and the count of those that run. The bodies
-- of the tasks record events and print, and take themselves off the count when they end.
pub mod Counted
use bumbel_bee.Base.{
  ℕ, zero, suc, ◌+◌, Bool, true, false, not, List, ◌==◌, if◌then◌else◌, u32, codes,
}
use bumbel_bee.Data.{Kernel}
use bumbel_bee.Clock.{sched_current_pid}
use bumbel_bee.Sched.{Spawn, sched_spawn_with_parent}

abbrev pub profile_attack : ℕ
profile_attack = 1

abbrev pub profile_sysload : ℕ
profile_sysload = 2

abbrev pub profile_lifecycle : ℕ
profile_lifecycle = 3

-- `active_workloads`, with the kernel
pub record Workloads : Type 0 where
  pub active : ℕ
  pub kernel : Kernel

-- Where the linker puts the tasks' bodies.
pub record Bodies : Type 0 where
  pub attack_task : ℕ
  pub sysload_task : ℕ
  pub lifecycle_child : ℕ

-- `sched_spawn` behind the count; the pid, or -1, is only printed.
unfoldable pub launch : List ℕ → ℕ → ℕ → Workloads → Workloads
unfolding sched_spawn_with_parent
launch name entry arg w =
    let k = w.kernel in
    let parent = sched_current_pid k.sched in
    let sp : Spawn = record { name = name; entry = entry; arg = arg; parent_pid = parent } in
    record { active = u32 (w.active + 1); kernel = (sched_spawn_with_parent sp k).1 }

-- the loops over the slots, of which `n` are left
unfoldable pub launch_from : List ℕ → ℕ → ℕ → ℕ → Workloads → Workloads
unfolding launch
launch_from name entry i zero w = w
launch_from name entry i (suc n) w = launch_from name entry (i + 1) n (launch name entry i w)

module _ (at : Bodies) where
  unfoldable pub workload_attack_sim : Workloads → Workloads
  unfolding launch
  workload_attack_sim w = launch (codes "attack_sim") at.attack_task 0 w

  unfoldable pub workload_sysload : Workloads → Workloads
  unfolding launch_from
  workload_sysload w = launch_from (codes "sysload") at.sysload_task 0 3 w

  unfoldable pub workload_lifecycle_test : Workloads → Workloads
  unfolding launch_from
  workload_lifecycle_test w = launch_from (codes "life-child") at.lifecycle_child 0 3 w

  -- `false` is -1.
  unfoldable pub workload_run_profile : ℕ → Workloads → Bool × Workloads
  unfolding workload_attack_sim workload_sysload workload_lifecycle_test
  workload_run_profile profile_id w =
      if profile_id == profile_attack
      then (true, workload_attack_sim w)
      else (if profile_id == profile_sysload
          then (true, workload_sysload w)
          else (if profile_id == profile_lifecycle
              then (true, workload_lifecycle_test w)
              else (false, w)))

unfoldable pub workload_has_active : Workloads → Bool
workload_has_active w = not (w.active == 0)

unfoldable pub workload_profile_name : ℕ → List ℕ
workload_profile_name profile_id =
    if profile_id == profile_attack
    then codes "attack"
    else (if profile_id == profile_sysload
        then codes "sysload"
        else (if profile_id == profile_lifecycle then codes "lifecycle" else codes "none"))
