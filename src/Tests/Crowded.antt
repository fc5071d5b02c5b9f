-- ===== src/Tests/Crowded.antt =====
-- The theorem on workloads, applied to a table whose tasks are all alive.
use bumbel_bee.Base.{◌≡◌, refl, none, true, arith, first_from}
use bumbel_bee.Data.{Kernel}
use bumbel_bee.Aspace.{find_slot}
use bumbel_bee.Sched.{find_slot_free, slot_free}
use bumbel_bee.Sched.Spawning.{FromKernel}
use bumbel_bee.Workload.{
  Workloads, Bodies, profile_sysload, workload_run_profile, workload_has_active,
}
use bumbel_bee.Workload.Counted.{run_profile_full}
use bumbel_bee.Tests.Sample.{booted}

-- every slot holds a task like the one that runs
abbrev crowded : Kernel
crowded = record booted { sched = record (booted.sched) { tasks = λ i. booted.sched.tasks 0 } }

crowded-FromKernel : FromKernel crowded 0
unfolding find_slot first_from
crowded-FromKernel = record {
  found = refl;
  id = λ e. omega (arith, e);
  kind = refl;
  counted = omega arith;
  room = omega arith;
}

crowded_full : find_slot_free crowded.sched.tasks ≡ none
unfolding find_slot_free slot_free first_from
crowded_full = refl

abbrev bodies : Bodies
bodies = record { attack_task = 0x1000; sysload_task = 0x2000; lifecycle_child = 0x3000 }

abbrev idle : Workloads
idle = record { active = 0; kernel = crowded }

run_profile_full_example :
    workload_run_profile bodies profile_sysload idle ≡ (true, record idle { active = 3 })
run_profile_full_example =
    run_profile_full bodies profile_sysload 0 idle (omega arith) crowded-FromKernel crowded_full

-- The count stays up.
still_active : workload_has_active (record idle { active = 3 }) ≡ true
unfolding workload_has_active
still_active = refl
