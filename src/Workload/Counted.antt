-- ===== src/Workload/Counted.antt =====
-- The count of kernel/workload.c, and what a full table of tasks does to it.
use bumbel_bee.Base.{
  ℕ, zero, suc, ◌+◌, ◌^◌, ◌<◌, ◌≡◌, ap, ◌∙◌, true, false, not, Option, none, inl, inr, Bool-cases,
  List, ◌==◌, if◌then◌else◌, u32, codes, arith,
}
use bumbel_bee.Data.{Kernel}
use bumbel_bee.Sched.{Spawn, sched_spawn_with_parent, find_slot_free}
use bumbel_bee.Sched.Spawning.{FromKernel, spawn_with_parent-kernel}
use bumbel_bee.Workload.{
  Workloads, Bodies, launch, launch_from, workload_run_profile, profile_attack, profile_sysload,
  profile_lifecycle, workload_attack_sim, workload_sysload, workload_lifecycle_test,
}

-- how many tasks a profile starts
abbrev tasks_of : ℕ → ℕ
tasks_of p =
    if p == profile_attack
    then 1
    else (if p == profile_sysload then 3 else (if p == profile_lifecycle then 3 else 0))

abbrev counted : ℕ → Workloads → Workloads
counted n w = record w { active = u32 (w.active + n) }

spawn_full :
    (sp : Spawn) (k : Kernel) (i : ℕ)
    → FromKernel k i
    → find_slot_free k.sched.tasks ≡ none
    → sched_spawn_with_parent sp k ≡ (none, k)
spawn_full sp k i f full = elim (spawn_with_parent-kernel sp k i f) [
  | inl e ↦ e
  | inr (j, free, e) ↦ absurd cc
]

launch_full :
    (name : List ℕ) (entry arg i : ℕ) (w : Workloads)
    → FromKernel w.kernel i
    → find_slot_free w.kernel.sched.tasks ≡ none
    → launch name entry arg w ≡ counted 1 w
unfolding launch
launch_full name entry arg i w f full =
    ap (λ (r : Option ℕ × Kernel). record w { active = u32 (w.active + 1); kernel = r.1 })
      (spawn_full _ w.kernel i f full)

launch_from_full :
    (name : List ℕ) (entry j n i : ℕ) (w : Workloads)
    → w.active < 2 ^ 32
    → FromKernel w.kernel i
    → find_slot_free w.kernel.sched.tasks ≡ none
    → launch_from name entry j n w ≡ counted n w
unfolding launch_from
launch_from_full name entry j zero i w word f full = ap (λ a. record w { active = a }) (omega arith)
launch_from_full name entry j (suc n) i w word f full =
    ap (launch_from name entry (j + 1) n) (launch_full name entry j i w f full)
    ∙ (launch_from_full name entry (j + 1) n i (counted 1 w) (omega arith) f full
        ∙ ap (λ a. record w { active = a }) (omega arith))

-- With no free slot for a task, the count a 32-bit word, and a caller in the kernel's address space,
-- whose references are counted and far from the wrap: a profile starts nothing and leaves the kernel
-- as it was, but its tasks are counted as if they ran, one for an attack and three for the other
-- two, and success is reported. A number of no profile counts nothing and reports a failure.
pub run_profile_full :
    (at : Bodies) (p i : ℕ) (w : Workloads)
    → w.active < 2 ^ 32
    → FromKernel w.kernel i
    → find_slot_free w.kernel.sched.tasks ≡ none
    → workload_run_profile at p w ≡ (not (tasks_of p == 0), counted (tasks_of p) w)
unfolding workload_run_profile workload_attack_sim workload_sysload workload_lifecycle_test
run_profile_full at p i w word f full = elim (Bool-cases (p == profile_attack)) [
  | inl attack ↦
      rw attack (ap (λ x. (true, x)) (launch_full (codes "attack_sim") at.attack_task 0 i w f full))
  | inr other ↦ rw other (elim (Bool-cases (p == profile_sysload)) [
    | inl load ↦ rw load (
        ap (λ x. (true, x))
          (launch_from_full (codes "sysload") at.sysload_task 0 3 i w word f full))
    | inr last ↦ rw last (elim (Bool-cases (p == profile_lifecycle)) [
      | inl life ↦ rw life (
          ap (λ x. (true, x))
            (launch_from_full (codes "life-child") at.lifecycle_child 0 3 i w word f full))
      | inr unknown ↦ rw unknown (ap (λ a. (false, record w { active = a })) (omega arith))
    ])
  ])
]
