-- ===== src/Sched/Spawning.antt =====
-- A spawn from a kernel task: what it takes, and what it leaves behind when it fails.
use bumbel_bee.Base.{
  ℕ, ◌+◌, ◌^◌, ◌<◌, ◌≡◌, ◌≢◌, refl, ap, ◌∙◌, ◌⊎◌, inl, inr, Bool, none, some, ne→==, arith,
}
use bumbel_bee.Data.{Kernel, Mm}
use bumbel_bee.Aspace.{find_slot, set_slot, aspace_retain, aspace_release, kind_kernel}
use bumbel_bee.Aspace.Refs.{
  retained, find_slot-write, aspace_retain-found, release-retain, fork_clone-kernel,
}
use bumbel_bee.Sched.{Spawn, sched_spawn_with_parent, find_slot_free}
use bumbel_bee.Sched.Pids.{spawned, spawn_cases}

-- The current task lives in the kernel's address space, at slot `i` of the table, and its count is
-- far from the ends of its range.
pub record FromKernel (k : Kernel) (i : ℕ) : Type 0 where
  pub found : find_slot (k.sched.tasks k.sched.current_task).aspace_id k.mm.aspace.table ≡ some i
  pub id : (k.sched.tasks k.sched.current_task).aspace_id ≢ 0
  pub kind : (k.mm.aspace.table i).info.kind ≡ kind_kernel
  pub counted : 0 < (k.mm.aspace.table i).info.refcount
  pub room : (k.mm.aspace.table i).info.refcount + 2 < 2 ^ 32

abbrev parent_aspace : Kernel → ℕ
parent_aspace k = (k.sched.tasks k.sched.current_task).aspace_id

-- The kernel after `aspace_fork_clone`.
abbrev cloned : Kernel → Kernel
cloned k = record k { mm = (aspace_retain (parent_aspace k) k.mm).1 }

module _ (k : Kernel) (i : ℕ) (f : FromKernel k i) where
  mm-cloned : (cloned k).mm ≡ set_slot i (retained (k.mm.aspace.table i)) k.mm
  mm-cloned = ap (λ (r : Bool × Mm). r.1) (aspace_retain-found (parent_aspace k) i k.mm f.found)

  -- Giving the clone's reference back.
  undone : (aspace_release (parent_aspace k) (cloned k).mm).1 ≡ k.mm
  undone =
      ap (λ (r : Bool × Mm). r.1)
        (release-retain (parent_aspace k) i k.mm f.found (omega (arith, f.room)) (inl f.counted))

  -- The same with the task's own reference on top.
  undone_second :
      (aspace_release (parent_aspace k) (aspace_retain (parent_aspace k) (cloned k).mm).1).1
      ≡ (cloned k).mm
  undone_second =
      let slot = k.mm.aspace.table i in
      rw mm-cloned (
        ap (λ (r : Bool × Mm). r.1)
          (release-retain (parent_aspace k) i (set_slot i (retained slot) k.mm)
            (find_slot-write (parent_aspace k) i k.mm.aspace.table (retained slot) refl refl
              ∙ f.found)
            (ground (arith, f.room)) (inl (ground (arith, f.room)))))

-- A spawn by a task in a shared kernel address space, whose reference count is positive and does
-- not wrap, either fails and leaves everything as it was, or puts the new task into the first free
-- slot and adds one reference to that address space.
pub spawn_with_parent-kernel :
    (sp : Spawn) (k : Kernel) (i : ℕ)
    → FromKernel k i
    → let a = (k.sched.tasks k.sched.current_task).aspace_id in
      (sched_spawn_with_parent sp k ≡ (none, k))
      ⊎ ((j : ℕ) × (find_slot_free k.sched.tasks ≡ some j)
          × (sched_spawn_with_parent sp k ≡ (
            some k.sched.next_pid,
            record k { mm = (aspace_retain a k.mm).1; sched = spawned sp a j k.sched },
          )))
unfolding sched_spawn_with_parent
spawn_with_parent-kernel sp k i f =
    rw (fork_clone-kernel (parent_aspace k) i k.mm f.found f.kind, ne→== (parent_aspace k) 0 f.id)
      (elim (spawn_cases sp (parent_aspace k) (cloned k)) [
        | inl e ↦ inl (rw e (ap (λ mm. (none, record k { mm = mm })) (undone k i f)))
        | inr (j, free, e) ↦ inr (
          j,
          free,
          rw e (
              ap
                (λ mm. (
                  some k.sched.next_pid,
                  record k { mm = mm; sched = spawned sp (parent_aspace k) j k.sched },
                ))
                (undone_second k i f)),
        )
      ])
