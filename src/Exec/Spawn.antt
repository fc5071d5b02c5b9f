-- ===== src/Exec/Spawn.antt =====
-- kernel/builtin_exec.c: starting a program.
use bumbel_bee.Base.{
  ℕ, Bool, true, false, not, Option, none, some, List, ◌==◌, if◌then◌else◌, drop, codes,
}
use bumbel_bee.Data.{Kernel}
use bumbel_bee.Strings.{same_string}
use bumbel_bee.Clock.{sched_current_pid}
use bumbel_bee.Elf.{ElfInfo, elf_parse_image}
use bumbel_bee.Aspace.{aspace_retain, aspace_release}
use bumbel_bee.Sched.{sched_spawn_with_parent_aspace}
use bumbel_bee.Sched.Queries.{sched_task_set_exec}
use bumbel_bee.Exec.{
  Program, Entry, ping_task, Jobs, find_program, alloc_ping_job, alloc_generic_job,
}

-- Where the linker puts the entry points and the job tables.
pub record Addresses : Type 0 where
  pub entry : Entry → ℕ
  pub ping_job : ℕ → ℕ
  pub generic_job : ℕ → ℕ

abbrev pub is_ping : Entry → Bool
is_ping ping_task = true
is_ping _ = false

-- `aspace_release(aspace_id)` on the kernel
abbrev pub give_back : ℕ → Kernel → Kernel
give_back id k = record k { mm = (aspace_release id k.mm).1 }

-- what `builtin_exec_spawn` does with the result of the spawn
unfoldable pub finish_spawn : ℕ → List ℕ → Jobs → Option ℕ × Kernel → Option ℕ × Kernel × Jobs
finish_spawn id path j (none, k) = (none, give_back id k, j)
finish_spawn id path j (some p, k) =
    (some p, give_back id (record k { sched = (sched_task_set_exec p path k.sched).1 }), j)

module _ (at : Addresses) where
  -- The job of a program, with the name of its task and the job's address.
  unfoldable pub alloc_job : Program → List ℕ → Option (List ℕ) → Jobs → Option (List ℕ × ℕ) × Jobs
  unfolding alloc_ping_job alloc_generic_job
  alloc_job prog path arg j =
      let (ping, with_ping) = alloc_ping_job arg j in
      let (generic, with_generic) = alloc_generic_job arg j in
      if is_ping prog.entry
      then (elim ping [ none ↦ none | some i ↦ some (codes "ping", at.ping_job i) ], with_ping)
      else (
        elim generic [ none ↦ none | some i ↦ some (drop 5 path, at.generic_job i) ],
        with_generic,
      )

  -- The end of `builtin_exec_spawn`, with a reference to the address space taken, and the job.
  unfoldable pub spawn_job :
      ℕ → Program → List ℕ → Kernel → Option (List ℕ × ℕ) × Jobs → Option ℕ × Kernel × Jobs
  unfolding finish_spawn
  spawn_job id prog path k (none, j) = (none, give_back id k, j)
  spawn_job id prog path k (some (name, job_address), j) = finish_spawn id path j (
      sched_spawn_with_parent_aspace
        (record {
          name = name;
          entry = at.entry prog.entry;
          arg = job_address;
          parent_pid = sched_current_pid k.sched;
        })
        id k)

  -- the part of `builtin_exec_spawn` behind the check of the image
  unfoldable pub spawn_parsed :
      Program → List ℕ → Option (List ℕ) → Kernel → Jobs → Option ElfInfo → Option ℕ × Kernel × Jobs
  unfolding spawn_job alloc_job
  spawn_parsed prog path arg k j none = (none, k, j)
  spawn_parsed prog path arg k j (some info) =
      let id = k.mm.aspace.kernel_aspace_id in
      let (done, mm) = aspace_retain id k.mm in
      let held = record k { mm = mm } in
      if same_string path (codes "/bin/ring3demo")
      then (none, k, j)
      else (if not done
          then (none, k, j)
          else (if id == 0
              then (none, held, j)
              else spawn_job id prog path held (alloc_job prog path arg j)))

  unfoldable pub spawn_found :
      List ℕ → Option (List ℕ) → Kernel → Jobs → Option Program → Option ℕ × Kernel × Jobs
  unfolding spawn_parsed
  spawn_found path arg k j none = (none, k, j)
  spawn_found path arg k j (some prog) =
      spawn_parsed prog path arg k j (elf_parse_image (some prog.image) prog.image_size)

  unfoldable pub builtin_exec_spawn :
      List ℕ → Option (List ℕ) → Kernel → Jobs → Option ℕ × Kernel × Jobs
  unfolding spawn_found find_program
  builtin_exec_spawn path arg k j = spawn_found path arg k j (find_program path)
