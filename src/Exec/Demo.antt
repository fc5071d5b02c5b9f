-- ===== src/Exec/Demo.antt =====
-- kernel/builtin_exec.c and kernel/usermode.c: the program that runs in user mode.
use bumbel_bee.Base.{
  ℕ, ◌+◌, ◌-◌, Bool, true, false, not, ◌&&◌, ◌||◌, none, some, List, Array, ◌==◌, ltb,
  if◌then◌else◌, u32, u64, codes, slice,
}
use bumbel_bee.Data.{Kernel, FsState, Mm}
use bumbel_bee.Strings.{same_string}
use bumbel_bee.Elf.{ElfInfo, elf_parse_image}
use bumbel_bee.Aspace.{aspace_release, aspace_create, aspace_switch, user_base, user_window_size}
use bumbel_bee.Aspace.Window.{aspace_write, aspace_zero}
use bumbel_bee.Sched.Queries.{sched_current_aspace}
use bumbel_bee.Ata.{Drive}
use bumbel_bee.Fs.Execs.{fs_read_exec_file}
use bumbel_bee.Exec.Spawn.{give_back}
use bumbel_bee.Exec.Render.{stored_bytes}

abbrev kind_user_shared : ℕ
kind_user_shared = 2

-- The demo, which runs in the caller's task. The entry to user mode is assembly, and what runs there
-- ends with a system call: `enter`, from the entry point and the stack to the kernel after it.
module _ (drive : Drive) (enter : ℕ → ℕ → Kernel → Kernel) where
  open drive use {Disk}

  -- `usermode_run_entry_stack`, with the flag `active`, which is clear after a run as before it
  unfoldable pub usermode_run_entry_stack : Bool → ℕ → ℕ → Kernel → Bool × Kernel
  usermode_run_entry_stack active entry stack_top k =
      if active then (false, k) else (true, enter entry stack_top k)

  -- The three calls that fill the window of the new address space.
  unfoldable pub load_window : ℕ → ElfInfo → Array ℕ → Mm → Bool × Mm
  unfolding aspace_write aspace_zero
  load_window id info image mm =
      let bytes = slice image (u64 info.load_offset) (u32 info.load_filesz) in
      let (written, mm1) = aspace_write id info.first_vaddr bytes mm in
      let end = u64 (info.first_vaddr + info.load_filesz) in
      let (tail, mm2) = aspace_zero id end (u32 (info.load_memsz - info.load_filesz)) mm1 in
      let more = ltb info.load_filesz info.load_memsz in
      let mm3 = if more then mm2 else mm1 in
      let stack_top = user_base + user_window_size in
      if not written
      then (false, mm1)
      else (if more && not tail
          then (false, mm2)
          else aspace_zero id (stack_top - 0x4000) 0x4000 mm3)

  -- `false` is -1.
  unfoldable pub builtin_exec_run_sync :
      List ℕ → Array ℕ → Bool → Kernel → FsState Disk → Bool × Kernel
  unfolding usermode_run_entry_stack load_window fs_read_exec_file same_string
  builtin_exec_run_sync path image active k s =
      let (ok, read_image, bytes) = fs_read_exec_file drive path image s in
      let old_aspace = sched_current_aspace k.sched in
      if not (same_string path (codes "/bin/ring3demo")) || not ok
      then (false, k)
      else (elim (elf_parse_image (some read_image) (stored_bytes bytes)) [
        | none ↦ (false, k)
        | some info ↦
            let (id, mm) = aspace_create kind_user_shared (codes "ring3demo") k.mm in
            let (loaded, mm') = load_window id info read_image mm in
            let inside = record k { mm = (aspace_switch id mm').1 } in
            let (rc, after) =
              usermode_run_entry_stack active info.entry (user_base + user_window_size) inside in
            let back = record after { mm = (aspace_switch old_aspace after.mm).1 } in
            if id == 0
            then (false, record k { mm = mm })
            else (if loaded
                then (rc, give_back id back)
                else (false, record k { mm = (aspace_release id mm').1 }))
      ])
