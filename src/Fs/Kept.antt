-- ===== src/Fs/Kept.antt =====
-- What kernel/fs.c stores of a new session leaves the sessions before it as they are.
use bumbel_bee.Base.{
  ℕ, ◌+◌, ◌≤◌, ◌<◌, ◌^◌, ◌≡◌, ◌≢◌, refl, ◌∙◌, ap, fun_ext, true, false, Option, none, some, Array,
  ◌==◌, inl, write, write_self, write_ne, write_twice, first_from, first_from-IsFirst, u32, arith,
}
use native.Mathlib.Decide.{ℕ_discrete}
use bumbel_bee.Data.{
  FsState, Inode, SessionInfo, Superblock, fs_max_inodes, fs_data_start_lba, inode_type_trace,
}
use bumbel_bee.Ata.{Drive}
use bumbel_bee.Fs.Files.{
  is_session, is_used_as, fs_find_session, first_unused, fresh_inode, sectors_for, disk_full,
  read_found,
}
use bumbel_bee.Fs.Sessions.{
  session_inode, info_found, store_session, fs_write_trace_session, fs_read_trace_session,
  fs_get_trace_session_info,
}
use bumbel_bee.Fs.Transfer.{read_file-agree, write_file_outside}
use bumbel_bee.Fs.Outcome.{SameData, written_disk, write_session-elim}
use bumbel_bee.Fs.Table.{IsValid, disk_full_lem}

-- A session that is found is in use, in the table, and has the number that was asked for.
pub record IsFound (session_id i : ℕ) (inodes : Array Inode) : Type 0 where
  pub in_table : i < fs_max_inodes
  pub used : (inodes i).used ≢ 0
  pub traced : is_used_as inode_type_trace (inodes i) ≡ true
  pub same_id : (inodes i).session_id ≡ session_id

pub find_session-IsFound :
    (session_id i : ℕ) (inodes : Array Inode)
    → fs_find_session session_id inodes ≡ some i
    → IsFound session_id i inodes
unfolding fs_find_session
find_session-IsFound session_id i inodes found =
    let f = first_from-IsFirst (λ j. is_session session_id (inodes j)) fs_max_inodes 0 i found in
    let passes = f.passes in
    record {
      in_table = f.below;
      used = ground arith;
      traced = ground arith;
      same_id = ground arith;
    }

-- Taking a slot that is free for another file leaves the search as it is.
find_session-write :
    (session_id i : ℕ) (n : Inode) (inodes : Array Inode)
    → first_unused inodes ≡ some i
    → is_session session_id n ≡ false
    → fs_find_session session_id (write inodes i n) ≡ fs_find_session session_id inodes
unfolding fs_find_session
find_session-write session_id i n inodes free other =
    let f = first_from-IsFirst (λ j. (inodes j).used == 0) fs_max_inodes 0 i free in
    let same : (j : ℕ)
        → is_session session_id (write inodes i n j) ≡ is_session session_id (inodes j) =
      (λ j. elim (ℕ_discrete i j) [
        | yes e ↦
            rw (← e) (rw (write_self inodes i n) (other ∙ let unused = f.passes in ground arith))
        | no ne ↦ rw (write_ne inodes i j n ne) refl
      ]) in
    ap (λ test. first_from test fs_max_inodes 0) (fun_ext same)

module _ (drive : Drive) where
  open drive use {Disk, read_sector}

  found-agree :
      (session_id i : ℕ) (n : Inode) (buffer : Array ℕ) (s : FsState Disk) (b : Superblock)
      (d : Disk) (o : Option ℕ)
      → fs_find_session session_id s.inodes ≡ o
      → IsValid s
      → first_unused s.inodes ≡ some i
      → ((lba : ℕ)
          → fs_data_start_lba ≤ lba
          → lba < s.superblock.next_free_lba
          → read_sector lba d ≡ read_sector lba s.disk)
      → let t = record s { superblock = b; inodes = write s.inodes i n; disk = d } in
        (read_found drive o buffer t ≡ read_found drive o buffer s)
        × (info_found drive o t ≡ info_found drive o s)
  unfolding read_found info_found
  found-agree session_id i n buffer s b d none found valid free same = (refl, refl)
  found-agree session_id i n buffer s b d (some k) found valid free same =
      let taken = first_from-IsFirst (λ j. (s.inodes j).used == 0) fs_max_inodes 0 i free in
      let f = find_session-IsFound session_id k s.inodes found in
      let p = valid.placed k f.in_table f.used in
      let unused = taken.passes in
      let used = f.used in
      let apart : i ≢ k = λ e. let same_used = ap (λ j. (s.inodes j).used) e in ground arith in
      let file = s.inodes k in
      let kept = write_ne s.inodes i k n apart in
      let reads =
        read_file-agree drive file.sector_count 0 s.ata_ready file.start_lba file.size_bytes buffer
          s.disk d (omega (arith, p.upto, valid.data_upto))
          (λ j above below. same j (omega (arith, p.from)) (omega (arith, p.upto))) in
      rw (kept, read_found) (rw reads (refl, refl))

  -- A session reads the same in two states that agree on its inode and on the sectors given out.
  read_session-agree :
      (session_id i : ℕ) (n : Inode) (buffer : Array ℕ) (s : FsState Disk) (b : Superblock)
      (d : Disk)
      → IsValid s
      → first_unused s.inodes ≡ some i
      → is_session session_id n ≡ false
      → ((lba : ℕ)
          → fs_data_start_lba ≤ lba
          → lba < s.superblock.next_free_lba
          → read_sector lba d ≡ read_sector lba s.disk)
      → let t = record s { superblock = b; inodes = write s.inodes i n; disk = d } in
        (fs_read_trace_session drive session_id buffer t
          ≡ fs_read_trace_session drive session_id buffer s)
        × (fs_get_trace_session_info drive session_id t
            ≡ fs_get_trace_session_info drive session_id s)
  unfolding fs_read_trace_session fs_get_trace_session_info
  read_session-agree session_id i n buffer s b d valid free other same =
      let t = record s { superblock = b; inodes = write s.inodes i n; disk = d } in
      let search = find_session-write session_id i n s.inodes free other in
      let (reads, info) =
        found-agree session_id i n buffer s b d (fs_find_session session_id s.inodes) refl valid
          free same in
      (
        ap (λ o. read_found drive o buffer t) search ∙ reads,
        ap (λ o. info_found drive o t) search ∙ info,
      )

  -- The data of a new file does not reach the files before it.
  written_outside :
      (src : Array ℕ) (bytes : ℕ) (s : FsState Disk) (lba : ℕ)
      → IsValid s
      → bytes + 511 < 2 ^ 32
      → disk_full s.superblock.next_free_lba (sectors_for bytes) ≡ false
      → lba < s.superblock.next_free_lba
      → read_sector lba (written_disk drive src bytes s).1 ≡ read_sector lba s.disk
  written_outside src bytes s lba valid small room lt =
      let free = s.superblock.next_free_lba in
      let ends = disk_full_lem free bytes valid.data_upto small room in
      write_file_outside drive (sectors_for bytes) 0 s.ata_ready free src bytes s.disk lba
        (omega arith) (inl (omega arith))

  -- With the table of inodes in order, a call of `fs_write_trace_session` for a size that does not
  -- wrap when it is rounded to sectors, whether it succeeds or fails at any point, leaves each
  -- session with a number already given out as it was: what is read of it and what describes it
  -- are the same, a read that fails included.
  pub write_session_keeps :
      (src : Array ℕ) (bytes : ℕ) (info : Option SessionInfo) (s : FsState Disk) (session_id : ℕ)
      (buffer : Array ℕ)
      → IsValid s
      → bytes + 511 < 2 ^ 32
      → session_id < s.superblock.next_session_id
      → let s' = (fs_write_trace_session drive src bytes info s).1 in
        (fs_read_trace_session drive session_id buffer s'
          ≡ fs_read_trace_session drive session_id buffer s)
        × (fs_get_trace_session_info drive session_id s'
            ≡ fs_get_trace_session_info drive session_id s)
  unfolding store_session session_inode SameData
  write_session_keeps src bytes info s session_id buffer valid small old =
      let free = s.superblock.next_free_lba in
      let id = s.superblock.next_session_id in
      let n = session_inode id bytes free (sectors_for bytes) info in
      let cleared = record fresh_inode { used = 0 } in
      write_session-elim drive src bytes info s
        (λ r.
          (fs_read_trace_session drive session_id buffer r.1
            ≡ fs_read_trace_session drive session_id buffer s)
          × (fs_get_trace_session_info drive session_id r.1
              ≡ fs_get_trace_session_info drive session_id s))
        (refl, refl)
        (λ i found room. rw (write_twice s.inodes i fresh_inode cleared) (
          read_session-agree session_id i cleared buffer s s.superblock
            (written_disk drive src bytes s).1 valid found refl
            (λ lba from lt. written_outside src bytes s lba valid small room lt)))
        (λ i flushed disk on found room ok kept.
          let b = record (s.superblock) {
            next_session_id = u32 (id + 1);
            next_free_lba = u32 (free + sectors_for bytes);
          } in
          let other : is_session session_id n ≡ false = ground arith in
          rw (write_twice s.inodes i fresh_inode n) (
            read_session-agree session_id i n buffer s b disk valid found other
              (λ lba from lt. kept lba from ∙ written_outside src bytes s lba valid small room lt)))
