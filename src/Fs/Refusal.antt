-- ===== src/Fs/Refusal.antt =====
-- When `fs_write_trace_session` of kernel/fs.c stores a session, and what it does when it does not.
use bumbel_bee.Base.{
  ℕ, zero, suc, ◌+◌, ◌≤◌, ◌<◌, ◌^◌, ◌≡◌, ◌≢◌, refl, ap, true, Bool-cases, not, ◌||◌, Option, none,
  some, ◌⊎◌, Option-cases, Array, ◌==◌, inl, inr, first_from-IsFirst, first_from-none,
  if◌then◌else◌, u32, arith,
}
use bumbel_bee.Data.{FsState, SessionInfo, fs_max_inodes, fs_start_lba, fs_inode_sectors}
use bumbel_bee.Ata.{Drive, sector_at, write_run, ata_write28}
use bumbel_bee.Fs.Layout.{fs_flush_inodes, fs_flush_superblock, encode_inodes, encode_superblock}
use bumbel_bee.Fs.Files.{
  first_unused, set_inode, fresh_inode, fs_alloc_inode, sectors_for, disk_full, write_file,
}
use bumbel_bee.Fs.Sessions.{store_session, flush_both, fs_write_trace_session}
use bumbel_bee.Fs.Transfer.{disk_end, file_sector}
use bumbel_bee.Fs.Outcome.{written_disk}
use bumbel_bee.Fs.Table.{IsValid, disk_full_lem}

-- The file system is up, and has the sectors and a slot for so many bytes.
pub record HasRoom {Disk : Type 0} (bytes : ℕ) (s : FsState Disk) : Type 0 where
  pub online : s.fs_online ≡ true
  pub sectors : s.superblock.next_free_lba + sectors_for bytes ≤ disk_end
  pub slot : (i : ℕ) × (i < fs_max_inodes) × ((s.inodes i).used ≡ 0)

module _ (drive : Drive) where
  open drive use {Disk, write_sector}

  -- The device accepts every write.
  unfoldable pub Accepts : Type 0
  Accepts = (lba : ℕ) (b : Array ℕ) (d : Disk) → (write_sector lba b d).0 ≡ true

  write_run_accepted :
      (n i lba : ℕ) (buffer : Array ℕ) (d : Disk)
      → Accepts
      → (write_run drive n i lba buffer d).0 ≡ true
  unfolding write_run Accepts
  write_run_accepted zero i lba buffer d accepts = refl
  write_run_accepted (suc n) i lba buffer d accepts =
      rw (accepts (lba + i) (sector_at buffer i) d) (
        write_run_accepted n (i + 1) lba buffer (write_sector (lba + i) (sector_at buffer i) d).1
          accepts)

  ata_write_accepted :
      (lba count : ℕ) (buffer : Array ℕ) (d : Disk)
      → Accepts
      → lba ≤ 0x0fffffff
      → count ≢ 0
      → (ata_write28 drive true lba count buffer d).0 ≡ true
  unfolding ata_write28
  ata_write_accepted lba count buffer d accepts low counts =
      let run = write_run_accepted count 0 lba buffer d accepts in ground arith

  write_file_accepted :
      (n i start : ℕ) (src : Array ℕ) (bytes : ℕ) (d : Disk)
      → Accepts
      → start + i + n ≤ disk_end
      → (write_file drive n i true start src bytes d).0 ≡ true
  unfolding write_file
  write_file_accepted zero i start src bytes d accepts fits = refl
  write_file_accepted (suc n) i start src bytes d accepts fits =
      let first = ata_write28 drive true (u32 (start + i)) 1 (file_sector src bytes i) d in
      let one : first.0 ≡ true =
        ata_write_accepted (u32 (start + i)) 1 (file_sector src bytes i) d accepts (omega arith)
          (omega arith) in
      rw one (write_file_accepted n (i + 1) start src bytes first.1 accepts (omega arith))

  flush_both_accepted :
      (s : FsState Disk) → Accepts → s.ata_ready ≡ true → (flush_both drive s).0 ≡ true
  unfolding flush_both fs_flush_inodes fs_flush_superblock
  flush_both_accepted s accepts ready =
      let table =
        ata_write28 drive true (fs_start_lba + 1) fs_inode_sectors (encode_inodes s.inodes)
          s.disk in
      rw
        (
          ready,
          ata_write_accepted (fs_start_lba + 1) fs_inode_sectors (encode_inodes s.inodes) s.disk
              accepts (omega arith) (omega arith),
        )
        (ata_write_accepted fs_start_lba 1 (encode_superblock s.superblock) table.1 accepts
          (omega arith) (omega arith))

  -- Neither a file system that is down or full, nor a table without a free slot, has room.
  no_room :
      (bytes : ℕ) (s : FsState Disk)
      → not s.fs_online || disk_full s.superblock.next_free_lba (sectors_for bytes) ≡ true
      → s.fs_online ≡ true
      → s.superblock.next_free_lba + sectors_for bytes ≤ disk_end
      → ⊥
  no_room bytes s off up ends = ground arith

  no_slot :
      (s : FsState Disk)
      → first_unused s.inodes ≡ none
      → (i : ℕ) × (i < fs_max_inodes) × ((s.inodes i).used ≡ 0)
      → ⊥
  no_slot s full (i, below, free) =
      let used =
        first_from-none (λ j. (s.inodes j).used == 0) fs_max_inodes 0 full i (omega arith)
          (omega arith) in
      ground arith

  -- On a disk that is ready and accepts every write, with the table of inodes in order and a size
  -- that does not wrap when it is rounded to sectors: a session is stored, under the next number,
  -- exactly if the file system is up, has the sectors it takes, and a free inode; if not, the call
  -- fails and changes nothing.
  pub write_session_decides :
      (src : Array ℕ) (bytes : ℕ) (info : Option SessionInfo) (s : FsState Disk)
      → Accepts
      → s.ata_ready ≡ true
      → IsValid s
      → bytes + 511 < 2 ^ 32
      → (HasRoom bytes s
          × ((fs_write_trace_session drive src bytes info s).0 ≡ some s.superblock.next_session_id))
        ⊎ ((HasRoom bytes s → ⊥) × (fs_write_trace_session drive src bytes info s ≡ (none, s)))
  unfolding fs_write_trace_session fs_alloc_inode store_session
  write_session_decides src bytes info s accepts ready valid small =
      let free = s.superblock.next_free_lba in
      elim (Bool-cases (not s.fs_online || disk_full free (sectors_for bytes))) [
        | inl off ↦ inr (
          λ room. no_room bytes s off room.online room.sectors,
          rw (fs_write_trace_session, off) refl,
        )
        | inr on ↦
            let up : s.fs_online ≡ true = ground arith in
            let ends = disk_full_lem free bytes valid.data_upto small (ground arith) in
            elim (Option-cases (first_unused s.inodes)) [
              | inl full ↦
                  inr (λ room. no_slot s full room.slot, rw (fs_write_trace_session, on, full) refl)
              | inr (i, found) ↦
                  let f =
                    first_from-IsFirst (λ j. (s.inodes j).used == 0) fs_max_inodes 0 i found in
                  let unused = f.passes in
                  let written = record (set_inode drive i fresh_inode s) {
                    disk = (written_disk drive src bytes s).1;
                  } in
                  let session = store_session drive i bytes (sectors_for bytes) info written in
                  let file : (written_disk drive src bytes s).0 ≡ true = rw ready (
                    write_file_accepted (sectors_for bytes) 0 free src bytes s.disk accepts
                      (omega arith)) in
                  inl (
                    record { online = up; sectors = ends; slot = (i, f.below, ground arith) },
                    rw (fs_write_trace_session, on, found, file)
                        (ap (λ b. if b then some s.superblock.next_session_id else none)
                          (flush_both_accepted session accepts ready)),
                  )
            ]
      ]
