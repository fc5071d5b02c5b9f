-- ===== src/Fs/Outcome.antt =====
-- The three ways in which `fs_write_trace_session` of kernel/fs.c ends.
use bumbel_bee.Base.{
  ℕ, ◌+◌, ◌≤◌, ◌≡◌, refl, sym, ◌∙◌, inl, inr, Bool, true, false, Bool-cases, not, ◌||◌, Option,
  none, some, Option-cases, Array, if◌then◌else◌, arith,
}
use mathlib.Core.Path.{subst}
use bumbel_bee.Data.{FsState, SessionInfo, fs_start_lba, fs_inode_sectors, fs_data_start_lba}
use bumbel_bee.Ata.{Drive}
use bumbel_bee.Ata.Runs.{ata_write_outside}
use bumbel_bee.Fs.Layout.{fs_flush_inodes, fs_flush_superblock, encode_inodes, encode_superblock}
use bumbel_bee.Fs.Files.{
  first_unused, fs_alloc_inode, set_inode, fresh_inode, sectors_for, disk_full, write_file,
}
use bumbel_bee.Fs.Sessions.{store_session, flush_both, fs_write_trace_session}

module _ (drive : Drive) where
  open drive use {Disk, read_sector}

  -- The sectors of files hold the same on both disks.
  unfoldable pub SameData : Disk → Disk → Type 0
  SameData d d' = (lba : ℕ) → fs_data_start_lba ≤ lba → read_sector lba d' ≡ read_sector lba d

  -- A flush reaches the superblock and the table alone.
  flush_both-SameData :
      (s : FsState Disk)
      → ((flush_both drive s).1 ≡ record s { disk = (flush_both drive s).1.disk })
        × SameData s.disk (flush_both drive s).1.disk
  unfolding flush_both fs_flush_inodes fs_flush_superblock SameData
  flush_both-SameData s =
      let table = fs_flush_inodes drive s in
      let first = λ (lba : ℕ) (p : fs_data_start_lba ≤ lba).
        ata_write_outside drive s.ata_ready (fs_start_lba + 1) fs_inode_sectors lba
          (encode_inodes s.inodes) s.disk (omega arith) in
      let second = λ (lba : ℕ) (p : fs_data_start_lba ≤ lba).
        ata_write_outside drive s.ata_ready fs_start_lba 1 lba (encode_superblock s.superblock)
          table.1.disk (omega arith) in
      elim (Bool-cases table.0) [
        | inl ok ↦ rw ok (refl, λ lba p. second lba p ∙ first lba p)
        | inr fails ↦ rw fails (refl, first)
      ]

  -- The file table with one more slot taken.
  abbrev take_slot : ℕ → FsState Disk → FsState Disk
  take_slot i s = set_inode drive i fresh_inode s

  abbrev pub written_disk : Array ℕ → ℕ → FsState Disk → Bool × Disk
  written_disk src bytes s =
      write_file drive (sectors_for bytes) 0 s.ata_ready s.superblock.next_free_lba src bytes s.disk

  -- What holds of every refused write, every failed one, and every one that reaches the table,
  -- whether its flush succeeds or not, holds of all.
  pub write_session-elim {ℓ} :
      (src : Array ℕ) (bytes : ℕ) (info : Option SessionInfo) (s : FsState Disk)
      (P : Option ℕ × FsState Disk → Type ℓ)
      → P (none, s)
      → ((i : ℕ)
          → first_unused s.inodes ≡ some i
          → disk_full s.superblock.next_free_lba (sectors_for bytes) ≡ false
          → P (
            none,
            set_inode drive i
                (record fresh_inode { used = 0 })
                (record (take_slot i s) { disk = (written_disk src bytes s).1 }),
          ))
      → ((i : ℕ) (flushed : Bool) (disk : Disk)
          → s.fs_online ≡ true
          → first_unused s.inodes ≡ some i
          → disk_full s.superblock.next_free_lba (sectors_for bytes) ≡ false
          → (written_disk src bytes s).0 ≡ true
          → SameData (written_disk src bytes s).1 disk
          → P (
            if flushed then some s.superblock.next_session_id else none,
            record (store_session drive i bytes (sectors_for bytes) info (take_slot i s)) {
              disk = disk;
            },
          ))
      → P (fs_write_trace_session drive src bytes info s)
  unfolding fs_write_trace_session fs_alloc_inode store_session
  write_session-elim src bytes info s P refused failed stored =
      elim (Bool-cases
        (not s.fs_online || disk_full s.superblock.next_free_lba (sectors_for bytes))) [
          | inl off ↦ rw off refused
          | inr on ↦ rw on (elim (Option-cases (first_unused s.inodes)) [
            | inl full ↦ rw full refused
            | inr (i, found) ↦ rw found (elim (Bool-cases (written_disk src bytes s).0) [
              | inl ok ↦
                  let written = record (take_slot i s) { disk = (written_disk src bytes s).1 } in
                  let session = store_session drive i bytes (sectors_for bytes) info written in
                  let (same, kept) = flush_both-SameData session in
                  let id : Option ℕ =
                    if (flush_both drive session).0
                    then some s.superblock.next_session_id
                    else none in
                  rw ok (
                    subst (λ l. P (id, l)) (sym same)
                      (stored i (flush_both drive session).0 (flush_both drive session).1.disk
                        (ground arith) found (ground arith) ok kept))
              | inr fails ↦ rw fails (failed i found (ground arith))
            ])
          ])
        ]
