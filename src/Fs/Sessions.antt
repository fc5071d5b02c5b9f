-- ===== src/Fs/Sessions.antt =====
-- kernel/fs.c: storing a recorded session, and reading it back.
use bumbel_bee.Base.{
  ℕ, ◌+◌, ◌/◌, Bool, false, Option, none, some, Array, not, ◌||◌, if◌then◌else◌, u32, write,
}
use bumbel_bee.Data.{SessionInfo, Inode, FsState, inode_type_trace}
use bumbel_bee.Ata.{Drive}
use bumbel_bee.Fs.Layout.{fs_flush_inodes, fs_flush_superblock}
use bumbel_bee.Fs.Files.{
  fs_find_session, fs_alloc_inode, set_inode, fresh_inode, sectors_for, disk_full, write_file,
  read_found,
}

-- `info ? info->field : otherwise`
abbrev pub info_field : (SessionInfo → ℕ) → ℕ → Option SessionInfo → ℕ
info_field field otherwise info = elim info [ none ↦ otherwise | some given ↦ field given ]

-- the inode that is filled in
unfoldable pub session_inode : ℕ → ℕ → ℕ → ℕ → Option SessionInfo → Inode
session_inode session_id bytes start sectors info = record fresh_inode {
  type = inode_type_trace;
  session_id = session_id;
  size_bytes = bytes;
  profile_id = info_field (λ given. given.profile_id) 0 info;
  start_lba = start;
  sector_count = sectors;
  created_ticks = info_field (λ given. given.start_ticks) 0 info;
  duration_ticks = info_field (λ given. given.duration_ticks) 0 info;
  event_count = info_field (λ given. given.event_count) (bytes / 40) info;
  sequence_hash = info_field (λ given. given.sequence_hash) 0 info;
}

-- what `fs_get_trace_session_info` reads of an inode
abbrev pub session_info : Inode → SessionInfo
session_info n = record {
  session_id = n.session_id;
  size_bytes = n.size_bytes;
  event_count = u32 n.event_count;
  profile_id = n.profile_id;
  start_ticks = n.created_ticks;
  duration_ticks = n.duration_ticks;
  sequence_hash = n.sequence_hash;
}

module _ (drive : Drive) where
  open drive use {Disk}

  -- The table and the superblock, with the session in the slot `i`, before they are flushed.
  unfoldable pub store_session : ℕ → ℕ → ℕ → Option SessionInfo → FsState Disk → FsState Disk
  unfolding session_inode
  store_session i bytes sectors info s =
      let start = s.superblock.next_free_lba in
      let inode = session_inode s.superblock.next_session_id bytes start sectors info in
      record s {
        superblock = record (s.superblock) {
          next_session_id = u32 (s.superblock.next_session_id + 1);
          next_free_lba = u32 (start + sectors);
        };
        inodes = write s.inodes i inode;
      }

  -- flushes the table, then the superblock
  unfoldable pub flush_both : FsState Disk → Bool × FsState Disk
  unfolding fs_flush_inodes fs_flush_superblock
  flush_both s =
      let (inodes_ok, s') = fs_flush_inodes drive s in
      let last = fs_flush_superblock drive s' in if inodes_ok then last else (false, s')

  -- `none` is -1; the number is what is stored through `session_id`.
  unfoldable pub fs_write_trace_session :
      Array ℕ → ℕ → Option SessionInfo → FsState Disk → Option ℕ × FsState Disk
  unfolding sectors_for fs_alloc_inode write_file store_session flush_both
  fs_write_trace_session src bytes info s =
      let sectors = sectors_for bytes in
      let start = s.superblock.next_free_lba in
      if not s.fs_online || disk_full start sectors
      then (none, s)
      else elim (fs_alloc_inode drive s) [
        | none ↦ (none, s)
        | some (i, taken) ↦
            let (ok, disk) = write_file drive sectors 0 s.ata_ready start src bytes taken.disk in
            let written = record taken { disk = disk } in
            let (flushed, last) = flush_both (store_session i bytes sectors info written) in
            let id = s.superblock.next_session_id in
            if ok
            then (if flushed then some id else none, last)
            else (none, set_inode drive i (record fresh_inode { used = 0 }) written)
      ]

  -- The result, the buffer, and what is stored through `bytes`.
  unfoldable pub fs_read_trace_session : ℕ → Array ℕ → FsState Disk → Bool × Array ℕ × Option ℕ
  unfolding fs_find_session read_found
  fs_read_trace_session session_id buffer s =
      read_found drive (fs_find_session session_id s.inodes) buffer s

  unfoldable pub info_found : Option ℕ → FsState Disk → Option SessionInfo
  info_found none s = none
  info_found (some i) s = if s.fs_online then some (session_info (s.inodes i)) else none

  unfoldable pub fs_get_trace_session_info : ℕ → FsState Disk → Option SessionInfo
  unfolding fs_find_session info_found
  fs_get_trace_session_info session_id s = info_found (fs_find_session session_id s.inodes) s
