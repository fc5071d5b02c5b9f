-- ===== src/Fs/Files.antt =====
-- kernel/fs.c: the table of inodes, and the data of a file on the disk, which sessions and programs
-- share. A function that returns a pointer to an inode returns its index here.
use bumbel_bee.Base.{
  ℕ, zero, suc, ◌+◌, ◌-◌, ◌*◌, ◌/◌, ◌^◌, Bool, true, false, not, ◌&&◌, Option, none, some, Array,
  ◌==◌, ltb, leb, if◌then◌else◌, first_from, collect, u32, write, List,
}
use bumbel_bee.Data.{
  Inode, FsState, FsStats, TraceFileInfo, fs_start_lba, fs_total_sectors, fs_max_inodes,
  inode_type_trace, inode_type_exec,
}
use bumbel_bee.Strings.{same_string, copy_name}
use bumbel_bee.Ata.{Drive, sector_size, ata_write28, ata_read28}
use bumbel_bee.Fs.Layout.{empty_inode, zeros}

-- `inode.used && inode.type == type`
abbrev pub is_used_as : ℕ → Inode → Bool
is_used_as type n = not (n.used == 0) && n.type == type

abbrev pub is_session : ℕ → Inode → Bool
is_session session_id n = is_used_as inode_type_trace n && n.session_id == session_id

abbrev is_exec : List ℕ → Inode → Bool
is_exec path n = is_used_as inode_type_exec n && same_string n.name path

unfoldable pub fs_find_session : ℕ → Array Inode → Option ℕ
fs_find_session session_id inodes =
    first_from (λ i. is_session session_id (inodes i)) fs_max_inodes 0

unfoldable pub fs_find_exec : List ℕ → Array Inode → Option ℕ
fs_find_exec path inodes = first_from (λ i. is_exec path (inodes i)) fs_max_inodes 0

-- the loop of `fs_trace_count`, with `n` inodes left, at inode `i`
unfoldable pub count_traces : ℕ → ℕ → Array Inode → ℕ
count_traces zero i inodes = 0
count_traces (suc n) i inodes =
    let rest = count_traces n (i + 1) inodes in
    if is_used_as inode_type_trace (inodes i) then suc rest else rest

abbrev pub fs_trace_count : Array Inode → ℕ
fs_trace_count inodes = count_traces fs_max_inodes 0 inodes

abbrev pub first_unused : Array Inode → Option ℕ
first_unused inodes = first_from (λ i. (inodes i).used == 0) fs_max_inodes 0

abbrev pub fresh_inode : Inode
fresh_inode = record empty_inode { used = 1 }

abbrev pub trace_file_info : Inode → TraceFileInfo
trace_file_info n = record {
  session_id = n.session_id;
  size_bytes = n.size_bytes;
  profile_id = n.profile_id;
  event_count = n.event_count;
  duration_ticks = n.duration_ticks;
}

-- The number of entries is what a snapshot returns.
unfoldable pub fs_snapshot_traces : ℕ → Array Inode → List TraceFileInfo
fs_snapshot_traces max_entries inodes =
    collect (is_used_as inode_type_trace) trace_file_info fs_max_inodes 0 max_entries inodes

unfoldable pub fs_snapshot_execs : ℕ → Array Inode → List (List ℕ)
unfolding copy_name
fs_snapshot_execs max_entries inodes =
    collect (is_used_as inode_type_exec) (λ n. copy_name 32 n.name) fs_max_inodes 0 max_entries
      inodes

-- (bytes + FS_SECTOR_SIZE - 1) / FS_SECTOR_SIZE, and 1 for 0
unfoldable pub sectors_for : ℕ → ℕ
sectors_for bytes =
    let sectors = u32 (bytes + 511) / sector_size in if sectors == 0 then 1 else sectors

-- superblock.next_free_lba + sectors > FS_START_LBA + FS_TOTAL_SECTORS
abbrev pub disk_full : ℕ → ℕ → Bool
disk_full next_free sectors = ltb (fs_start_lba + fs_total_sectors) (u32 (next_free + sectors))

-- how much of the data goes into the sector at `offset`
abbrev pub write_chunk : ℕ → ℕ → ℕ
write_chunk bytes offset =
    let chunk = if ltb offset bytes then bytes - offset else 0 in
    if ltb sector_size chunk then sector_size else chunk

-- the same at a read: a difference of 32-bit words
abbrev pub read_chunk : ℕ → ℕ → ℕ
read_chunk size offset =
    let chunk = u32 (size + 2 ^ 32 - offset) in if ltb sector_size chunk then sector_size else chunk

-- `sector_buf` once it is filled
abbrev pub padded : Array ℕ → ℕ → ℕ → Array ℕ
padded src offset chunk x = if ltb x chunk then src (offset + x) else 0

-- memcpy(dst + offset, sector_buf, chunk)
abbrev pub copy_in : Array ℕ → ℕ → Array ℕ → ℕ → Array ℕ
copy_in dst offset sector chunk x =
    if leb offset x && ltb x (offset + chunk) then sector (x - offset) else dst x

module _ (drive : Drive) where
  open drive use {Disk}

  abbrev pub set_inode : ℕ → Inode → FsState Disk → FsState Disk
  set_inode i n s = record s { inodes = write s.inodes i n }

  -- The index of the inode that is taken, which is cleared but for its mark.
  unfoldable pub fs_alloc_inode : FsState Disk → Option (ℕ × FsState Disk)
  fs_alloc_inode s = elim (first_unused s.inodes) [
    | none ↦ none
    | some i ↦ some (i, set_inode i fresh_inode s)
  ]

  -- The loop that writes the data `src` of `bytes` bytes, with `n` sectors left, at sector `i`.
  unfoldable pub write_file : ℕ → ℕ → Bool → ℕ → Array ℕ → ℕ → Disk → Bool × Disk
  write_file zero i ready start src bytes d = (true, d)
  write_file (suc n) i ready start src bytes d =
      let offset = u32 (i * sector_size) in
      let sector_buf = padded src offset (write_chunk bytes offset) in
      let (ok, d') = ata_write28 drive ready (u32 (start + i)) 1 sector_buf d in
      let rest = write_file n (i + 1) ready start src bytes d' in if ok then rest else (false, d')

  -- The loop that reads a file of `size` bytes into `dst`; the buffer keeps what was read where the
  -- loop fails. All of `sector_buf` is filled before it is copied.
  unfoldable pub read_file : ℕ → ℕ → Bool → ℕ → ℕ → Array ℕ → Disk → Bool × Array ℕ
  read_file zero i ready start size dst d = (true, dst)
  read_file (suc n) i ready start size dst d =
      let offset = u32 (i * sector_size) in
      elim (ata_read28 drive ready (u32 (start + i)) 1 zeros d) [
        | none ↦ (false, dst)
        | some sector_buf ↦
            read_file n (i + 1) ready start size
              (copy_in dst offset sector_buf (read_chunk size offset)) d
      ]

  -- The inode `i` gets the data; neither pointer is null.
  unfoldable pub fs_write_raw_file : ℕ → Array ℕ → ℕ → FsState Disk → Bool × FsState Disk
  unfolding sectors_for
  fs_write_raw_file i src bytes s =
      let sectors = sectors_for bytes in
      let start = s.superblock.next_free_lba in
      let (ok, disk) = write_file sectors 0 s.ata_ready start src bytes s.disk in
      let s' = record s { disk = disk } in
      let inode = record (s.inodes i) {
        size_bytes = bytes;
        start_lba = start;
        sector_count = sectors;
      } in
      let next_free = u32 (start + sectors) in
      let written = record s' {
        superblock = record (s.superblock) { next_free_lba = next_free };
        inodes = write s.inodes i inode;
      } in
      if disk_full start sectors then (false, s) else (if ok then (true, written) else (false, s'))

  -- Reads the file of the inode that was found, if any: the result, the buffer, and what is stored
  -- through `bytes`.
  unfoldable pub read_found : Option ℕ → Array ℕ → FsState Disk → Bool × Array ℕ × Option ℕ
  unfolding read_file
  read_found none buffer s = (false, buffer, none)
  read_found (some i) buffer s =
      let n = s.inodes i in
      let (ok, dst) =
        read_file n.sector_count 0 s.ata_ready n.start_lba n.size_bytes buffer s.disk in
      if s.fs_online
      then (if ok then (true, dst, some n.size_bytes) else (false, dst, none))
      else (false, buffer, none)

  unfoldable pub fs_get_stats : FsState Disk → FsStats
  unfolding count_traces
  fs_get_stats s = record {
    online = s.fs_online;
    version = s.superblock.version;
    total_sectors = s.superblock.total_sectors;
    data_start_lba = s.superblock.data_start_lba;
    next_free_lba = s.superblock.next_free_lba;
    trace_files = fs_trace_count s.inodes;
  }
