-- ===== src/Fs/Layout.antt =====
-- kernel/fs.c: the superblock and the table of inodes as bytes, the state with nothing in it, and
-- moving both to the disk and back. Padding, which nothing reads, is written as 0, and a name in the
-- table is looked at as far as its 24 bytes.
use bumbel_bee.Base.{
  ℕ, ◌+◌, ◌*◌, ◌/◌, ◌%◌, Bool, true, false, none, some, List, [], ◌∷◌, Array, if◌then◌else◌,
}
use bumbel_bee.Data.{
  Superblock, Inode, FsState, fs_magic, fs_version, fs_start_lba, fs_total_sectors,
  fs_inode_sectors, fs_data_start_lba, fs_max_inodes,
}
use bumbel_bee.Bytes.{load_le, store_fields, store_bytes}
use bumbel_bee.Strings.{string_at}
use bumbel_bee.Ata.{Drive, ata_write28, ata_read28, read_so_far}

abbrev pub zeros : Array ℕ
zeros x = 0

abbrev pub superblock_fields : Superblock → List (ℕ × ℕ)
superblock_fields b =
    (4, b.magic)
    ∷ (4, b.version)
    ∷ (4, b.total_sectors)
    ∷ (4, b.inode_count)
    ∷ (4, b.inode_table_lba)
    ∷ (4, b.data_start_lba)
    ∷ (4, b.next_free_lba)
    ∷ (4, b.next_session_id)
    ∷ []

abbrev pub encode_superblock : Superblock → Array ℕ
encode_superblock b = store_fields (superblock_fields b) zeros 0

unfoldable pub decode_superblock : Array ℕ → Superblock
decode_superblock m = record {
  magic = load_le m 0 4;
  version = load_le m 4 4;
  total_sectors = load_le m 8 4;
  inode_count = load_le m 12 4;
  inode_table_lba = load_le m 16 4;
  data_start_lba = load_le m 20 4;
  next_free_lba = load_le m 24 4;
  next_session_id = load_le m 28 4;
}

abbrev pub inode_fields : Inode → List (ℕ × ℕ)
inode_fields n =
    (4, n.used)
    ∷ (4, n.type)
    ∷ (4, n.session_id)
    ∷ (4, n.size_bytes)
    ∷ (4, n.profile_id)
    ∷ (4, n.start_lba)
    ∷ (4, n.sector_count)
    ∷ (8, n.created_ticks)
    ∷ (8, n.duration_ticks)
    ∷ (8, n.event_count)
    ∷ (8, n.sequence_hash)
    ∷ []

-- sizeof(struct fs_inode)
abbrev pub inode_size : ℕ
inode_size = 128

-- offsetof(struct fs_inode, name) and the size of that field
abbrev pub name_offset : ℕ
name_offset = 60

abbrev pub name_size : ℕ
name_size = 24

abbrev pub encode_inode : Inode → Array ℕ
encode_inode n = store_fields (inode_fields n) (store_bytes zeros name_offset n.name) 0

unfoldable pub decode_inode : Array ℕ → Inode
decode_inode m = record {
  used = load_le m 0 4;
  type = load_le m 4 4;
  session_id = load_le m 8 4;
  size_bytes = load_le m 12 4;
  profile_id = load_le m 16 4;
  start_lba = load_le m 20 4;
  sector_count = load_le m 24 4;
  created_ticks = load_le m 28 8;
  duration_ticks = load_le m 36 8;
  event_count = load_le m 44 8;
  sequence_hash = load_le m 52 8;
  name = string_at name_size m name_offset;
}

-- the table `inodes` as it lies in memory
abbrev pub encode_inodes : Array Inode → Array ℕ
encode_inodes inodes x = encode_inode (inodes (x / inode_size)) (x % inode_size)

abbrev pub decode_inodes : Array ℕ → Array Inode
decode_inodes m i = decode_inode (λ x. m (i * inode_size + x))

-- what `memset(&inodes[i], 0, sizeof(inodes[i]))` leaves
abbrev pub empty_inode : Inode
empty_inode = record {
  used = 0;
  type = 0;
  session_id = 0;
  size_bytes = 0;
  profile_id = 0;
  start_lba = 0;
  sector_count = 0;
  created_ticks = 0;
  duration_ticks = 0;
  event_count = 0;
  sequence_hash = 0;
  name = [];
}

abbrev pub empty_superblock : Superblock
empty_superblock = record {
  magic = fs_magic;
  version = fs_version;
  total_sectors = fs_total_sectors;
  inode_count = fs_max_inodes;
  inode_table_lba = fs_start_lba + 1;
  data_start_lba = fs_data_start_lba;
  next_free_lba = fs_data_start_lba;
  next_session_id = 1;
}

module _ (drive : Drive) where
  open drive use {Disk}

  -- In each result below, `false` is -1.
  unfoldable pub fs_flush_superblock : FsState Disk → Bool × FsState Disk
  fs_flush_superblock s =
      let (ok, disk) =
        ata_write28 drive s.ata_ready fs_start_lba 1 (encode_superblock s.superblock) s.disk in
      (ok, record s { disk = disk })

  unfoldable pub fs_flush_inodes : FsState Disk → Bool × FsState Disk
  fs_flush_inodes s =
      let (ok, disk) =
        ata_write28 drive s.ata_ready (fs_start_lba + 1) fs_inode_sectors (encode_inodes s.inodes)
          s.disk in
      (ok, record s { disk = disk })

  -- A read of the table that fails on the way leaves the sectors before in its bytes.
  unfoldable pub fs_load : FsState Disk → Bool × FsState Disk
  unfolding read_so_far
  fs_load s = elim (ata_read28 drive s.ata_ready fs_start_lba 1 zeros s.disk) [
    | none ↦ (false, s)
    | some block ↦
        let s' = record s { superblock = decode_superblock block } in
        elim (ata_read28 drive s.ata_ready (fs_start_lba + 1) fs_inode_sectors zeros s.disk) [
          | none ↦
              let old = encode_inodes s.inodes in
              let part = read_so_far drive fs_inode_sectors 0 (fs_start_lba + 1) old s.disk in
              (false, record s' { inodes = decode_inodes part })
          | some table ↦ (true, record s' { inodes = decode_inodes table })
        ]
  ]

  unfoldable pub fs_format : FsState Disk → Bool × FsState Disk
  unfolding fs_flush_superblock fs_flush_inodes
  fs_format s =
      let cleared = record s { superblock = empty_superblock; inodes = λ i. empty_inode } in
      let (first_ok, first) = fs_flush_superblock cleared in
      let (second_ok, second) = fs_flush_inodes first in
      if first_ok then (second_ok, second) else (false, first)
