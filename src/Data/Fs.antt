-- ===== src/Data/Fs.antt =====
-- The state of kernel/fs.c and its structures on the disk.
use bumbel_bee.Base.{ℕ, Bool, List, Array}

-- struct fs_superblock, less its padding
pub record Superblock : Type 0 where
  pub magic : ℕ
  pub version : ℕ
  pub total_sectors : ℕ
  pub inode_count : ℕ
  pub inode_table_lba : ℕ
  pub data_start_lba : ℕ
  pub next_free_lba : ℕ
  pub next_session_id : ℕ

-- struct fs_inode, less its padding
pub record Inode : Type 0 where
  pub used : ℕ
  pub type : ℕ
  pub session_id : ℕ
  pub size_bytes : ℕ
  pub profile_id : ℕ
  pub start_lba : ℕ
  pub sector_count : ℕ
  pub created_ticks : ℕ
  pub duration_ticks : ℕ
  pub event_count : ℕ
  pub sequence_hash : ℕ
  pub name : List ℕ

-- The file-level variables of kernel/fs.c, the flag of kernel/ata.c, and the disk behind it.
pub record FsState (Disk : Type 0) : Type 0 where
  pub superblock : Superblock
  pub inodes : Array Inode
  pub fs_online : Bool
  pub ata_ready : Bool
  pub disk : Disk

-- struct fs_stats
pub record FsStats : Type 0 where
  pub online : Bool
  pub version : ℕ
  pub total_sectors : ℕ
  pub data_start_lba : ℕ
  pub next_free_lba : ℕ
  pub trace_files : ℕ

-- struct fs_trace_file_info
pub record TraceFileInfo : Type 0 where
  pub session_id : ℕ
  pub size_bytes : ℕ
  pub profile_id : ℕ
  pub event_count : ℕ
  pub duration_ticks : ℕ

abbrev pub fs_magic : ℕ
fs_magic = 0x43445836

abbrev pub fs_version : ℕ
fs_version = 3

abbrev pub fs_start_lba : ℕ
fs_start_lba = 2048

abbrev pub fs_total_sectors : ℕ
fs_total_sectors = 4096

abbrev pub fs_inode_sectors : ℕ
fs_inode_sectors = 8

-- FS_START_LBA + 1 + FS_INODE_SECTORS
abbrev pub fs_data_start_lba : ℕ
fs_data_start_lba = 2057

abbrev pub fs_max_inodes : ℕ
fs_max_inodes = 32

abbrev pub inode_type_trace : ℕ
inode_type_trace = 1

abbrev pub inode_type_exec : ℕ
inode_type_exec = 2
