-- ===== src/Tests/Disk.antt =====
-- A disk in memory, and a file system with one session of 1000 bytes on it.
use mathlib.Core.Bool.{false≢true}
use bumbel_bee.Base.{ℕ, refl, ap, true, some, Array, write, write_self, write_ne, arith}
use native.Mathlib.Decide.{ℕ_discrete}
use bumbel_bee.Data.{FsState, Inode}
use bumbel_bee.Ata.{Drive}
use bumbel_bee.Fs.Layout.{zeros, empty_inode, empty_superblock}
use bumbel_bee.Fs.Table.{IsValid}

-- It accepts every write.
abbrev pub memory_drive : Drive
memory_drive = record {
  Disk = Array (Array ℕ);
  is_there = λ d. true;
  read_sector = λ lba d. some (d lba);
  write_sector = λ lba b d. (true, write d lba b);
  read_written = λ lba b d ok. (b, ap some (write_self d lba b), λ x p. refl);
  read_other = λ lba other b d ne. ap some (write_ne d lba other b ne);
}

abbrev pub one_inode : Inode
one_inode = record empty_inode {
  used = 1;
  type = 1;
  session_id = 1;
  size_bytes = 1000;
  start_lba = 2057;
  sector_count = 2;
  event_count = 25;
}

abbrev pub one_session : FsState (Array (Array ℕ))
one_session = record {
  superblock = record empty_superblock { next_free_lba = 2059; next_session_id = 2 };
  inodes = write (λ i. empty_inode) 0 one_inode;
  fs_online = true;
  ata_ready = true;
  disk = λ lba. zeros;
}

pub one_session-IsValid : IsValid one_session
one_session-IsValid = record {
  data_from = omega arith;
  data_upto = omega arith;
  placed = λ i lt. elim (ℕ_discrete 0 i) [
    | yes e ↦ rw (← e) (λ used. record {
      from = omega arith;
      upto = omega arith;
      above = omega arith;
      below = omega arith;
    })
    | no ne ↦ rw (write_ne (λ j. empty_inode) 0 i one_inode ne) (λ used. absurd (used refl))
  ];
  given_out = λ i lt. elim (ℕ_discrete 0 i) [
    | yes e ↦ rw (← e) (λ used. omega arith)
    | no ne ↦ rw (write_ne (λ j. empty_inode) 0 i one_inode ne) (λ used. absurd (false≢true used))
  ];
}
