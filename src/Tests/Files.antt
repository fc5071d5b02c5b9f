-- ===== src/Tests/Files.antt =====
-- The theorems on the file system, applied to a disk in memory.
use bumbel_bee.Base.{
  ℕ, ◌+◌, ◌<◌, ◌≤◌, ◌≡◌, ◌⊎◌, refl, Bool, true, some, none, Option, Array, first_from, write_ne,
  arith,
}
use native.Mathlib.Decide.{ℕ_discrete}
use bumbel_bee.Bytes.{Fits}
use bumbel_bee.Fs.Codec.{IsText}
use bumbel_bee.Data.{fs_max_inodes, FsState, SessionInfo}
use bumbel_bee.Aspace.{user_base}
use bumbel_bee.Ata.{ata_write28, write_run}
use bumbel_bee.Elf.{elf_parse_image}
use bumbel_bee.Fs.Layout.{
  superblock_fields, zeros, empty_inode, fs_load, fs_flush_inodes, fs_flush_superblock,
}
use bumbel_bee.Fs.Files.{sectors_for, fs_alloc_inode, write_file}
use bumbel_bee.Fs.Sessions.{
  fs_write_trace_session, fs_read_trace_session, fs_get_trace_session_info, flush_both,
}
use bumbel_bee.Fs.Execs.{
  build_stub_exec_image, build_ring3demo_image, stub_exec_code, ring3demo_code, code_off,
}
use bumbel_bee.Fs.Table.{IsValid, write_session-IsValid}
use bumbel_bee.Fs.Kept.{write_session_keeps}
use bumbel_bee.Fs.RoundTrip.{Reads, write_session-Reads}
use bumbel_bee.Fs.Refusal.{HasRoom, Accepts, write_session_decides}
use bumbel_bee.Fs.Reload.{IsStorable, SameTables, load-flush}
use bumbel_bee.Fs.Images.{image_info, built_images_parse}
use bumbel_bee.Tests.Disk.{memory_drive, one_inode, one_session, one_session-IsValid}

abbrev pub info : SessionInfo
info = record {
  session_id = 0;
  size_bytes = 600;
  event_count = 15;
  profile_id = 0;
  start_ticks = 100;
  duration_ticks = 20;
  sequence_hash = 7;
}

abbrev pub counting : Array ℕ
counting x = x

-- the state with a second session
abbrev pub two_sessions : Option ℕ × FsState (Array (Array ℕ))
two_sessions = fs_write_trace_session memory_drive counting 600 (some info) one_session

pub two_sessions-stored : two_sessions.0 ≡ some 2
unfolding fs_write_trace_session sectors_for fs_alloc_inode first_from write_file ata_write28
    write_run flush_both fs_flush_inodes fs_flush_superblock
two_sessions-stored = refl

write_session-IsValid_example : IsValid two_sessions.1
write_session-IsValid_example =
    write_session-IsValid memory_drive counting 600 (some info) one_session one_session-IsValid
      (omega arith) (omega arith)

write_session_keeps_example :
    (fs_read_trace_session memory_drive 1 zeros two_sessions.1
      ≡ fs_read_trace_session memory_drive 1 zeros one_session)
    × (fs_get_trace_session_info memory_drive 1 two_sessions.1
        ≡ fs_get_trace_session_info memory_drive 1 one_session)
write_session_keeps_example =
    write_session_keeps memory_drive counting 600 (some info) one_session 1 zeros
      one_session-IsValid (omega arith) (omega arith)

write_session-Reads_example : Reads memory_drive 2 600 counting info two_sessions.1
write_session-Reads_example =
    write_session-Reads memory_drive counting 600 info one_session 2 one_session-IsValid
      (omega arith) two_sessions-stored

pub memory_accepts : Accepts memory_drive
unfolding Accepts
memory_accepts lba b d = refl

write_session_decides_example :
    (HasRoom 600 one_session × (two_sessions.0 ≡ some 2))
    ⊎ ((HasRoom 600 one_session → ⊥) × (two_sessions ≡ (none, one_session)))
write_session_decides_example =
    write_session_decides memory_drive counting 600 (some info) one_session memory_accepts refl
      one_session-IsValid (omega arith)

built_images_parse_example :
    let stub = build_stub_exec_image zeros 128 0x401080 in
    let demo = build_ring3demo_image zeros 128 in
    (123 ≤ 128
      → elf_parse_image (some stub.1) stub.0
        ≡ some (image_info 0x401080 0x401000 stub_exec_code zeros))
    × (194 ≤ 128
        → elf_parse_image (some demo.1) demo.0
          ≡ some (image_info (user_base + code_off) user_base ring3demo_code zeros))
    × (128 < 123 → stub ≡ (0, zeros))
    × (128 < 194 → demo ≡ (0, zeros))
built_images_parse_example = built_images_parse zeros 128 0x401080 (omega arith)

-- the state in which the next start finds the disk
abbrev flushed : Bool × FsState (Array (Array ℕ))
flushed = flush_both memory_drive one_session

abbrev restarted : FsState (Array (Array ℕ))
restarted = record one_session { inodes = λ i. empty_inode; disk = flushed.1.disk }

flushed-done : flushed.0 ≡ true
unfolding flush_both fs_flush_inodes fs_flush_superblock ata_write28 write_run
flushed-done = refl

superblock-Fits : Fits (superblock_fields one_session.superblock)
unfolding Fits
superblock-Fits = (
  omega arith,
  (
    omega arith,
    (
      omega arith,
      (omega arith, (omega arith, (omega arith, (omega arith, (omega arith, record {}))))),
    ),
  ),
)

empty-IsStorable : IsStorable empty_inode
unfolding Fits IsText
empty-IsStorable = record {
  fits = (
    omega arith,
    (
      omega arith,
      (
        omega arith,
        (
          omega arith,
          (
            omega arith,
            (
              omega arith,
              (omega arith, (omega arith, (omega arith, (omega arith, (omega arith, record {}))))),
            ),
          ),
        ),
      ),
    ),
  );
  text = record {};
  short = omega arith;
}

one-IsStorable : IsStorable one_inode
unfolding Fits IsText
one-IsStorable = record {
  fits = (
    omega arith,
    (
      omega arith,
      (
        omega arith,
        (
          omega arith,
          (
            omega arith,
            (
              omega arith,
              (omega arith, (omega arith, (omega arith, (omega arith, (omega arith, record {}))))),
            ),
          ),
        ),
      ),
    ),
  );
  text = record {};
  short = omega arith;
}

one_session-IsStorable : (i : ℕ) → i < fs_max_inodes → IsStorable (one_session.inodes i)
one_session-IsStorable i lt = elim (ℕ_discrete 0 i) [
  | yes e ↦ rw (← e) one-IsStorable
  | no ne ↦ rw (write_ne (λ j. empty_inode) 0 i one_inode ne) empty-IsStorable
]

load-flush_example :
    ((fs_load memory_drive restarted).0 ≡ true)
    × SameTables (fs_load memory_drive restarted).1 one_session
load-flush_example =
    load-flush memory_drive one_session restarted superblock-Fits one_session-IsStorable
      flushed-done refl refl
