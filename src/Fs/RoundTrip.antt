-- ===== src/Fs/RoundTrip.antt =====
-- A session that kernel/fs.c has stored reads back.
use bumbel_bee.Base.{
  ℕ, ◌+◌, ◌≤◌, ◌<◌, ◌^◌, ◌≡◌, ◌≢◌, refl, ◌∙◌, sym, ap, true, some, Array, ◌==◌, write, write_self,
  write_ne, write_twice, first_from-IsFirst, first_from-some, if◌then◌else◌, u32, ltb, arith,
}
use native.Mathlib.Decide.{ℕ_discrete}
use mathlib.Core.Path.{subst}
use bumbel_bee.Data.{FsState, Inode, SessionInfo, fs_max_inodes, inode_type_trace}
use bumbel_bee.Ata.{Drive}
use bumbel_bee.Ata.Runs.{Holds, Holds-kept}
use bumbel_bee.Fs.Files.{
  is_session, is_used_as, fs_find_session, fresh_inode, sectors_for, read_found,
}
use bumbel_bee.Fs.Sessions.{
  session_inode, info_found, store_session, fs_write_trace_session, fs_read_trace_session,
  fs_get_trace_session_info,
}
use bumbel_bee.Fs.Transfer.{
  file_sector, write_file-Holds, read_file-overwritten, write_file_ready, disk_end,
}
use bumbel_bee.Fs.Outcome.{SameData, written_disk, write_session-elim}
use bumbel_bee.Fs.Table.{IsValid, disk_full_lem, sectors_for_lem, sectors_for_positive}
use bumbel_bee.Fs.Kept.{find_session-IsFound}

-- A session whose number no other one has is found where it was put.
find_session_put :
    (session_id i : ℕ) (n : Inode) (inodes : Array Inode)
    → i < fs_max_inodes
    → is_session session_id n ≡ true
    → ((j : ℕ)
        → j < fs_max_inodes
        → is_used_as inode_type_trace (inodes j) ≡ true
        → (inodes j).session_id ≢ session_id)
    → fs_find_session session_id (write inodes i n) ≡ some i
unfolding fs_find_session
find_session_put session_id i n inodes below this others =
    let t = write inodes i n in
    let passes = ap (is_session session_id) (write_self inodes i n) ∙ this in
    let (k, found) =
      first_from-some (λ j. is_session session_id (t j)) fs_max_inodes 0 i (omega arith)
        (omega arith) passes in
    elim (ℕ_discrete i k) [
      | yes e ↦ found ∙ ap some (sym e)
      | no ne ↦
          let f = find_session-IsFound session_id k t found in
          let same = write_ne inodes i k n ne in
          absurd (
            others k f.in_table (ap (is_used_as inode_type_trace) (sym same) ∙ f.traced)
              (ap (λ m. m.session_id) (sym same) ∙ f.same_id))
    ]

-- What a session of these bytes reads as: its bytes in front, the rest of the buffer behind them,
-- and what it was stored with.
pub record Reads (drive : Drive) (id bytes : ℕ) (src : Array ℕ) (info : SessionInfo)
    (s : FsState (drive.Disk)) : Type 0 where
  pub reads : (buffer : Array ℕ) → (fs_read_trace_session drive id buffer s).0 ≡ true
  pub size : (buffer : Array ℕ) → (fs_read_trace_session drive id buffer s).2 ≡ some bytes
  pub content :
      (buffer : Array ℕ) (x : ℕ)
      → (fs_read_trace_session drive id buffer s).1 x ≡ (if ltb x bytes then src x else buffer x)
  pub described :
      fs_get_trace_session_info drive id s
      ≡ some
          (record info { session_id = id; size_bytes = bytes; event_count = u32 info.event_count })

module _ (drive : Drive) where
  open drive use {Disk, read_sector}

  -- A session that lies on the disk, and is found, reads as what it was stored with.
  stored-Reads :
      (id bytes i : ℕ) (src : Array ℕ) (info : SessionInfo) (s : FsState Disk) (start : ℕ)
      → s.fs_online ≡ true
      → s.ata_ready ≡ true
      → start + sectors_for bytes ≤ disk_end
      → bytes + 511 < 2 ^ 32
      → fs_find_session id s.inodes ≡ some i
      → s.inodes i ≡ session_inode id bytes start (sectors_for bytes) (some info)
      → ((j : ℕ) → j < sectors_for bytes → Holds drive (file_sector src bytes j) (start + j) s.disk)
      → Reads drive id bytes src info s
  unfolding fs_read_trace_session fs_get_trace_session_info read_found info_found session_inode
  stored-Reads id bytes i src info s start online ready fits small found file holds =
      let (above, below) = sectors_for_lem bytes small in
      let transfer = λ (buffer : Array ℕ).
        read_file-overwritten drive (sectors_for bytes) 0 start bytes src buffer s.disk
          (omega arith) (omega arith) (omega arith) (λ j p q. holds j (omega arith)) in
      record {
        reads = λ buffer.
            let (ok, rest) = transfer buffer in
            rw (found, read_found, file, online, ready, ok) refl;
        size = λ buffer.
            let (ok, rest) = transfer buffer in
            rw (found, read_found, file, online, ready, ok) refl;
        content = λ buffer x.
            let (ok, rest) = transfer buffer in
            rw (found, read_found, file, online, ready, ok) (rest x ∙ ground arith);
        described = rw (found, info_found, file, online) refl;
      }

  -- A session of a size that does not wrap when it is rounded to sectors, stored under the number
  -- that `fs_write_trace_session` returns, where the table of inodes was in order: reading it
  -- succeeds, gives its size, fills the front of the buffer with its bytes and leaves the rest,
  -- and its description is the one it was stored with, with that number and size, and the count of
  -- events as a 32-bit word.
  pub write_session-Reads :
      (src : Array ℕ) (bytes : ℕ) (info : SessionInfo) (s : FsState Disk) (id : ℕ)
      → IsValid s
      → bytes + 511 < 2 ^ 32
      → (fs_write_trace_session drive src bytes (some info) s).0 ≡ some id
      → Reads drive id bytes src info (fs_write_trace_session drive src bytes (some info) s).1
  unfolding store_session SameData session_inode
  write_session-Reads src bytes info s id valid small =
      let free = s.superblock.next_free_lba in
      write_session-elim drive src bytes (some info) s
        (λ r. r.0 ≡ some id → Reads drive id bytes src info r.1) (λ refused. cc)
        (λ i found room refused. cc)
        (λ i flushed disk on free_slot room ok kept given.
          let next = s.superblock.next_session_id in
          let same : next ≡ id = ground arith in
          let ends = disk_full_lem free bytes valid.data_upto small room in
          let n = session_inode next bytes free (sectors_for bytes) (some info) in
          let slot =
            (first_from-IsFirst (λ j. (s.inodes j).used == 0) fs_max_inodes 0 i free_slot).below in
          let found =
            find_session_put next i n s.inodes slot (ground arith)
              (λ j below used e. omega (arith, valid.given_out j below used)) in
          let t = record s {
            superblock = record (s.superblock) {
              next_session_id = u32 (next + 1);
              next_free_lba = u32 (free + sectors_for bytes);
            };
            inodes = write s.inodes i n;
            disk = disk;
          } in
          rw (write_twice s.inodes i fresh_inode n) (
            subst (λ k. Reads drive k bytes src info t) same
              (stored-Reads next bytes i src info t free on
                (write_file_ready drive (sectors_for bytes) 0 s.ata_ready free src bytes s.disk
                  (sectors_for_positive bytes) ok)
                ends small found (write_self s.inodes i n)
                (λ j lt.
                  Holds-kept drive (file_sector src bytes j) (free + j)
                    (written_disk drive src bytes s).1 disk
                    (kept (free + j) (omega (arith, valid.data_from)))
                    (write_file-Holds drive (sectors_for bytes) 0 s.ata_ready free src bytes s.disk
                      (omega arith) ok j (omega arith) (omega arith))))))
