-- ===== src/Fs/Table.antt =====
-- The table of inodes of kernel/fs.c stays in order: each file that is in use lies within the sectors
-- that were given out, ends in its last sector, and a session's number was given out.
use bumbel_bee.Base.{
  ℕ, ◌+◌, ◌*◌, ◌^◌, ◌≤◌, ◌<◌, ◌≡◌, ◌≢◌, refl, true, false, Option, Array, write, write_self,
  write_ne, write_twice, u32, arith,
}
use native.Mathlib.Decide.{ℕ_discrete}
use mathlib.Core.Bool.{false≢true}
use bumbel_bee.Data.{
  FsState, Inode, SessionInfo, fs_data_start_lba, fs_max_inodes, inode_type_trace,
}
use bumbel_bee.Ata.{Drive, sector_size}
use bumbel_bee.Fs.Files.{is_used_as, fresh_inode, sectors_for, disk_full}
use bumbel_bee.Fs.Sessions.{store_session, session_inode, fs_write_trace_session}
use bumbel_bee.Fs.Transfer.{disk_end}
use bumbel_bee.Fs.Outcome.{write_session-elim}

-- The file lies in the sectors from the first data sector to `next_free`.
pub record IsPlaced (next_free : ℕ) (n : Inode) : Type 0 where
  pub from : fs_data_start_lba ≤ n.start_lba
  pub upto : n.start_lba + n.sector_count ≤ next_free
  pub above : n.size_bytes ≤ n.sector_count * sector_size
  pub below : n.sector_count * sector_size ≤ n.size_bytes + sector_size

pub record IsTable (next_free next_id : ℕ) (inodes : Array Inode) : Type 0 where
  pub data_from : fs_data_start_lba ≤ next_free
  pub data_upto : next_free ≤ disk_end
  pub placed : (i : ℕ) → i < fs_max_inodes → (inodes i).used ≢ 0 → IsPlaced next_free (inodes i)
  pub given_out :
      (i : ℕ)
      → i < fs_max_inodes
      → is_used_as inode_type_trace (inodes i) ≡ true
      → (inodes i).session_id < next_id

abbrev pub IsValid : {Disk : Type 0} → FsState Disk → Type 0
IsValid s = IsTable s.superblock.next_free_lba s.superblock.next_session_id s.inodes

IsPlaced-grown : (f f' : ℕ) (n : Inode) → f ≤ f' → IsPlaced f n → IsPlaced f' n
IsPlaced-grown f f' n le h = record {
  from = h.from;
  upto = omega (arith, h.upto);
  above = h.above;
  below = h.below;
}

-- A slot may get any inode that fits the table's new ends.
IsTable-write :
    (f f' d d' i : ℕ) (n : Inode) (t : Array Inode)
    → IsTable f d t
    → f ≤ f'
    → f' ≤ disk_end
    → d ≤ d'
    → (n.used ≢ 0 → IsPlaced f' n)
    → (is_used_as inode_type_trace n ≡ true → n.session_id < d')
    → IsTable f' d' (write t i n)
IsTable-write f f' d d' i n t h grows ends counts fits given = record {
  data_from = omega (arith, h.data_from);
  data_upto = ends;
  placed = λ j lt. elim (ℕ_discrete i j) [
    | yes e ↦ rw (← e) (rw (write_self t i n) fits)
    | no ne ↦
        rw (write_ne t i j n ne) (λ used. IsPlaced-grown f f' (t j) grows (h.placed j lt used))
  ];
  given_out = λ j lt. elim (ℕ_discrete i j) [
    | yes e ↦ rw (← e) (rw (write_self t i n) given)
    | no ne ↦ rw (write_ne t i j n ne) (λ used. omega (arith, h.given_out j lt used))
  ];
}

-- The sectors of a file are what its bytes fill, and one for no bytes.
pub sectors_for_lem :
    (bytes : ℕ)
    → bytes + 511 < 2 ^ 32
    → (bytes ≤ sectors_for bytes * sector_size)
      × (sectors_for bytes * sector_size ≤ bytes + sector_size)
unfolding sectors_for
sectors_for_lem bytes h = ground arith

pub sectors_for_positive : (bytes : ℕ) → sectors_for bytes ≢ 0
unfolding sectors_for
sectors_for_positive bytes zero_sectors = ground arith

pub disk_full_lem :
    (start bytes : ℕ)
    → start ≤ disk_end
    → bytes + 511 < 2 ^ 32
    → disk_full start (sectors_for bytes) ≡ false
    → start + sectors_for bytes ≤ disk_end
disk_full_lem start bytes from small room =
    let (above, below) = sectors_for_lem bytes small in ground arith

session_inode-IsPlaced :
    (id bytes start : ℕ) (info : Option SessionInfo)
    → fs_data_start_lba ≤ start
    → start ≤ disk_end
    → bytes + 511 < 2 ^ 32
    → disk_full start (sectors_for bytes) ≡ false
    → IsPlaced
        (u32 (start + sectors_for bytes))
        (session_inode id bytes start (sectors_for bytes) info)
unfolding session_inode
session_inode-IsPlaced id bytes start info from upto small room =
    let (above, below) = sectors_for_lem bytes small in
    let ends = disk_full_lem start bytes upto small room in
    record { from = from; upto = omega arith; above = above; below = below }

module _ (drive : Drive) where
  open drive use {Disk}

  -- A call of `fs_write_trace_session`, whether it stores a session or fails at any point, keeps
  -- the table of inodes in order, where it was so before, the size of the session does not wrap
  -- when it is rounded to sectors, and the counter of sessions does not wrap: each file in use
  -- lies within the sectors given out and ends in its last one, these lie within the file system,
  -- and the sessions have numbers below the next one.
  pub write_session-IsValid :
      (src : Array ℕ) (bytes : ℕ) (info : Option SessionInfo) (s : FsState Disk)
      → IsValid s
      → bytes + 511 < 2 ^ 32
      → s.superblock.next_session_id + 1 < 2 ^ 32
      → IsValid (fs_write_trace_session drive src bytes info s).1
  unfolding store_session session_inode
  write_session-IsValid src bytes info s h small ids =
      let free = s.superblock.next_free_lba in
      let id = s.superblock.next_session_id in
      let n = session_inode id bytes free (sectors_for bytes) info in
      let cleared = record fresh_inode { used = 0 } in
      write_session-elim drive src bytes info s (λ r. IsValid r.1) h
        (λ i found room. rw (write_twice s.inodes i fresh_inode cleared) (
          IsTable-write free free id id i cleared s.inodes h (omega arith) h.data_upto (omega arith)
            (λ used. absurd (used refl)) (λ used. absurd (false≢true used))))
        (λ i flushed disk on found room ok kept.
          let ends = disk_full_lem free bytes h.data_upto small room in
          rw (write_twice s.inodes i fresh_inode n) (
            IsTable-write free (u32 (free + sectors_for bytes)) id (u32 (id + 1)) i n s.inodes h
              (omega arith) (omega arith) (omega arith)
              (λ used. session_inode-IsPlaced id bytes free info h.data_from h.data_upto small room)
              (λ used. omega arith)))
