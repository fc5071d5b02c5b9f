-- ===== src/Vfs/Reads.antt =====
-- A stored session, opened and read through the descriptors of kernel/vfs.c.
use bumbel_bee.Base.{
  ℕ, ◌+◌, ◌-◌, ◌^◌, ◌<◌, ◌≤◌, ◌≡◌, ◌≢◌, refl, ◌∙◌, ap, true, false, Bool-cases, inl, inr, not, some,
  Array, ne→==, leb, ltb, lt→ltb, le→ltb, lt→leb, if◌then◌else◌, first_from, u32, length, write,
  arith,
}
use native.Mathlib.Decide.{dec_lt}
use bumbel_bee.Data.{Kernel, FsState, SessionInfo}
use bumbel_bee.Ata.{Drive}
use bumbel_bee.Fs.Sessions.{fs_read_trace_session, fs_write_trace_session}
use bumbel_bee.Fs.Table.{IsValid}
use bumbel_bee.Fs.RoundTrip.{Reads, write_session-Reads}
use bumbel_bee.Vfs.{
  Fd, parse_trace_session_id, vfs_open, vfs_max_fds, vfs_scratch_max, vfs_o_wronly,
  node_trace_session, deliver,
}
use bumbel_bee.Vfs.Access.{read_trace_file, read_from_node, vfs_read}
use bumbel_bee.Vfs.Paths.{session_path, session_path_lem}

-- the descriptor of an opened session
abbrev pub session_fd : ℕ → ℕ → ℕ → Fd
session_fd id flags pos = record {
  used = true;
  flags = flags;
  pos = pos;
  type = node_trace_session;
  path = session_path id;
}

-- how many bytes a read of `count` gives where `left` are left
abbrev pub given : ℕ → ℕ → ℕ
given count left = if ltb count left then count else left

-- The name that a session's number prints as, below /trace, opens it, where a descriptor is free and
-- the number is a 32-bit word other than 0: the first free descriptor is taken, at the start of the
-- file, and the number is read back from the name.
pub session_opens :
    (id flags i : ℕ) (fds : Array Fd)
    → id ≢ 0
    → id < 2 ^ 32
    → first_from (λ j. not (fds j).used) vfs_max_fds 0 ≡ some i
    → (vfs_open (session_path id) flags fds ≡ (some i, write fds i (session_fd id flags 0)))
      × (parse_trace_session_id (session_path id) ≡ some id)
unfolding vfs_open
session_opens id flags i fds positive word free =
    let (kind, number, short) = session_path_lem id positive word in
    let fits : leb 64 (length (session_path id)) ≡ false =
      lt→leb (length (session_path id)) 64 short in
    (
      rw (vfs_open, kind, free, fits)
          (ap (λ t. (some i, write fds i (record (session_fd id flags 0) { type = t }))) kind),
      number,
    )

given_inside : (count size pos x : ℕ) → x < given count (size - pos) → pos + x < size
given_inside count size pos x lt = ground arith

-- The end of a read of `size` bytes of text.
deliver_lem :
    (fd : Fd) (size : ℕ) (text : Array ℕ) (count : ℕ) (buf : Array ℕ)
    → size ≤ vfs_scratch_max
    → let r = deliver fd size text count buf in
      (r.0 ≡ some (given count (size - fd.pos)))
      × ((x : ℕ)
          → r.1 x ≡ (if ltb x (given count (size - fd.pos)) then text (fd.pos + x) else buf x))
      × (fd.pos ≤ size → r.2 ≡ record fd { pos = fd.pos + given count (size - fd.pos) })
unfolding deliver
deliver_lem fd size text count buf small =
    let left = size - fd.pos in
    let n : (if ltb count left then u32 count else left) ≡ given count left = ground arith in
    elim (Bool-cases (leb size fd.pos)) [
      | inl past ↦
          let nothing : given count left ≡ 0 = ground arith in
          rw (deliver, past, nothing)
            (refl, λ x. ground arith, λ le. ap (λ p. record fd { pos = p }) (omega arith))
      | inr more ↦
          rw (deliver, more, n)
            (refl, λ x. refl, λ le. ap (λ p. record fd { pos = p }) (ground arith))
    ]

module _ (drive : Drive) where
  open drive use {Disk}

  -- A session that reads as its bytes, read through a descriptor.
  read_file_lem :
      (id size : ℕ) (src : Array ℕ) (info : SessionInfo) (s : FsState Disk) (flags pos : ℕ)
      (stack : Array ℕ) (count : ℕ) (buf : Array ℕ)
      → Reads drive id size src info s
      → id ≢ 0
      → id < 2 ^ 32
      → size ≤ vfs_scratch_max
      → let r = read_trace_file drive (session_fd id flags pos) stack count buf s in
        (r.0 ≡ some (given count (size - pos)))
        × ((x : ℕ) → r.1 x ≡ (if ltb x (given count (size - pos)) then src (pos + x) else buf x))
        × (pos ≤ size → r.2 ≡ session_fd id flags (pos + given count (size - pos)))
  unfolding read_trace_file
  read_file_lem id size src info s flags pos stack count buf h positive word small =
      let (kind, number, short) = session_path_lem id positive word in
      let fits : ltb vfs_scratch_max size ≡ false = le→ltb vfs_scratch_max size small in
      let text = (fs_read_trace_session drive id stack s).1 in
      let (result, content, moved) =
        deliver_lem (session_fd id flags pos) size text count buf small in
      let same : (x : ℕ)
          → (if ltb x (given count (size - pos)) then text (pos + x) else buf x)
            ≡ (if ltb x (given count (size - pos)) then src (pos + x) else buf x) =
        (λ x. elim (dec_lt x (given count (size - pos))) [
          | yes lt ↦
              let inside : ltb (pos + x) size ≡ true =
                lt→ltb (pos + x) size (given_inside count size pos x lt) in
              let here =
                h.content stack (pos + x)
                ∙ ap (λ b. if b then src (pos + x) else stack (pos + x)) inside in
              rw here refl
          | no past ↦ rw (le→ltb x (given count (size - pos)) (omega arith)) refl
        ]) in
      rw (read_trace_file, number, h.described, fits, h.reads stack, h.size stack)
        (result, λ x. content x ∙ same x, moved)

  -- A session of 1024 bytes at most, stored under a number that is a 32-bit word other than 0, where
  -- the table of inodes was in order, is read through a descriptor that is open on it for reading,
  -- at a position up to its end: the read gives the bytes from that position on, as many as are
  -- wanted and left, leaves the rest of the buffer, and moves the position behind them.
  pub vfs_read_session :
      (image : Array ℕ) (src : Array ℕ) (bytes : ℕ) (info : SessionInfo) (s : FsState Disk)
      (id flags pos i count : ℕ) (stack buf : Array ℕ) (k : Kernel) (fds : Array Fd)
      → IsValid s
      → (fs_write_trace_session drive src bytes (some info) s).0 ≡ some id
      → id ≢ 0
      → id < 2 ^ 32
      → bytes ≤ vfs_scratch_max
      → i < vfs_max_fds
      → fds i ≡ session_fd id flags pos
      → flags ≢ vfs_o_wronly
      → pos ≤ bytes
      → let s' = (fs_write_trace_session drive src bytes (some info) s).1 in
        let n = given count (bytes - pos) in
        let r = vfs_read drive image i stack count buf k s' fds in
        (r.0 ≡ some n)
        × ((x : ℕ) → r.1 x ≡ (if ltb x n then src (pos + x) else buf x))
        × (r.2 ≡ write fds i (session_fd id flags (pos + n)))
  unfolding vfs_read read_from_node
  vfs_read_session image src bytes info s id flags pos i count stack buf k fds valid stored positive
        word small open_fd opened readable within =
      let s' = (fs_write_trace_session drive src bytes (some info) s).1 in
      let h = write_session-Reads drive src bytes info s id valid (omega arith) stored in
      let (result, content, moved) =
        read_file_lem id bytes src info s' flags pos stack count buf h positive word small in
      let below : leb vfs_max_fds i ≡ false = lt→leb i vfs_max_fds open_fd in
      let node : read_from_node drive image (fds i) stack count buf k s'
          ≡ read_trace_file drive (session_fd id flags pos) stack count buf s' =
        ap (λ f. read_from_node drive image f stack count buf k s') opened in
      rw (vfs_read, node, below, opened, ne→== flags vfs_o_wronly readable)
        (result, content, ap (write fds i) (moved within))
