-- ===== src/Vfs/Access.antt =====
-- kernel/vfs.c: `vfs_read` and `vfs_write`, over the parts whose files they read.
use bumbel_bee.Base.{
  ℕ, not, ◌||◌, Option, none, some, List, Array, ◌==◌, ltb, leb, if◌then◌else◌, write,
}
use bumbel_bee.Data.{Kernel, FsState}
use bumbel_bee.Strings.{string_at}
use bumbel_bee.Text.{Out, Piece, append_all}
use bumbel_bee.Net.{netfs_write_path}
use bumbel_bee.Net.Render.{netfs_render_path}
use bumbel_bee.Sched.Queries.{sched_snapshot}
use bumbel_bee.Aspace.Snapshot.{aspace_snapshot}
use bumbel_bee.Ata.{Drive}
use bumbel_bee.Fs.Files.{fs_snapshot_traces}
use bumbel_bee.Fs.Sessions.{fs_read_trace_session, fs_get_trace_session_info}
use bumbel_bee.Exec.Render.{builtin_exec_render_path}
use bumbel_bee.Vfs.Render.{tasks_pieces, meminfo_pieces, aspace_pieces, index_pieces, meta_pieces}
use bumbel_bee.Vfs.{
  Fd, node_invalid, node_net, node_proc_tasks, node_proc_meminfo, node_proc_aspace,
  node_trace_index, node_trace_session, node_trace_meta, node_bin, vfs_max_fds, vfs_scratch_max,
  vfs_o_rdonly, vfs_o_wronly, parse_trace_session_id, deliver,
}

-- What a read returns, with -1 as `none`: the count, the buffer, and the descriptor.
abbrev Reading : Type 0
Reading = Option ℕ × Array ℕ × Fd

-- The text in `scratch`, with its length in `pos`, which counts what did not fit as well.
unfoldable pub render : List Piece → Array ℕ → Out
unfolding append_all
render pieces stack = append_all vfs_scratch_max pieces (record { buf = stack; pos = 0 })

unfoldable deliver_text : Fd → Out → ℕ → Array ℕ → Reading
unfolding deliver
deliver_text fd o bytes buf = deliver fd o.pos o.buf bytes buf

-- the same for a text that may not be there
unfoldable rendered : Fd → Option Out → ℕ → Array ℕ → Reading
unfolding deliver_text
rendered fd none bytes buf = (none, buf, fd)
rendered fd (some o) bytes buf = deliver_text fd o bytes buf

-- `total`, which starts as 0
abbrev pub read_total : Option ℕ → ℕ
read_total none = 0
read_total (some size) = size

module _ (drive : Drive) where
  open drive use {Disk}

  -- `read_trace_file` for the description of a session
  unfoldable pub read_trace_meta : Fd → Array ℕ → ℕ → Array ℕ → FsState Disk → Reading
  unfolding parse_trace_session_id fs_get_trace_session_info render deliver_text
  read_trace_meta fd stack bytes buf s = elim (parse_trace_session_id fd.path) [
    | none ↦ (none, buf, fd)
    | some id ↦ elim (fs_get_trace_session_info drive id s) [
      | none ↦ (none, buf, fd)
      | some info ↦ deliver_text fd (render (meta_pieces info) stack) bytes buf
    ]
  ]

  -- `read_trace_file` for the session itself, which must fit the scratch buffer
  unfoldable pub read_trace_file : Fd → Array ℕ → ℕ → Array ℕ → FsState Disk → Reading
  unfolding parse_trace_session_id fs_get_trace_session_info fs_read_trace_session deliver
  read_trace_file fd stack bytes buf s = elim (parse_trace_session_id fd.path) [
    | none ↦ (none, buf, fd)
    | some id ↦ elim (fs_get_trace_session_info drive id s) [
      | none ↦ (none, buf, fd)
      | some info ↦
          let (ok, scratch, size) = fs_read_trace_session drive id stack s in
          let total = read_total size in
          if ltb vfs_scratch_max info.size_bytes || not ok
          then (none, buf, fd)
          else deliver fd total scratch bytes buf
    ]
  ]

  -- `image` is what the stack holds where `builtin_exec_render_path` reads an image to.
  module _ (image : Array ℕ) where
    unfoldable pub read_from_node : Fd → Array ℕ → ℕ → Array ℕ → Kernel → FsState Disk → Reading
    unfolding netfs_render_path sched_snapshot aspace_snapshot meminfo_pieces fs_snapshot_traces
        render deliver_text rendered read_trace_meta read_trace_file builtin_exec_render_path
    read_from_node fd stack bytes buf k s =
        let net = netfs_render_path fd.path stack vfs_scratch_max k.net in
        let bin = builtin_exec_render_path drive image s fd.path stack vfs_scratch_max in
        elim fd.type [
          | node_net ↦ rendered fd net bytes buf
          | node_proc_tasks ↦
              deliver_text fd (render (tasks_pieces (sched_snapshot 8 k.sched)) stack) bytes buf
          | node_proc_meminfo ↦
              deliver_text fd (render (meminfo_pieces k.mm.memory) stack) bytes buf
          | node_proc_aspace ↦
              deliver_text fd (render (aspace_pieces (aspace_snapshot 16 k.mm.aspace)) stack) bytes
                buf
          | node_trace_index ↦
              deliver_text fd (render (index_pieces (fs_snapshot_traces 16 s.inodes)) stack) bytes
                buf
          | node_trace_session ↦ read_trace_file fd stack bytes buf s
          | node_trace_meta ↦ read_trace_meta fd stack bytes buf s
          | node_bin ↦ rendered fd bin bytes buf
          | node_invalid ↦ (none, buf, fd)
        ]

    -- `buf` is not null.
    unfoldable pub vfs_read :
        ℕ → Array ℕ → ℕ → Array ℕ → Kernel → FsState Disk → Array Fd → Option ℕ × Array ℕ × Array Fd
    unfolding read_from_node
    vfs_read i stack bytes buf k s fds =
        let (result, buf', fd) = read_from_node (fds i) stack bytes buf k s in
        if leb vfs_max_fds i || not (fds i).used || (fds i).flags == vfs_o_wronly
        then (none, buf, fds)
        else (result, buf', write fds i fd)

-- The string that is written: what comes before a zero of the first 256 bytes. `buf` is not null.
unfoldable pub vfs_write : ℕ → Array ℕ → ℕ → Array Fd → Kernel → Option ℕ × Kernel
unfolding string_at netfs_write_path
vfs_write i buf bytes fds k =
    let fd = fds i in
    let count = if leb 257 bytes then 256 else bytes in
    let (done, k') = netfs_write_path (some fd.path) (some (string_at count buf 0)) k in
    if leb vfs_max_fds i || not fd.used || fd.flags == vfs_o_rdonly
    then (none, k)
    else elim fd.type [ node_net ↦ if done then (some count, k') else (none, k') | _ ↦ (none, k) ]
