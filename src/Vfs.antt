-- ===== src/Vfs.antt =====
-- kernel/vfs.c: the table of open files, and reading and writing through it. A descriptor that is
-- negative stands for a number above the table. What the buffer on the stack holds before it is
-- filled, and behind its end, is `stack`.
pub mod Render
pub mod Access
pub mod Paths
pub mod Reads
use mathlib.Core.Bool.{Bool}
use bumbel_bee.Base.{
  ℕ, zero, suc, ◌+◌, ◌-◌, ◌*◌, ◌%◌, true, false, not, ◌&&◌, ◌||◌, Option, none, some, List, [], ◌∷◌,
  Array, ◌==◌, ltb, leb, if◌then◌else◌, u32, length, drop, codes, first_from, write,
}
use bumbel_bee.Data.{Kernel, FsState, SessionInfo}
use bumbel_bee.Strings.{same_string, same_start, string_at}
use bumbel_bee.Text.{Out, append_all}
use bumbel_bee.Net.{netfs_write_path}
use bumbel_bee.Net.Render.{netfs_render_path}
use bumbel_bee.Ata.{Drive}
use bumbel_bee.Fs.Layout.{zeros}
use bumbel_bee.Fs.Sessions.{fs_read_trace_session, fs_get_trace_session_info}

abbrev pub vfs_max_fds : ℕ
vfs_max_fds = 32

abbrev vfs_path_max : ℕ
vfs_path_max = 64

abbrev pub vfs_scratch_max : ℕ
vfs_scratch_max = 1024

abbrev pub vfs_o_rdonly : ℕ
vfs_o_rdonly = 1

abbrev pub vfs_o_wronly : ℕ
vfs_o_wronly = 2

-- enum vfs_node_type
pub data Node : Type 0 where
  node_invalid node_net node_proc_tasks node_proc_meminfo node_proc_aspace : Node
  node_trace_index node_trace_session node_trace_meta node_bin : Node

-- struct vfs_fd
pub record Fd : Type 0 where
  pub used : Bool
  pub flags : ℕ
  pub pos : ℕ
  pub type : Node
  pub path : List ℕ

abbrev empty_fd : Fd
empty_fd = record { used = false; flags = 0; pos = 0; type = node_invalid; path = [] }

-- The part of `path_kind` for names below /trace.
unfoldable pub session_kind : List ℕ → Node
unfolding same_string same_start
session_kind path =
    let n = length path in
    if ltb 11 n && same_start path (codes "/trace/session-") 15
    then (if ltb 4 n && same_string (drop (n - 4) path) (codes ".bin")
        then node_trace_session
        else (if ltb 5 n && same_string (drop (n - 5) path) (codes ".meta")
            then node_trace_meta
            else node_invalid))
    else node_invalid

unfoldable pub path_kind : List ℕ → Node
unfolding same_string same_start session_kind
path_kind [] = node_invalid
path_kind (c ∷ cs) =
    let path = c ∷ cs in
    if same_start path (codes "/net/") 5 || same_string path (codes "/net")
    then node_net
    else (if same_string path (codes "/proc/tasks")
        then node_proc_tasks
        else (if same_string path (codes "/proc/meminfo")
            then node_proc_meminfo
            else (if same_string path (codes "/proc/aspace")
                then node_proc_aspace
                else (if same_string path (codes "/trace")
                      || same_string path (codes "/trace/")
                      || same_string path (codes "/trace/index")
                    then node_trace_index
                    else (if same_string path (codes "/bin")
                          || same_string path (codes "/bin/")
                          || same_string path (codes "/bin/index")
                          || same_start path (codes "/bin/") 5
                        then node_bin
                        else session_kind path)))))

-- the loop of `parse_trace_session_id` over the digits
unfoldable pub parse_digits : List ℕ → ℕ → ℕ
parse_digits [] value = value
parse_digits (c ∷ cs) value =
    let rest = parse_digits cs (u32 (value * 10 + (c - 48))) in
    if leb 48 c && leb c 57 then rest else value

-- `none` is -1
unfoldable pub parse_trace_session_id : List ℕ → Option ℕ
unfolding same_start parse_digits
parse_trace_session_id path =
    let value = parse_digits (drop 15 path) 0 in
    if same_start path (codes "/trace/session-") 15
    then (if value == 0 then none else some value)
    else none

abbrev pub vfs_init : Array Fd
vfs_init i = empty_fd

-- `none` is -1. A path that does not fit leaves its slot free.
unfoldable pub vfs_open : List ℕ → ℕ → Array Fd → Option ℕ × Array Fd
unfolding path_kind
vfs_open path flags fds = elim (path_kind path) [
  | node_invalid ↦ (none, fds)
  | _ ↦ elim (first_from (λ i. not (fds i).used) vfs_max_fds 0) [
    | none ↦ (none, fds)
    | some i ↦
        let fd = record (fds i) { flags = flags; pos = 0; type = path_kind path } in
        if leb vfs_path_max (length path)
        then (none, write fds i (record fd { used = false }))
        else (some i, write fds i (record fd { used = true; path = path }))
  ]
]

unfoldable pub vfs_close : ℕ → Array Fd → Bool × Array Fd
vfs_close i fds =
    if leb vfs_max_fds i || not (fds i).used then (false, fds) else (true, write fds i empty_fd)

-- memcpy(buf, text + pos, n)
abbrev pub copy_out : Array ℕ → Array ℕ → ℕ → ℕ → Array ℕ
copy_out buf text pos n x = if ltb x n then text (pos + x) else buf x

-- The end of each read: as many of the `total` bytes as are wanted, from the position on.
unfoldable pub deliver : Fd → ℕ → Array ℕ → ℕ → Array ℕ → Option ℕ × Array ℕ × Fd
deliver fd total text bytes buf =
    let remain = total - fd.pos in
    let n = if ltb bytes remain then u32 bytes else remain in
    if leb total fd.pos
    then (some 0, buf, fd)
    else (some n, copy_out buf text fd.pos n, record fd { pos = u32 (fd.pos + n) })
