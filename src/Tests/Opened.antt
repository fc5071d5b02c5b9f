-- ===== src/Tests/Opened.antt =====
-- The theorems on open files and on the wait for tasks, applied to the sample states.
use bumbel_bee.Base.{
  ℕ, ◌+◌, ◌-◌, ◌≡◌, refl, not, some, Array, write, ltb, if◌then◌else◌, first_from, arith,
}
use bumbel_bee.Fs.Layout.{zeros}
use bumbel_bee.Vfs.{Fd, vfs_init, vfs_open, parse_trace_session_id, vfs_max_fds}
use bumbel_bee.Vfs.Access.{vfs_read}
use bumbel_bee.Vfs.Paths.{session_path}
use bumbel_bee.Vfs.Reads.{session_fd, given, session_opens, vfs_read_session}
use bumbel_bee.Tests.Sample.{booted}
use bumbel_bee.Tests.Disk.{memory_drive, one_session, one_session-IsValid}
use bumbel_bee.Tests.Files.{counting, info, two_sessions, two_sessions-stored}

first_fd : first_from (λ j. not (vfs_init j).used) vfs_max_fds 0 ≡ some 0
unfolding first_from
first_fd = refl

session_opens_example :
    (vfs_open (session_path 2) 1 vfs_init ≡ (some 0, write vfs_init 0 (session_fd 2 1 0)))
    × (parse_trace_session_id (session_path 2) ≡ some 2)
session_opens_example = session_opens 2 1 0 vfs_init (omega arith) (omega arith) first_fd

-- the session opened for reading, at position 100
abbrev opened : Array Fd
opened = write vfs_init 0 (session_fd 2 1 100)

vfs_read_session_example :
    ((vfs_read memory_drive zeros 0 zeros 64 zeros booted two_sessions.1 opened).0
      ≡ some (given 64 (600 - 100)))
    × ((x : ℕ)
        → (vfs_read memory_drive zeros 0 zeros 64 zeros booted two_sessions.1 opened).1 x
          ≡ (if ltb x (given 64 (600 - 100)) then counting (100 + x) else zeros x))
    × ((vfs_read memory_drive zeros 0 zeros 64 zeros booted two_sessions.1 opened).2
        ≡ write opened 0 (session_fd 2 1 (100 + given 64 (600 - 100))))
vfs_read_session_example =
    vfs_read_session memory_drive zeros counting 600 info one_session 2 1 100 0 64 zeros zeros
      booted opened one_session-IsValid two_sessions-stored (omega arith) (omega arith)
      (omega arith) (omega arith) refl (omega arith) (omega arith)
