-- ===== src/Vfs/Render.antt =====
-- kernel/vfs.c: the text of the files below /proc and /trace, as the appends that build it.
use bumbel_bee.Base.{List, [], ◌∷◌, ◌++◌, codes}
use bumbel_bee.Data.{AspaceInfo, MemoryState, SessionInfo, TraceFileInfo}
use bumbel_bee.Memory.{memory_free_bytes}
use bumbel_bee.Text.{Piece, text, number, char}
use bumbel_bee.Sched.Queries.{TaskInfo, sched_state_name}

abbrev task_line : TaskInfo → List Piece
task_line t =
    number t.pid
    ∷ char 32
    ∷ number t.parent_pid
    ∷ char 32
    ∷ number t.aspace_id
    ∷ char 32
    ∷ text (sched_state_name t.state)
    ∷ char 32
    ∷ number t.cpu_ticks
    ∷ char 32
    ∷ number t.yields
    ∷ char 32
    ∷ text t.exec_path
    ∷ char 32
    ∷ text t.name
    ∷ char 10
    ∷ []

abbrev task_lines : List TaskInfo → List Piece
task_lines [] = []
task_lines (t ∷ rest) = task_line t ++ task_lines rest

abbrev pub tasks_pieces : List TaskInfo → List Piece
tasks_pieces tasks =
    text (codes "pid ppid aspace state cpu_ticks yields exec name\n") ∷ task_lines tasks

unfoldable pub meminfo_pieces : MemoryState → List Piece
unfolding memory_free_bytes
meminfo_pieces m =
    text (codes "MemTotal: ")
    ∷ number m.total_bytes
    ∷ text (codes "\nMemUsed: ")
    ∷ number m.used_bytes
    ∷ text (codes "\nMemFree: ")
    ∷ number (memory_free_bytes m)
    ∷ text (codes "\nPageFaults: ")
    ∷ number m.page_faults
    ∷ char 10
    ∷ []

abbrev space_line : AspaceInfo → List Piece
space_line a =
    number a.id
    ∷ char 32
    ∷ number a.kind
    ∷ char 32
    ∷ number a.refcount
    ∷ char 32
    ∷ number a.isolated
    ∷ char 32
    ∷ number a.cr3
    ∷ char 32
    ∷ number a.user_stack_top
    ∷ char 32
    ∷ text a.label
    ∷ char 10
    ∷ []

abbrev space_lines : List AspaceInfo → List Piece
space_lines [] = []
space_lines (a ∷ rest) = space_line a ++ space_lines rest

abbrev pub aspace_pieces : List AspaceInfo → List Piece
aspace_pieces spaces = text (codes "id kind refs isolated cr3 ustack label\n") ∷ space_lines spaces

abbrev session_line : TraceFileInfo → List Piece
session_line f =
    text (codes "session-")
    ∷ number f.session_id
    ∷ text (codes ".bin size=")
    ∷ number f.size_bytes
    ∷ text (codes " events=")
    ∷ number f.event_count
    ∷ char 10
    ∷ []

abbrev session_lines : List TraceFileInfo → List Piece
session_lines [] = []
session_lines (f ∷ rest) = session_line f ++ session_lines rest

abbrev pub index_pieces : List TraceFileInfo → List Piece
index_pieces traces = text (codes "trace sessions\n") ∷ session_lines traces

-- the description of a session
abbrev pub meta_pieces : SessionInfo → List Piece
meta_pieces i =
    text (codes "session=")
    ∷ number i.session_id
    ∷ text (codes "\nbytes=")
    ∷ number i.size_bytes
    ∷ text (codes "\nprofile=")
    ∷ number i.profile_id
    ∷ text (codes "\nevents=")
    ∷ number i.event_count
    ∷ text (codes "\nduration_ticks=")
    ∷ number i.duration_ticks
    ∷ char 10
    ∷ []
