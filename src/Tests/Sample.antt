-- ===== src/Tests/Sample.antt =====
-- A kernel just after it has booted: one shell, one address space, and nothing in any queue.
use bumbel_bee.Base.{ℕ, true, false, codes, write}
use bumbel_bee.Data.{
  Kernel, SchedState, Task, running, ready, TraceState, TraceEvent, SessionInfo, ReplayState,
  KeyboardState, Mm, AspaceSlot,
}
use bumbel_bee.Sched.{empty_task}
use bumbel_bee.Power.{empty_stats, mode_balanced}
use bumbel_bee.Net.{empty_packet}
use bumbel_bee.Aspace.{empty_slot, empty_info, kind_kernel}

abbrev pub task : ℕ → ℕ → Task
task pid aspace_id = record empty_task {
  used = true;
  state = ready;
  pid = pid;
  aspace_id = aspace_id;
}

-- the shell runs in slot 0
abbrev pub shell_only : SchedState
shell_only = record {
  tasks = write (λ i. empty_task) 0 (record (task 1 1) { state = running });
  current_task = 0;
  next_pid = 2;
  resched_pending = false;
}

-- the shell, and a task in slot 3 that can run
abbrev pub two_tasks : SchedState
two_tasks = record shell_only { tasks = write shell_only.tasks 3 (task 2 1); next_pid = 3 }

abbrev empty_event : TraceEvent
empty_event = record {
  event_id = 0;
  timestamp = 0;
  pid = 0;
  type = 0;
  size = 0;
  data0 = 0;
  data1 = 0;
}

abbrev empty_session : SessionInfo
empty_session = record {
  session_id = 0;
  size_bytes = 0;
  event_count = 0;
  profile_id = 0;
  start_ticks = 0;
  duration_ticks = 0;
  sequence_hash = 0;
}

abbrev no_replay : ReplayState
no_replay = record {
  active = false;
  failed = false;
  session_id = 0;
  event_count = 0;
  event_index = 0;
  virtual_ticks = 0;
  info = empty_session;
  expected = empty_event;
  actual = empty_event;
}

abbrev quiet_trace : TraceState
quiet_trace = record {
  buffer = λ i. empty_event;
  replay_buffer = λ i. empty_event;
  sessions = λ i. empty_session;
  stats = record {
    events = 0;
    dropped = 0;
    bytes = 0;
    sessions = 0;
    last_duration_ticks = 0;
    last_hash = 0;
    last_buffer_peak = 0;
  };
  recording = false;
  next_event_id = 1;
  current_events = 0;
  record_start_ticks = 0;
  buffer_peak = 0;
  current_profile = 0;
  replay = no_replay;
}

-- A replay of `events` recorded events, the second of which is of slot 3.
abbrev pub replaying : ℕ → TraceState
replaying events = record quiet_trace {
  replay_buffer =
      write (λ i. empty_event) 0 (record empty_event { pid = 1; type = 3; data0 = 0; data1 = 3 });
  replay = record no_replay { active = true; event_count = events };
}

abbrev kernel_slot : AspaceSlot
kernel_slot = record empty_slot {
  used = true;
  info = record empty_info { id = 1; kind = kind_kernel; refcount = 1; label = codes "kernel" };
}

-- four megabytes of free memory from two megabytes on, and the kernel's address space
abbrev pub memory_management : Mm
memory_management = record {
  memory = record {
    total_bytes = 0x600000;
    used_bytes = 0;
    page_faults = 0;
    region_count = 1;
    alloc_base = 0x200000;
    alloc_next = 0x200000;
    alloc_limit = 0x600000;
  };
  aspace = record {
    table = write (λ i. empty_slot) 0 kernel_slot;
    next_aspace_id = 2;
    kernel_aspace_id = 1;
    kernel_cr3 = 0x100000;
  };
  bytes = λ i. 0;
  cr3 = 0x100000;
}

abbrev pub empty_keyboard : KeyboardState
empty_keyboard = record {
  buffer = λ i. 0;
  head = 0;
  tail = 0;
  left_shift = false;
  right_shift = false;
  extended_prefix = false;
}

abbrev pub booted : Kernel
booted = record {
  ticks = 0;
  sched = shell_only;
  trace = quiet_trace;
  power = record {
    mode = mode_balanced;
    keyboard_q = λ i. 0;
    keyboard_head = 0;
    keyboard_count = 0;
    ticks_since_flush = 0;
    stats = empty_stats;
  };
  keyboard = empty_keyboard;
  net = record {
    rx_queue = λ i. empty_packet;
    tx_queue = λ i. empty_packet;
    rx_head = 0;
    rx_count = 0;
    tx_head = 0;
    tx_count = 0;
    tx_pending_bytes = 0;
    next_packet_id = 1;
    stats = record {
      tx_packets = 0;
      tx_bytes = 0;
      rx_packets = 0;
      rx_bytes = 0;
      dropped_packets = 0;
      queue_depth = 0;
      loopback_enabled = 1;
      last_packet_id = 0;
    };
  };
  mm = memory_management;
}

-- the kernel with a second task
abbrev pub busy : Kernel
busy = record booted { sched = two_tasks }
