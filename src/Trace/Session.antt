-- ===== src/Trace/Session.antt =====
-- kernel/trace.c: the end of a recording, which is stored as a session of the file system, and the
-- start of a replay, which reads one.
use bumbel_bee.Base.{
  ℕ, ◌+◌, ◌*◌, ◌/◌, ◌%◌, true, false, Option, none, some, List, [], ◌∷◌, Array, leb, if◌then◌else◌,
  u32, sub64, write,
}
use bumbel_bee.Data.{Kernel, TraceState, ReplayState, TraceEvent, SessionInfo, FsState}
use bumbel_bee.Bytes.{load_le, store_fields}
use bumbel_bee.Clock.{pit_ticks}
use bumbel_bee.Ata.{Drive}
use bumbel_bee.Fs.Layout.{zeros}
use bumbel_bee.Fs.Sessions.{
  fs_write_trace_session, fs_read_trace_session, fs_get_trace_session_info,
}
use bumbel_bee.Trace.{profile_none, trace_hash_events}

-- sizeof(struct trace_event)
abbrev pub event_size : ℕ
event_size = 40

abbrev trace_session_cap : ℕ
trace_session_cap = 16

abbrev pub event_fields : TraceEvent → List (ℕ × ℕ)
event_fields e =
    (8, e.event_id)
    ∷ (8, e.timestamp)
    ∷ (4, e.pid)
    ∷ (2, e.type)
    ∷ (2, e.size)
    ∷ (8, e.data0)
    ∷ (8, e.data1)
    ∷ []

abbrev pub encode_event : TraceEvent → Array ℕ
encode_event e = store_fields (event_fields e) zeros 0

unfoldable pub decode_event : Array ℕ → TraceEvent
decode_event m = record {
  event_id = load_le m 0 8;
  timestamp = load_le m 8 8;
  pid = load_le m 16 4;
  type = load_le m 20 2;
  size = load_le m 22 2;
  data0 = load_le m 24 8;
  data1 = load_le m 32 8;
}

-- an array of events as it lies in memory, and back
abbrev pub encode_events : Array TraceEvent → Array ℕ
encode_events events x = encode_event (events (x / event_size)) (x % event_size)

abbrev pub decode_events : Array ℕ → Array TraceEvent
decode_events m i = decode_event (λ x. m (i * event_size + x))

abbrev pub empty_event : TraceEvent
empty_event = record {
  event_id = 0;
  timestamp = 0;
  pid = 0;
  type = 0;
  size = 0;
  data0 = 0;
  data1 = 0;
}

abbrev pub empty_info : SessionInfo
empty_info = record {
  session_id = 0;
  size_bytes = 0;
  event_count = 0;
  profile_id = 0;
  start_ticks = 0;
  duration_ticks = 0;
  sequence_hash = 0;
}

unfoldable pub trace_init : TraceState → TraceState
trace_init t = record t {
  stats = record {
    events = 0;
    dropped = 0;
    bytes = 0;
    sessions = 0;
    last_duration_ticks = 0;
    last_hash = 0;
    last_buffer_peak = 0;
  };
  buffer_peak = 0;
  current_profile = profile_none;
  replay = record {
    active = false;
    failed = false;
    session_id = 0;
    event_count = 0;
    event_index = 0;
    virtual_ticks = 0;
    info = empty_info;
    expected = empty_event;
    actual = empty_event;
  };
}

-- `info` as `trace_stop` fills it in, with the number 0
unfoldable pub recorded_info : Kernel → SessionInfo
unfolding pit_ticks trace_hash_events
recorded_info k = record {
  session_id = 0;
  size_bytes = u32 (k.trace.current_events * event_size);
  event_count = k.trace.current_events;
  profile_id = k.trace.current_profile;
  start_ticks = k.trace.record_start_ticks;
  duration_ticks = sub64 (pit_ticks k) k.trace.record_start_ticks;
  sequence_hash = trace_hash_events k.trace.buffer k.trace.current_events;
}

-- `trace_stop` before it stores the session
unfoldable pub stop_recording : Kernel → TraceState
unfolding recorded_info
stop_recording k = record (k.trace) {
  recording = false;
  stats = record (k.trace.stats) {
    last_duration_ticks = (recorded_info k).duration_ticks;
    last_hash = (recorded_info k).sequence_hash;
    last_buffer_peak = k.trace.buffer_peak;
  };
}

-- The entry of `sessions` for a session that was stored under a number.
unfoldable pub list_session : Option ℕ → SessionInfo → TraceState → TraceState
list_session none info t = t
list_session (some id) info t =
    let entry = record info { session_id = id } in
    if leb t.stats.sessions trace_session_cap
    then record t { sessions = write t.sessions (sub64 t.stats.sessions 1) entry }
    else t

-- `info` once it is asked for, and cleared where that fails
abbrev pub info_or_zero : Option SessionInfo → SessionInfo
info_or_zero info = elim info [ none ↦ empty_info | some found ↦ found ]

-- `bytes`, which starts as 0
abbrev bytes_read : Option ℕ → ℕ
bytes_read size = elim size [ none ↦ 0 | some bytes ↦ bytes ]

module _ (drive : Drive) where
  open drive use {Disk}

  unfoldable pub trace_stop : Kernel → FsState Disk → Kernel × FsState Disk
  unfolding recorded_info stop_recording list_session fs_write_trace_session
  trace_stop k s =
      let info = recorded_info k in
      let t = stop_recording k in
      let bytes = u32 (t.current_events * event_size) in
      let (stored, s') =
        fs_write_trace_session drive (encode_events t.buffer) bytes (some info) s in
      (record k { trace = list_session stored info t }, s')

  -- the state of a replay of `bytes` bytes that is about to start
  unfoldable pub fresh_replay : ℕ → ℕ → SessionInfo → ReplayState
  fresh_replay session_id bytes info = record {
    active = true;
    failed = false;
    session_id = session_id;
    event_count = bytes / event_size;
    event_index = 0;
    virtual_ticks = info.start_ticks;
    info = info;
    expected = empty_event;
    actual = empty_event;
  }

  -- `none` is -1; otherwise the description that is stored through `info`.
  unfoldable pub trace_replay_begin :
      ℕ → FsState Disk → TraceState → Option SessionInfo × TraceState
  unfolding fs_read_trace_session fs_get_trace_session_info fresh_replay
  trace_replay_begin session_id s t =
      let (ok, memory, size) =
        fs_read_trace_session drive session_id (encode_events t.replay_buffer) s in
      let loaded = record t { replay_buffer = decode_events memory } in
      let info = info_or_zero (fs_get_trace_session_info drive session_id s) in
      let bytes = bytes_read size in
      if ok
      then (
        some info,
        record loaded { replay = fresh_replay session_id bytes info; next_event_id = 1 },
      )
      else (none, loaded)

  -- What `trace_replay_session` prints: the number of events, their hash, and the one that was
  -- stored. `replay_buf` is what its buffer on the stack holds.
  unfoldable pub trace_replay_session : ℕ → Array TraceEvent → FsState Disk → Option (ℕ × ℕ × ℕ)
  unfolding fs_read_trace_session fs_get_trace_session_info trace_hash_events
  trace_replay_session session_id replay_buf s =
      let (ok, memory, size) =
        fs_read_trace_session drive session_id (encode_events replay_buf) s in
      let info = info_or_zero (fs_get_trace_session_info drive session_id s) in
      let count = bytes_read size / event_size in
      if ok
      then some (count, trace_hash_events (decode_events memory) count, info.sequence_hash)
      else none
