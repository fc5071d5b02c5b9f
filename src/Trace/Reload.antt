-- ===== src/Trace/Reload.antt =====
-- A recording that kernel/trace.c has stored is the record of the replay that loads it.
use mathlib.Core.List.{map}
use mathlib.Core.Path.{subst}
use bumbel_bee.Base.{
  ℕ, ◌-◌, ◌*◌, ◌/◌, ◌≤◌, ◌<◌, ◌≡◌, ◌↔◌, refl, ◌∙◌, sym, ap, fun_ext, true, false, Option, some,
  List, Array, inl, inr, u32, if◌then◌else◌, lt→ltb, arith,
}
use bumbel_bee.Data.{Kernel, TraceState, SessionInfo, FsState}
use bumbel_bee.Bytes.{Fits}
use bumbel_bee.Ata.{Drive}
use bumbel_bee.Fs.Sessions.{fs_write_trace_session, fs_read_trace_session}
use bumbel_bee.Fs.Table.{IsValid}
use bumbel_bee.Fs.Refusal.{HasRoom, Accepts, write_session_decides}
use bumbel_bee.Fs.RoundTrip.{Reads, write_session-Reads}
use bumbel_bee.Trace.{trace_buffer_cap, event_pid}
use bumbel_bee.Trace.Session.{
  event_size, event_fields, encode_events, decode_events, recorded_info, stop_recording, trace_stop,
  trace_replay_begin, fresh_replay,
}
use bumbel_bee.Trace.Codec.{events_round_trip, list_session-recording, slice-agree}
use bumbel_bee.Trace.Steps.{Call, call_summary, summary}
use bumbel_bee.Trace.Replay.{Ready, remaining, verdict, replay_accepts_iff}
use bumbel_bee.Trace.Capture.{captured}

-- What the recorder holds fits a session.
pub record IsStored (k : Kernel) : Type 0 where
  pub within : k.trace.current_events ≤ trace_buffer_cap
  pub fits : (i : ℕ) → i < k.trace.current_events → Fits (event_fields (k.trace.buffer i))

-- the size of the session
abbrev pub session_bytes : Kernel → ℕ
session_bytes k = k.trace.current_events * event_size

module _ (drive : Drive) where
  open drive use {Disk}

  -- `trace_stop` ends the recording, whatever becomes of the session.
  trace_stop-recording :
      (k : Kernel) (s : FsState Disk) → (trace_stop drive k s).0.trace.recording ≡ false
  unfolding trace_stop stop_recording
  trace_stop-recording k s =
      list_session-recording
        (fs_write_trace_session drive (encode_events k.trace.buffer) (u32 (session_bytes k))
          (some (recorded_info k)) s).0
        (recorded_info k) (stop_recording k)

  -- A session that reads as `n` events starts a replay of them.
  begin_loads :
      (id n : ℕ) (src : Array ℕ) (info : SessionInfo) (s : FsState Disk) (t : TraceState)
      → Reads drive id (n * event_size) src info s
      → let i = record info {
        session_id = id;
        size_bytes = n * event_size;
        event_count = u32 info.event_count;
      } in
        let memory = (fs_read_trace_session drive id (encode_events t.replay_buffer) s).1 in
        trace_replay_begin drive id s t ≡ (
          some i,
          record t {
            replay_buffer = decode_events memory;
            replay = fresh_replay drive id (n * event_size) i;
            next_event_id = 1;
          },
        )
  unfolding trace_replay_begin
  begin_loads id n src info s t h =
      let buffer = encode_events t.replay_buffer in
      rw (trace_replay_begin, h.reads buffer, h.size buffer, h.described) refl

  -- The states after a recording is stopped, and after its replay has begun.
  abbrev pub stopped : Kernel → FsState Disk → Kernel × FsState Disk
  stopped k s = trace_stop drive k s

  abbrev pub replay_of : Kernel → FsState Disk → Option SessionInfo × Kernel
  replay_of k s =
      let (k', s') = stopped k s in
      let (info, t) = trace_replay_begin drive s.superblock.next_session_id s' k'.trace in
      (info, record k' { trace = t })

  pub stop_stores :
      (k : Kernel) (s : FsState Disk)
      → IsStored k
      → Accepts drive
      → s.ata_ready ≡ true
      → IsValid s
      → HasRoom (session_bytes k) s
      → Reads drive s.superblock.next_session_id
          (session_bytes k)
          (encode_events k.trace.buffer)
          (recorded_info k)
          (stopped k s).1
  unfolding trace_stop stop_recording
  stop_stores k s stored accepts ready valid room =
      let src = encode_events k.trace.buffer in
      let info = recorded_info k in
      let width : u32 (session_bytes k) ≡ session_bytes k = omega (arith, stored.within) in
      subst
        (λ b.
          Reads drive s.superblock.next_session_id (session_bytes k) src info
            (fs_write_trace_session drive src b (some info) s).1)
        (sym width)
        (elim (write_session_decides drive src (session_bytes k) (some info) s accepts ready valid
          (omega (arith, stored.within))) [
            | inl (yes_room, stores) ↦
                write_session-Reads drive src (session_bytes k) info s s.superblock.next_session_id
                  valid (omega (arith, stored.within)) stores
            | inr (no_room, refused) ↦ absurd (no_room room)
          ])

  -- What a replay of the stopped recording starts from.
  record Loads (k : Kernel) (r : Option SessionInfo × Kernel) : Type 0 where
    pub ready : Ready r.1
    pub expects : remaining r.1 ≡ captured k
    callers : (c : Call) → call_summary r.1 c ≡ call_summary k c

  -- Memory that holds the recording, loaded into a kernel that does not record.
  loaded-Loads :
      (k k' : Kernel) (id : ℕ) (info : SessionInfo) (memory : Array ℕ)
      → IsStored k
      → k'.trace.recording ≡ false
      → k'.sched ≡ k.sched
      → ((x : ℕ) → x < session_bytes k → memory x ≡ encode_events k.trace.buffer x)
      → Loads k (
        some info,
        record k' {
          trace = record (k'.trace) {
            replay_buffer = decode_events memory;
            replay = fresh_replay drive id (session_bytes k) info;
            next_event_id = 1;
          };
        },
      )
  unfolding fresh_replay event_pid
  loaded-Loads k k' id info memory stored off same_tasks content =
      let n = k.trace.current_events in
      let count : n * event_size / event_size - 0 ≡ n = omega arith in
      let same = events_round_trip n k.trace.buffer memory stored.fits content in
      record {
        ready = record {
          active = refl;
          quiet = rw off refl;
          clean = refl;
          within = omega arith;
          word = omega (arith, stored.within);
        };
        expects = rw count (
            ap (map summary) (
              slice-agree n 0 (decode_events memory) k.trace.buffer
                (λ j p q. same j (omega arith))));
        callers = λ c. rw same_tasks refl;
      }

  stop_begin-Loads :
      (k : Kernel) (s : FsState Disk)
      → IsStored k
      → Accepts drive
      → s.ata_ready ≡ true
      → IsValid s
      → HasRoom (session_bytes k) s
      → Loads k (replay_of k s)
  unfolding trace_stop
  stop_begin-Loads k s stored accepts ready valid room =
      let (k', s') = stopped k s in
      let id = s.superblock.next_session_id in
      let n = k.trace.current_events in
      let src = encode_events k.trace.buffer in
      let info = recorded_info k in
      let i = record info {
        session_id = id;
        size_bytes = n * event_size;
        event_count = u32 info.event_count;
      } in
      let reads = stop_stores k s stored accepts ready valid room in
      let buffer = encode_events k'.trace.replay_buffer in
      let memory = (fs_read_trace_session drive id buffer s').1 in
      subst (λ r. Loads k (r.0, record k' { trace = r.1 }))
        (sym (begin_loads id n src info s' k'.trace reads))
        (loaded-Loads k k' id i memory stored (trace_stop-recording k s) refl (λ x p.
          reads.content buffer x
          ∙ ap (λ b. if b then src x else buffer x) (lt→ltb x (session_bytes k) p)))

  -- A recording of 4096 events at most, whose fields are within their widths, is stopped, on a
  -- disk that is ready and accepts every write, with the table of inodes in order and room for the
  -- session; then the session is replayed. The replay passes exactly if the run makes the calls of
  -- `trace_record` that were recorded: the same ones, in pid, type and both data words, in the
  -- same order, with none left out or added.
  pub replay_of_recording :
      (k : Kernel) (s : FsState Disk) (cs : List Call)
      → IsStored k
      → Accepts drive
      → s.ata_ready ≡ true
      → IsValid s
      → HasRoom (session_bytes k) s
      → (verdict cs (replay_of k s).1 ≡ false) ↔ (map (call_summary k) cs ≡ captured k)
  replay_of_recording k s cs stored accepts ready valid room =
      let l = stop_begin-Loads k s stored accepts ready valid room in
      let callers = ap (λ f. map f cs) (fun_ext l.callers) in
      let decides = replay_accepts_iff cs (replay_of k s).1 l.ready in
      (
        λ pass. sym callers ∙ decides.0 pass ∙ l.expects,
        λ same. decides.1 (callers ∙ same ∙ sym l.expects),
      )
