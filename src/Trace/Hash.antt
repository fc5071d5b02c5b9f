-- ===== src/Trace/Hash.antt =====
-- `trace_replay_session` of kernel/trace.c compares the hash of a session with the one stored with
-- it: for a recording that was stored, they match.
use bumbel_bee.Base.{
  ℕ, zero, suc, ◌+◌, ◌*◌, ◌/◌, ◌≤◌, ◌<◌, ◌≡◌, refl, ◌∙◌, ap, true, some, Array, lt→ltb,
  if◌then◌else◌, arith,
}
use bumbel_bee.Data.{Kernel, TraceEvent, FsState}
use bumbel_bee.Ata.{Drive}
use bumbel_bee.Fs.Sessions.{fs_read_trace_session}
use bumbel_bee.Fs.Table.{IsValid}
use bumbel_bee.Fs.Refusal.{HasRoom, Accepts}
use bumbel_bee.Trace.{hash_from, hash_event, trace_hash_events}
use bumbel_bee.Trace.Session.{
  event_size, encode_events, decode_events, recorded_info, trace_stop, trace_replay_session,
}
use bumbel_bee.Trace.Codec.{events_round_trip}
use bumbel_bee.Trace.Reload.{IsStored, session_bytes, stopped, stop_stores}

hash_from-agree :
    (n i hash : ℕ) (a b : Array TraceEvent)
    → ((j : ℕ) → i ≤ j → j < i + n → a j ≡ b j)
    → hash_from hash a n i ≡ hash_from hash b n i
unfolding hash_from
hash_from-agree zero i hash a b same = refl
hash_from-agree (suc n) i hash a b same =
    ap (λ e. hash_from (hash_event hash e) a n (i + 1)) (same i (omega arith) (omega arith))
    ∙ hash_from-agree n (i + 1) (hash_event hash (b i)) a b
        (λ j p q. same j (omega arith) (omega arith))

module _ (drive : Drive) where
  open drive use {Disk}

  -- After a recording of 4096 events at most, whose fields are within their widths, is stopped, on
  -- a disk that is ready and accepts every write, with the table of inodes in order and room for
  -- the session: `trace_replay_session` reports the number of its events and two equal hashes,
  -- that of the events that it reads and the one that was stored with them.
  pub replay_session_matches :
      (k : Kernel) (s : FsState Disk) (replay_buf : Array TraceEvent)
      → IsStored k
      → Accepts drive
      → s.ata_ready ≡ true
      → IsValid s
      → HasRoom (session_bytes k) s
      → let hash = trace_hash_events k.trace.buffer k.trace.current_events in
        trace_replay_session drive s.superblock.next_session_id replay_buf (trace_stop drive k s).1
        ≡ some (k.trace.current_events, hash, hash)
  unfolding trace_replay_session recorded_info trace_hash_events
  replay_session_matches k s replay_buf stored accepts ready valid room =
      let n = k.trace.current_events in
      let src = encode_events k.trace.buffer in
      let buffer = encode_events replay_buf in
      let h = stop_stores drive k s stored accepts ready valid room in
      let memory =
        (fs_read_trace_session drive s.superblock.next_session_id buffer (stopped drive k s).1).1 in
      let content = λ (x : ℕ) (p : x < session_bytes k).
        h.content buffer x
        ∙ ap (λ b. if b then src x else buffer x) (lt→ltb x (session_bytes k) p) in
      let same = events_round_trip n k.trace.buffer memory stored.fits content in
      let count : n * event_size / event_size ≡ n = omega arith in
      let hashed =
        hash_from-agree n 0 1469598103934665603 (decode_events memory) k.trace.buffer
          (λ j p q. same j (omega arith)) in
      rw (trace_replay_session, h.reads buffer, h.size buffer, h.described, count)
        (ap (λ v. some (n, v, trace_hash_events k.trace.buffer n)) hashed)
