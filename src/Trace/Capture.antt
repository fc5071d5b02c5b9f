-- ===== src/Trace/Capture.antt =====
-- What a recording keeps: the calls of `trace_record`, in their order, up to the buffer's length.
use mathlib.Core.List.{map, map-append}
use mathlib.Core.Path.{ap₂, fun_ext, ◌≡⟨◌⟩◌, ◌∎}
use bumbel_bee.Base.{
  ℕ, suc, ◌+◌, ◌≤◌, ◌<◌, ◌≡◌, refl, sym, ap, ◌∙◌, true, false, not, ◌&&◌, List, [], ◌∷◌, write,
  ◌++◌, append-nil, append_assoc, ◌==◌, Bool-cases, inl, inr, if◌then◌else◌, slice, slice-write,
  length-slice, length, length-map, take, take_all, take-append_full, u64, arith,
}
use native.Mathlib.Decide.{dec_lt}
use bumbel_bee.Data.{Kernel, TraceEvent, trace_event_irq}
use bumbel_bee.Trace.{
  store_event, trace_record, skips_irq, event_pid, new_event, trace_buffer_cap, profile_none,
  trace_start_profile,
}
use bumbel_bee.Trace.Steps.{
  Call, Summary, summary, call_summary, trace_call, trace_all, summary-new_event,
}

-- The events in the buffer, as a replay will compare them.
abbrev pub captured : Kernel → List Summary
captured k = map summary (slice k.trace.buffer 0 k.trace.current_events)

-- The recorder is on, no replay runs, and the count lies within the buffer.
pub record IsRecording (k : Kernel) : Type 0 where
  pub on : k.trace.recording ≡ true
  pub live : k.trace.replay.active ≡ false
  pub within : k.trace.current_events ≤ trace_buffer_cap

-- While a profile is recorded, the interrupts among the calls are left out.
abbrev pub kept : ℕ → List Call → List Call
kept profile [] = []
kept profile (c ∷ cs) =
    let rest = kept profile cs in
    if not (profile == profile_none) && c.type == trace_event_irq then rest else c ∷ rest

length-captured : (k : Kernel) → length (captured k) ≡ k.trace.current_events
length-captured k =
    length-map summary (slice k.trace.buffer 0 k.trace.current_events)
    ∙ length-slice k.trace.buffer 0 k.trace.current_events

-- The pid that a call gets does not depend on the calls before it.
record Same (k k' : Kernel) : Type 0 where
  pids : (pid : ℕ) → event_pid k' pid ≡ event_pid k pid
  profile : k'.trace.current_profile ≡ k.trace.current_profile

store_event-Same : (e : TraceEvent) (k : Kernel) → Same k (store_event e k)
unfolding store_event event_pid
store_event-Same e k = record { pids = λ pid. ground arith; profile = ground arith }

store_event-IsRecording :
    (e : TraceEvent) (k : Kernel) → IsRecording k → IsRecording (store_event e k)
unfolding store_event
store_event-IsRecording e k r = ground arith

store_room-buffer :
    (e : TraceEvent) (k : Kernel)
    → k.trace.current_events < trace_buffer_cap
    → (store_event e k).trace.buffer ≡ write k.trace.buffer k.trace.current_events e
unfolding store_event
store_room-buffer e k h = ground arith

store_room-count :
    (e : TraceEvent) (k : Kernel)
    → k.trace.current_events < trace_buffer_cap
    → (store_event e k).trace.current_events ≡ suc k.trace.current_events
unfolding store_event
store_room-count e k h = ground arith

store_full-buffer :
    (e : TraceEvent) (k : Kernel)
    → trace_buffer_cap ≤ k.trace.current_events
    → (store_event e k).trace.buffer ≡ k.trace.buffer
unfolding store_event
store_full-buffer e k h = ground arith

store_full-count :
    (e : TraceEvent) (k : Kernel)
    → trace_buffer_cap ≤ k.trace.current_events
    → (store_event e k).trace.current_events ≡ k.trace.current_events
unfolding store_event
store_full-count e k h = ground arith

captured-store_room :
    (e : TraceEvent) (k : Kernel)
    → k.trace.current_events < trace_buffer_cap
    → captured (store_event e k) ≡ captured k ++ (summary e ∷ [])
captured-store_room e k h =
    map summary (slice (store_event e k).trace.buffer 0 (store_event e k).trace.current_events)
    ≡⟨ ap₂ (λ b n. map summary (slice b 0 n)) (store_room-buffer e k h) (store_room-count e k h) ⟩
      map summary
        (slice (write k.trace.buffer k.trace.current_events e) 0 (suc k.trace.current_events))
    ≡⟨ ap (map summary) (
        slice-write k.trace.buffer 0 k.trace.current_events k.trace.current_events e
          (omega arith)) ⟩
      map summary (slice k.trace.buffer 0 k.trace.current_events ++ (e ∷ []))
    ≡⟨ map-append summary (slice k.trace.buffer 0 k.trace.current_events) (e ∷ []) ⟩
      captured k ++ (summary e ∷ []) ∎

captured-store_full :
    (e : TraceEvent) (k : Kernel)
    → trace_buffer_cap ≤ k.trace.current_events
    → captured (store_event e k) ≡ captured k
captured-store_full e k h =
    ap₂ (λ b n. map summary (slice b 0 n)) (store_full-buffer e k h) (store_full-count e k h)

-- `trace_record` while recording: nothing for a skipped interrupt, else the event is stored.
trace_record-skip : (c : Call) (k : Kernel) → skips_irq k.trace c.type ≡ true → trace_call c k ≡ k
unfolding trace_record
trace_record-skip c k h = rw h

abbrev numbered : Kernel → Kernel
numbered k = record k {
  trace = record (k.trace) { next_event_id = u64 (k.trace.next_event_id + 1) };
}

trace_record-store :
    (c : Call) (k : Kernel)
    → IsRecording k
    → skips_irq k.trace c.type ≡ false
    → trace_call c k ≡ store_event (new_event c.type c.pid c.data0 c.data1 k) (numbered k)
unfolding trace_record
trace_record-store c k r h = ground (arith, r.on, r.live)

skips_irq-kept :
    (c : Call) (cs : List Call) (k : Kernel)
    → IsRecording k
    → kept k.trace.current_profile (c ∷ cs) ≡ (
        if skips_irq k.trace c.type
        then kept k.trace.current_profile cs
        else c ∷ kept k.trace.current_profile cs)
unfolding skips_irq
skips_irq-kept c cs k r = ground arith

module _ (c : Call) (k : Kernel) (r : IsRecording k) (h : skips_irq k.trace c.type ≡ false) where
  event : TraceEvent
  event = new_event c.type c.pid c.data0 c.data1 k

  stored : trace_call c k ≡ store_event event (numbered k)
  unfolding event
  stored = trace_record-store c k r h

  call-Same : Same k (trace_call c k)
  unfolding event_pid
  call-Same =
      let kept_pid = store_event-Same event (numbered k) in
      rw stored (record { pids = kept_pid.pids; profile = kept_pid.profile })

  call-IsRecording : IsRecording (trace_call c k)
  call-IsRecording = rw stored (
      store_event-IsRecording event (numbered k)
        (record { on = r.on; live = r.live; within = r.within }))

  captured-call_room :
      k.trace.current_events < trace_buffer_cap
      → captured (trace_call c k) ≡ captured k ++ (call_summary k c ∷ [])
  unfolding event
  captured-call_room lt = rw stored (
      captured-store_room event (numbered k) lt
      ∙ ap (λ s. captured k ++ (s ∷ [])) (summary-new_event c.type c.pid c.data0 c.data1 k))

  captured-call_full :
      trace_buffer_cap ≤ k.trace.current_events → captured (trace_call c k) ≡ captured k
  captured-call_full full = rw stored (captured-store_full event (numbered k) full)

Same-summaries :
    (k k' : Kernel) (cs : List Call)
    → Same k k'
    → map (call_summary k') cs ≡ map (call_summary k) cs
Same-summaries k k' cs s =
    ap (λ (f : ℕ → ℕ). map (λ (c : Call). (f c.pid, c.type, c.data0, c.data1)) cs) (fun_ext s.pids)

-- What a recording holds, from the state on: the calls that are kept, cut at the buffer's length.
pub record Captures (k k' : Kernel) (cs : List Call) : Type 0 where
  pub held :
      captured k'
      ≡ take trace_buffer_cap (captured k ++ map (call_summary k) (kept k.trace.current_profile cs))
  pub still : IsRecording k'

Captures-nil : (k : Kernel) → IsRecording k → Captures k k []
Captures-nil k r = record {
  held = sym (
      ap (take trace_buffer_cap) (append-nil (captured k))
      ∙ take_all trace_buffer_cap (captured k) (omega (arith, length-captured k, r.within)));
  still = r;
}

module _ (c : Call) (cs : List Call) (k k' : Kernel) (r : IsRecording k) where
  kept_rest : List Summary
  kept_rest = map (call_summary k) (kept k.trace.current_profile cs)

  module _ (h : skips_irq k.trace c.type ≡ false) (ih : Captures (trace_call c k) k' cs) where
    rest-same :
        map (call_summary (trace_call c k)) (kept (trace_call c k).trace.current_profile cs)
        ≡ kept_rest
    unfolding kept_rest
    rest-same =
        let s = call-Same c k r h in
        Same-summaries k (trace_call c k) (kept (trace_call c k).trace.current_profile cs) s
        ∙ ap (λ p. map (call_summary k) (kept p cs)) s.profile

    kept-cons :
        map (call_summary k) (kept k.trace.current_profile (c ∷ cs)) ≡ call_summary k c ∷ kept_rest
    unfolding kept_rest
    kept-cons = ap (map (call_summary k)) (rw h at (skips_irq-kept c cs k r))

    held_room :
        k.trace.current_events < trace_buffer_cap
        → captured k'
          ≡ take trace_buffer_cap
              (captured k ++ map (call_summary k) (kept k.trace.current_profile (c ∷ cs)))
    held_room lt =
        ih.held
        ∙ ap (take trace_buffer_cap) (
            ap₂ ◌++◌ (captured-call_room c k r h lt) rest-same
            ∙ append_assoc (captured k) (call_summary k c ∷ []) kept_rest
            ∙ ap (λ l. captured k ++ l) (sym kept-cons))

    held_full :
        trace_buffer_cap ≤ k.trace.current_events
        → captured k'
          ≡ take trace_buffer_cap
              (captured k ++ map (call_summary k) (kept k.trace.current_profile (c ∷ cs)))
    held_full full =
        let len : length (captured k) ≡ trace_buffer_cap =
          omega (arith, length-captured k, r.within) in
        ih.held
        ∙ ap (take trace_buffer_cap) (ap₂ ◌++◌ (captured-call_full c k r h full) rest-same)
        ∙ take-append_full trace_buffer_cap (captured k) kept_rest len
        ∙ sym (
            take-append_full trace_buffer_cap (captured k)
              (map (call_summary k) (kept k.trace.current_profile (c ∷ cs))) len)

    Captures-cons : Captures k k' (c ∷ cs)
    Captures-cons = record {
      held = elim (dec_lt k.trace.current_events trace_buffer_cap) [
        | yes lt ↦ held_room lt
        | no full ↦ held_full (omega arith)
      ];
      still = ih.still;
    }

  Captures-skip : skips_irq k.trace c.type ≡ true → Captures k k' cs → Captures k k' (c ∷ cs)
  Captures-skip h ih = record {
    held =
        ih.held
        ∙ ap (λ l. take trace_buffer_cap (captured k ++ map (call_summary k) l))
            (sym (rw h at (skips_irq-kept c cs k r)));
    still = ih.still;
  }

trace_all-Captures : (cs : List Call) (k : Kernel) → IsRecording k → Captures k (trace_all cs k) cs
unfolding trace_all
trace_all-Captures [] k r = Captures-nil k r
trace_all-Captures (c ∷ cs) k r = elim (Bool-cases (skips_irq k.trace c.type)) [
  | inl skip ↦
      rw (trace_record-skip c k skip)
        (Captures-skip c cs k (trace_all cs k) r skip (trace_all-Captures cs k r))
  | inr keep ↦
      Captures-cons c cs k (trace_all cs (trace_call c k)) r keep
        (trace_all-Captures cs (trace_call c k) (call-IsRecording c k r keep))
]

-- While no replay runs, a recording that `trace_start_profile` begins holds the calls made since,
-- in their order: all but the interrupts under a profile, and no more than the buffer takes.
pub record_captures :
    (profile : ℕ) (cs : List Call) (k : Kernel)
    → k.trace.replay.active ≡ false
    → captured (trace_all cs (trace_start_profile profile k))
      ≡ take trace_buffer_cap (map (call_summary k) (kept profile cs))
unfolding trace_start_profile event_pid
record_captures profile cs k live =
    (trace_all-Captures cs (trace_start_profile profile k)
      (record { on = refl; live = live; within = omega arith })).held
