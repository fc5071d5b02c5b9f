-- ===== src/Trace/Codec.antt =====
-- Events as bytes, for kernel/trace.c: what is encoded decodes to itself.
use bumbel_bee.Base.{
  ℕ, zero, suc, ◌+◌, ◌*◌, ◌≤◌, ◌<◌, ◌≡◌, refl, ◌∙◌, ap, ap₂, Option, none, some, List, ◌∷◌, Array,
  slice, arith,
}
use bumbel_bee.Data.{TraceState, TraceEvent, SessionInfo}
use bumbel_bee.Bytes.{Fits, load_fields, load_fields_below, load_fields-store_fields}
use bumbel_bee.Fs.Layout.{zeros}
use bumbel_bee.Fs.Codec.{field}
use bumbel_bee.Trace.Session.{
  list_session, event_size, event_fields, encode_event, decode_event, encode_events, decode_events,
}

event_at : List ℕ → TraceEvent
unfolding field
event_at l = record {
  event_id = field 0 l;
  timestamp = field 1 l;
  pid = field 2 l;
  type = field 3 l;
  size = field 4 l;
  data0 = field 5 l;
  data1 = field 6 l;
}

event_round_trip :
    (e : TraceEvent) (m : Array ℕ)
    → Fits (event_fields e)
    → ((x : ℕ) → x < event_size → m x ≡ encode_event e x)
    → decode_event m ≡ e
unfolding decode_event event_at load_fields
event_round_trip e m fits same = ap event_at (
    load_fields_below (event_fields e) m (encode_event e) 0 (λ x p q. same x (omega arith))
    ∙ load_fields-store_fields (event_fields e) zeros 0 fits)

-- Memory that holds the first `n` events decodes to them.
pub events_round_trip :
    (n : ℕ) (events : Array TraceEvent) (m : Array ℕ)
    → ((i : ℕ) → i < n → Fits (event_fields (events i)))
    → ((x : ℕ) → x < n * event_size → m x ≡ encode_events events x)
    → (i : ℕ) → i < n
    → decode_events m i ≡ events i
events_round_trip n events m fits same i lt =
    event_round_trip (events i) (λ x. m (i * event_size + x)) (fits i lt)
      (λ x p.
        same (i * event_size + x) (omega arith)
        ∙ ap₂ (λ k y. encode_event (events k) y) (omega arith) (omega arith))

pub list_session-recording :
    (stored : Option ℕ) (info : SessionInfo) (t : TraceState)
    → (list_session stored info t).recording ≡ t.recording
unfolding list_session
list_session-recording none info t = refl
list_session-recording (some id) info t = ground arith

-- The first events of two buffers that agree on them.
pub slice-agree :
    (n i : ℕ) (a b : Array TraceEvent)
    → ((j : ℕ) → i ≤ j → j < i + n → a j ≡ b j)
    → slice a i n ≡ slice b i n
slice-agree zero i a b same = refl
slice-agree (suc n) i a b same =
    ap₂ ◌∷◌ (same i (omega arith) (omega arith))
      (slice-agree n (i + 1) a b (λ j p q. same j (omega arith) (omega arith)))
