-- ===== src/Trace/Replay.antt =====
-- What a replay accepts: the calls of `trace_record` that it makes, against those recorded.
use mathlib.Core.List.{map}
use mathlib.Core.Path.{ap₂}
use bumbel_bee.Base.{
  ◌+◌, ◌-◌, ◌^◌, ◌≤◌, ◌<◌, ◌≡◌, sym, ◌∙◌, ◌↔◌, Bool, true, false, not, List, [], ◌∷◌, slice,
  slice-cons, arith,
}
use native.Mathlib.Decide.{ℕ_discrete, dec_lt}
use bumbel_bee.Data.{Kernel, TraceState}
use bumbel_bee.Trace.{trace_replay_end}
use bumbel_bee.Trace.Steps.{
  Call, trace_call, trace_all, Summary, summary, call_summary, finished, records_irqs, Advanced,
  Replaying, stepped, call-Replaying, call_overrun, call_mismatch, call_match, after-summary,
  trace_all-failed,
}

-- What is left to compare.
abbrev pub remaining : Kernel → List Summary
remaining k = map summary (
    slice k.trace.replay_buffer k.trace.replay.event_index
      (k.trace.replay.event_count - k.trace.replay.event_index))

remaining-nil :
    (k : Kernel) → k.trace.replay.event_count ≤ k.trace.replay.event_index → remaining k ≡ []
remaining-nil k h =
    let e : k.trace.replay.event_count - k.trace.replay.event_index ≡ 0 = omega arith in rw e

remaining-cons :
    (k : Kernel)
    → k.trace.replay.event_index < k.trace.replay.event_count
    → remaining k
      ≡ summary (k.trace.replay_buffer k.trace.replay.event_index)
        ∷ map summary (
            slice k.trace.replay_buffer
              (k.trace.replay.event_index + 1)
              (k.trace.replay.event_count - k.trace.replay.event_index - 1))
remaining-cons k h = rw (
    slice-cons k.trace.replay_buffer k.trace.replay.event_index
      (k.trace.replay.event_count - k.trace.replay.event_index) (omega arith))

trace_replay_end-verdict :
    (t : TraceState)
    → t.replay.active ≡ true
    → (trace_replay_end t).replay.failed ≡ not (finished t.replay)
unfolding trace_replay_end
trace_replay_end-verdict t h = ground arith

Summary-discrete : Discrete Summary
Summary-discrete = hlevel ℕ_discrete

-- A replay may begin: it is on, has not failed, and its position lies within the record.
pub record Ready (k : Kernel) : Type 0 where
  pub active : k.trace.replay.active ≡ true
  pub quiet : records_irqs k ≡ true
  pub clean : k.trace.replay.failed ≡ false
  pub within : k.trace.replay.event_index ≤ k.trace.replay.event_count
  pub word : k.trace.replay.event_count < 2 ^ 32

abbrev pub verdict : List Call → Kernel → Bool
verdict cs k = (trace_replay_end (trace_all cs k).trace).replay.failed

verdict-failed :
    (cs : List Call) (k : Kernel) → Replaying k → k.trace.replay.failed ≡ true → verdict cs k ≡ true
verdict-failed cs k h f =
    let (g, r) = trace_all-failed cs k h f in
    ground (arith, trace_replay_end-verdict (trace_all cs k).trace)

cons-head {ℓ} : {A : Type ℓ} {x y : A} {xs ys : List A} → x ∷ xs ≡ y ∷ ys → x ≡ y
cons-head e = cc

cons-tail {ℓ} : {A : Type ℓ} {x y : A} {xs ys : List A} → x ∷ xs ≡ y ∷ ys → xs ≡ ys
cons-tail e = cc

-- A call that fails the replay, and no match of the lists.
refused :
    (c : Call) (cs : List Call) (k : Kernel)
    → Ready k
    → (trace_call c k).trace.replay.failed ≡ true
    → (call_summary k c ∷ map (call_summary k) cs ≡ remaining k → ⊥)
    → (verdict cs (trace_call c k) ≡ false)
      ↔ (call_summary k c ∷ map (call_summary k) cs ≡ remaining k)
refused c cs k r f ne = (
  λ v. cc (verdict-failed cs (trace_call c k) (call-Replaying c k (r.active, r.quiet)) f),
  λ e. absurd (ne e),
)

module _ (c : Call) (k : Kernel) (r : Ready k)
    (lt : k.trace.replay.event_index < k.trace.replay.event_count)
    (e : call_summary k c ≡ summary (k.trace.replay_buffer k.trace.replay.event_index)) where
  advanced : Advanced k.trace.replay (trace_call c k).trace.replay
  advanced = call_match c k (r.active, r.quiet) lt r.word e

  after-Ready : Ready (trace_call c k)
  after-Ready = record {
    active = (call-Replaying c k (r.active, r.quiet)).0;
    quiet = (call-Replaying c k (r.active, r.quiet)).1;
    clean = advanced.failed ∙ r.clean;
    within = omega (arith, advanced.index, advanced.count);
    word = omega (arith, advanced.count, r.word);
  }

  after-remaining :
      remaining k
      ≡ summary (k.trace.replay_buffer k.trace.replay.event_index) ∷ remaining (trace_call c k)
  after-remaining =
      rw
        (
          remaining-cons k lt,
          (stepped c k (r.active, r.quiet)).buffer,
          advanced.index,
          advanced.count,
        )
        (let same : k.trace.replay.event_count - k.trace.replay.event_index - 1
              ≡ k.trace.replay.event_count - (k.trace.replay.event_index + 1) =
            omega arith in
          rw same)

accepts-nil : (k : Kernel) → Ready k → (verdict [] k ≡ false) ↔ ([] ≡ remaining k)
unfolding trace_all
accepts-nil k r = elim (dec_lt k.trace.replay.event_index k.trace.replay.event_count) [
  | yes lt ↦ (
    λ v. ground (arith, trace_replay_end-verdict k.trace r.active),
    λ e. cc (remaining-cons k lt),
  )
  | no past ↦ (
    λ v. sym (remaining-nil k (omega arith)),
    λ e. ground (arith, trace_replay_end-verdict k.trace r.active),
  )
]

accepts-cons :
    (c : Call) (cs : List Call) (k : Kernel) (r : Ready k)
    (lt : k.trace.replay.event_index < k.trace.replay.event_count)
    (e : call_summary k c ≡ summary (k.trace.replay_buffer k.trace.replay.event_index))
    → (verdict cs (trace_call c k) ≡ false)
      ↔ (map (call_summary (trace_call c k)) cs ≡ remaining (trace_call c k))
    → (verdict cs (trace_call c k) ≡ false)
      ↔ (call_summary k c ∷ map (call_summary k) cs ≡ remaining k)
accepts-cons c cs k r lt e ih =
    let same = after-summary c k (r.active, r.quiet) cs in
    let rest = after-remaining c k r lt e in
    (λ v. ap₂ ◌∷◌ e (sym same ∙ ih.0 v) ∙ sym rest, λ q. ih.1 (same ∙ cons-tail (q ∙ rest)))

-- From a state in which a replay runs, has not failed, has a position within its record, and is not
-- one that skips interrupts, a run that makes the calls `cs` of `trace_record` and then ends the
-- replay passes exactly if they agree, in pid, type and both data words, with the events still to
-- come in the record: none may differ, be missing or be left over.
pub replay_accepts_iff :
    (cs : List Call) (k : Kernel)
    → Ready k
    → (verdict cs k ≡ false) ↔ (map (call_summary k) cs ≡ remaining k)
unfolding trace_all
replay_accepts_iff [] k r = accepts-nil k r
replay_accepts_iff (c ∷ cs) k r =
    elim (dec_lt k.trace.replay.event_index k.trace.replay.event_count) [
      | no past ↦
          refused c cs k r (call_overrun c k (r.active, r.quiet) (omega arith))
            (λ e. cc (remaining-nil k (omega arith)))
      | yes lt ↦
          elim (Summary-discrete (call_summary k c)
            (summary (k.trace.replay_buffer k.trace.replay.event_index))) [
              | no ne ↦
                  refused c cs k r (call_mismatch c k (r.active, r.quiet) ne)
                    (λ e. ne (cons-head (e ∙ remaining-cons k lt)))
              | yes e ↦
                  accepts-cons c cs k r lt e
                    (replay_accepts_iff cs (trace_call c k) (after-Ready c k r lt e))
            ]
    ]
