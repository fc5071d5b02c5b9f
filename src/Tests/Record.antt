-- ===== src/Tests/Record.antt =====
-- The recorder's theorems applied to one recorded scheduling event.
use mathlib.Core.List.{map}
use bumbel_bee.Base.{◌≡◌, refl, ◌↔◌, false, [], ◌∷◌, take, arith}
use bumbel_bee.Data.{Kernel}
use bumbel_bee.Trace.{trace_buffer_cap, trace_start_profile}
use bumbel_bee.Trace.Steps.{Call, trace_all, call_summary}
use bumbel_bee.Trace.Replay.{remaining, Ready, verdict, replay_accepts_iff}
use bumbel_bee.Trace.Capture.{captured, kept, record_captures}
use bumbel_bee.Tests.Sample.{booted, replaying}

-- a switch from slot 0 to slot 3
abbrev switch_call : Call
switch_call = record { type = 3; pid = 0; data0 = 0; data1 = 3 }

-- an interrupt of the timer
abbrev irq_call : Call
irq_call = record { type = 1; pid = 0; data0 = 32; data1 = 0 }

abbrev repeated : Kernel
repeated = record booted { trace = replaying 1 }

repeated-Ready : Ready repeated
repeated-Ready = record {
  active = refl;
  quiet = refl;
  clean = refl;
  within = omega arith;
  word = omega arith;
}

replay_accepts_iff_example :
    (verdict (switch_call ∷ []) repeated ≡ false)
    ↔ (map (call_summary repeated) (switch_call ∷ []) ≡ remaining repeated)
replay_accepts_iff_example = replay_accepts_iff (switch_call ∷ []) repeated repeated-Ready

record_captures_example :
    captured (trace_all (irq_call ∷ switch_call ∷ []) (trace_start_profile 1 booted))
    ≡ take trace_buffer_cap (map (call_summary booted) (kept 1 (irq_call ∷ switch_call ∷ [])))
record_captures_example = record_captures 1 (irq_call ∷ switch_call ∷ []) booted refl
