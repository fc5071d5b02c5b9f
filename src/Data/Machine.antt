-- ===== src/Data/Machine.antt =====
-- All the state that the modelled parts share. `ticks` is the counter of kernel/pit.c.
use Prim.Native.Nat.{ℕ}
use bumbel_bee.Data.Sched.{SchedState}
use bumbel_bee.Data.Trace.{TraceState}
use bumbel_bee.Data.Power.{PowerState}
use bumbel_bee.Data.Keyboard.{KeyboardState}
use bumbel_bee.Data.Net.{NetState}
use bumbel_bee.Data.Aspace.{Mm}

pub record Kernel : Type 0 where
  pub ticks : ℕ
  pub sched : SchedState
  pub trace : TraceState
  pub power : PowerState
  pub keyboard : KeyboardState
  pub net : NetState
  pub mm : Mm
