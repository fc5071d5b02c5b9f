-- ===== src/Tests/Arrivals.antt =====
-- The theorem on interrupts, applied to a tick and a byte of the mouse that arrive in a replay.
use bumbel_bee.Base.{ℕ, ◌≡◌, refl, some, List, [], ◌∷◌, true, arith}
use Prim.{tt}
use bumbel_bee.Interrupts.Dispatch.{Frame, Machine}
use bumbel_bee.Interrupts.Lines.{dispatch_all, ends, Served, dispatch_all-Served}
use bumbel_bee.Tests.Sample.{booted}

abbrev frame : ℕ → Frame
frame vector = record { rbx = 0; rcx = 0; rax = 0; vector = vector; error_code = 0; rip = 0 }

abbrev replaying : Machine
replaying = record {
  kernel = record booted {
    trace = record (booted.trace) { replay = record (booted.trace.replay) { active = true } };
  };
  mouse = record {
    present = true;
    x = 0;
    y = 0;
    buttons = 0;
    packets = 0;
    packet = λ i. 0;
    packet_index = 0;
  };
  irq_counts = λ i. 0;
  port_writes = [];
}

abbrev arrivals : List (ℕ × Frame)
arrivals = (0, frame 32) ∷ (9, frame 44) ∷ []

dispatch_all-Served_example :
    (m' : Machine) × (dispatch_all arrivals replaying ≡ some m')
    × Served replaying m' (ends arrivals)
dispatch_all-Served_example =
    dispatch_all-Served arrivals replaying
      (omega arith, omega arith, (omega arith, omega arith, tt))

-- The mouse hangs on the second controller.
ends_arrivals : ends arrivals ≡ (0x20, 0x20) ∷ (0xa0, 0x20) ∷ (0x20, 0x20) ∷ []
ends_arrivals = refl
