-- ===== src/Interrupts/Lines.antt =====
-- How `isr_dispatch` of kernel/interrupts.c serves the lines of the interrupt controllers.
use Prim.{Unit}
use bumbel_bee.Base.{
  ℕ, ◌-◌, ◌%◌, ◌≤◌, ◌≡◌, refl, ◌∙◌, sym, ap, false, Bool-cases, ◌⊎◌, inl, inr, ne→==, Option, none,
  some, List, [], ◌∷◌, ◌++◌, append-nil, append_assoc, le→leb, ltb, if◌then◌else◌, arith,
}
use native.Mathlib.Decide.{ℕ_discrete}
use bumbel_bee.Data.{trace_event_irq}
use bumbel_bee.Trace.{trace_record}
use bumbel_bee.Clock.{trace_replay_active}
use bumbel_bee.Interrupts.Dispatch.{
  Frame, Machine, end_of_interrupt, pic_eoi, handle_vector, isr_dispatch, idt_record_irq,
  set_kernel,
}

-- A frame for each interrupt, with the byte that its device has ready.
unfoldable pub dispatch_all : List (ℕ × Frame) → Machine → Option Machine
dispatch_all [] m = some m
dispatch_all ((byte, f) ∷ fs) m = elim (isr_dispatch byte f m) [
  | none ↦ none
  | some (f', m') ↦ dispatch_all fs m'
]

abbrev AreHardware : List (ℕ × Frame) → Type 0
AreHardware [] = Unit
AreHardware ((byte, f) ∷ fs) = (32 ≤ f.vector) × (f.vector ≤ 47) × AreHardware fs

-- What ends the interrupt of a vector: its lines up to 39 are those of the first controller, whose
-- command port is 0x20. The others are those of the second one, at 0xa0, which hangs on the first:
-- both are told. The command is 0x20.
abbrev end_of_vector : ℕ → List (ℕ × ℕ)
end_of_vector vector = if ltb vector 40 then (0x20, 0x20) ∷ [] else (0xa0, 0x20) ∷ (0x20, 0x20) ∷ []

-- the port writes that end these interrupts
abbrev pub ends : List (ℕ × Frame) → List (ℕ × ℕ)
ends [] = []
ends ((byte, f) ∷ fs) = end_of_vector f.vector ++ ends fs

end_of_interrupt_lem :
    (vector : ℕ) → 32 ≤ vector → end_of_interrupt (vector - 32) ≡ end_of_vector vector
unfolding end_of_interrupt
end_of_interrupt_lem vector lo = ground arith

-- What a run of interrupts with the port writes `w` does: it makes these writes, and changes nothing
-- else if a replay runs.
pub record Served (m m' : Machine) (w : List (ℕ × ℕ)) : Type 0 where
  pub ended : m'.port_writes ≡ m.port_writes ++ w
  pub quiet :
      (trace_replay_active m.kernel.trace ≡ false)
      ⊎ (m' ≡ record m { port_writes = m.port_writes ++ w })

handle_vector-hardware :
    (byte : ℕ) (f : Frame) (m : Machine)
    → 32 ≤ f.vector
    → f.vector ≤ 47
    → (m' : Machine) × (handle_vector byte f m ≡ some (f, m'))
      × (m'.port_writes ≡ m.port_writes ++ end_of_interrupt (f.vector - 32))
unfolding handle_vector pic_eoi
handle_vector-hardware byte f m lo hi = elim (ℕ_discrete f.vector 32) [
  | yes tick ↦ rw tick (_, refl, refl)
  | no no_tick ↦ elim (ℕ_discrete f.vector 33) [
    | yes key ↦ rw key (_, refl, refl)
    | no no_key ↦ elim (ℕ_discrete f.vector 44) [
      | yes move ↦ rw move (_, refl, refl)
      | no no_move ↦
          rw
            (
              ne→== f.vector 14 (λ e. omega (arith, e)),
              ne→== f.vector 32 no_tick,
              ne→== f.vector 33 no_key,
              ne→== f.vector 44 no_move,
              ne→== f.vector 0x80 (λ e. omega (arith, e)),
              le→leb 32 f.vector lo,
              le→leb f.vector 47 hi,
            )
            (_, refl, ap (λ irq. m.port_writes ++ end_of_interrupt irq) (omega (arith, lo, hi)))
    ]
  ]
]

isr_dispatch-Served :
    (byte : ℕ) (f : Frame) (m : Machine)
    → 32 ≤ f.vector
    → f.vector ≤ 47
    → (m' : Machine) × (isr_dispatch byte f m ≡ some (f, m')) × Served m m' (end_of_vector f.vector)
unfolding isr_dispatch pic_eoi idt_record_irq
isr_dispatch-Served byte f m lo hi = elim (Bool-cases (trace_replay_active m.kernel.trace)) [
  | inl replays ↦ (
    pic_eoi ((f.vector - 32) % 256) m,
    simp (replays, le→leb 32 f.vector lo, le→leb f.vector 47 hi) refl,
    record { ended = ap writes line; quiet = inr (ap with_writes line) },
  )
  | inr quiet ↦
      let (m', ends, written) = handle_vector-hardware byte f taken lo hi in
      (m', simp quiet ends, record { ended = written ∙ ap writes last; quiet = inl quiet })
]
  where
    taken : Machine
    taken =
        set_kernel (trace_record trace_event_irq 0 f.vector f.error_code)
          (idt_record_irq (f.vector % 256) m)

    last : end_of_interrupt (f.vector - 32) ≡ end_of_vector f.vector
    last = end_of_interrupt_lem f.vector lo

    line : end_of_interrupt ((f.vector - 32) % 256) ≡ end_of_vector f.vector
    line = ap end_of_interrupt (omega (arith, lo, hi)) ∙ last

    writes : List (ℕ × ℕ) → List (ℕ × ℕ)
    writes w = m.port_writes ++ w

    with_writes : List (ℕ × ℕ) → Machine
    with_writes w = record m { port_writes = writes w }

Served-trans :
    {m m' m'' : Machine} (v w : List (ℕ × ℕ))
    → Served m m' v
    → Served m' m'' w
    → Served m m'' (v ++ w)
Served-trans {m} {m'} {m''} v w s t = record {
  ended = t.ended ∙ ap (λ u. u ++ w) s.ended ∙ joined;
  quiet = elim s.quiet [
    | inl no_replay ↦ inl no_replay
    | inr same ↦ elim t.quiet [
      | inl no_replay ↦ inl (sym (ap (λ n. trace_replay_active n.kernel.trace) same) ∙ no_replay)
      | inr same' ↦ inr (same' ∙ ap writing_w same ∙ ap writes joined)
    ]
  ];
}
  where
    writing_w : Machine → Machine
    writing_w n = record n { port_writes = n.port_writes ++ w }

    writes : List (ℕ × ℕ) → Machine
    writes u = record m { port_writes = u }

    joined : (m.port_writes ++ v) ++ w ≡ m.port_writes ++ (v ++ w)
    joined = append_assoc m.port_writes v w

-- However many interrupts of the two interrupt controllers' lines arrive, and in whatever order,
-- `isr_dispatch` returns from each, and each is ended once, at the controllers of its line and in
-- the order of arrival. While a replay runs, they change nothing else: no part of the kernel's
-- state, neither the mouse nor the counts of interrupts. An interrupt of the first controller is
-- ended with one write, to it, and one of the second with two, to both.
pub dispatch_all-Served :
    (fs : List (ℕ × Frame)) (m : Machine)
    → AreHardware fs
    → (m' : Machine) × (dispatch_all fs m ≡ some m') × Served m m' (ends fs)
unfolding dispatch_all
dispatch_all-Served [] m h = (
  m,
  refl,
  record {
    ended = sym (append-nil m.port_writes);
    quiet = inr (ap writes (sym (append-nil m.port_writes)));
  },
)
  where
    writes : List (ℕ × ℕ) → Machine
    writes u = record m { port_writes = u }
dispatch_all-Served ((byte, f) ∷ fs) m (lo, hi, h) =
    let (m', first, s) = isr_dispatch-Served byte f m lo hi in
    let (m'', rest, t) = dispatch_all-Served fs m' h in
    (m'', rw (dispatch_all, first) rest, Served-trans _ (ends fs) s t)
