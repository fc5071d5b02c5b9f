-- ===== src/Interrupts/Dispatch.antt =====
-- `isr_dispatch` of kernel/interrupts.c over the handlers of the other parts, with the counters of
-- kernel/idt.c, `pic_eoi` of kernel/pic.c and the system calls of kernel/usermode.c. Of the frame,
-- the fields that these read; the byte that a device has ready on its port is an argument.
use bumbel_bee.Base.{
  ℕ, ◌+◌, ◌-◌, ◌^◌, ◌%◌, Bool, ◌&&◌, Option, none, some, List, [], ◌∷◌, ◌++◌, Array, write, ◌==◌,
  leb, if◌then◌else◌, u64,
}
use bumbel_bee.Data.{Kernel, trace_event_irq}
use bumbel_bee.Clock.{trace_replay_active, pit_handle_tick}
use bumbel_bee.Memory.{memory_record_page_fault}
use bumbel_bee.Trace.{trace_record}
use bumbel_bee.Sched.{sched_tick}
use bumbel_bee.Mouse.{MouseState, mouse_handle_data}
use bumbel_bee.Interrupts.{power_tick_hook, keyboard_handle_scancode}

-- struct interrupt_frame
pub record Frame : Type 0 where
  pub rbx : ℕ
  pub rcx : ℕ
  pub rax : ℕ
  pub vector : ℕ
  pub error_code : ℕ
  pub rip : ℕ

-- The kernel with what the dispatcher adds: the mouse, `irq_counts`, and the port writes that were
-- made, each a port and a byte, in order.
pub record Machine : Type 0 where
  pub kernel : Kernel
  pub mouse : MouseState
  pub irq_counts : Array ℕ
  pub port_writes : List (ℕ × ℕ)

abbrev pub set_kernel : (Kernel → Kernel) → Machine → Machine
set_kernel f m = record m { kernel = f m.kernel }

unfoldable pub idt_record_irq : ℕ → Machine → Machine
idt_record_irq vector m = record m {
  irq_counts = write m.irq_counts vector (u64 (m.irq_counts vector + 1));
}

-- the port writes of `pic_eoi`: the second controller, if the line is one of its, and the first
unfoldable pub end_of_interrupt : ℕ → List (ℕ × ℕ)
end_of_interrupt irq = if leb 8 irq then (0xa0, 0x20) ∷ (0x20, 0x20) ∷ [] else (0x20, 0x20) ∷ []

unfoldable pub pic_eoi : ℕ → Machine → Machine
pic_eoi irq m = record m { port_writes = m.port_writes ++ end_of_interrupt irq }

-- A system call that gives up user mode (3) does not return here: `none`. What the calls print is
-- left out.
unfoldable pub usermode_handle_syscall : Frame → Option Frame
usermode_handle_syscall f =
    if f.rax == 1
    then some (record f { rax = 0 })
    else (if f.rax == 2
        then some (record f { rax = f.rip })
        else (if f.rax == 3 then none else some (record f { rax = 2 ^ 64 - 1 })))

abbrev pub is_hardware : ℕ → Bool
is_hardware vector = leb 32 vector && leb vector 47

abbrev pub record_page_fault : Kernel → Kernel
record_page_fault k = record k {
  mm = record (k.mm) { memory = memory_record_page_fault k.mm.memory };
}

abbrev pub handle_tick : Kernel → Kernel
handle_tick k =
    let ticked = power_tick_hook (pit_handle_tick k) in
    record ticked { sched = sched_tick ticked.sched }

-- the cases of `isr_dispatch`
unfoldable pub handle_vector : ℕ → Frame → Machine → Option (Frame × Machine)
handle_vector byte f m =
    if f.vector == 14
    then some (f, set_kernel record_page_fault m)
    else (if f.vector == 32
        then some (f, pic_eoi 0 (set_kernel handle_tick m))
        else (if f.vector == 33
            then some (f, pic_eoi 1 (set_kernel (keyboard_handle_scancode byte) m))
            else (if f.vector == 44
                then some (f, pic_eoi 12 (record m { mouse = mouse_handle_data byte m.mouse }))
                else (if f.vector == 0x80
                    then elim (usermode_handle_syscall f) [ none ↦ none | some f' ↦ some (f', m) ]
                    else (if is_hardware f.vector
                        then some (f, pic_eoi ((f.vector - 32) % 256) m)
                        else some (f, m))))))

unfoldable pub isr_dispatch : ℕ → Frame → Machine → Option (Frame × Machine)
unfolding trace_replay_active
isr_dispatch byte f m =
    let counted = idt_record_irq (f.vector % 256) m in
    if trace_replay_active m.kernel.trace && is_hardware f.vector
    then some (f, pic_eoi ((f.vector - 32) % 256) m)
    else handle_vector byte f
        (set_kernel (trace_record trace_event_irq 0 f.vector f.error_code) counted)
