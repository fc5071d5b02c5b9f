-- ===== src/Lib.antt =====
-- BumbelBee: a small operating system kernel whose runs can be recorded and replayed.
--
-- The parts and how they interact. The scheduler (kernel/sched.c) keeps a table of eight tasks and
-- switches between them; each switch selects an address space (kernel/aspace.c), whose page tables
-- are made of pages from the allocator of kernel/memory.c. The recorder (kernel/trace.c) is called
-- by every other part with an event: it stores the event, or, in a replay, compares it with the
-- record. A replay also replaces the clock (kernel/pit.c) and the choice of the next task. The power
-- manager (kernel/power.c) holds key strokes back from the keyboard's ring (kernel/keyboard.c) and
-- counts the packets that the network files (kernel/netfs.c) hold back.
--
-- The file system (kernel/fs.c) keeps recorded sessions and programs on the disk of kernel/ata.c:
-- the recorder stores a recording there, and a replay loads it again.
--
-- The state of all parts but the file system and the mouse is one record, `Kernel` of Data/Machine;
-- the types of each part stand in the module of Data that is named for it. A C function is the
-- definition of the same name, from its arguments and the state to its result and the new state; a
-- function that touches one part alone takes that part's state. An array is a function from
-- indices, a C string the list of its bytes. Machine words are natural numbers, reduced where the
-- code's arithmetic can wrap.
--
--   Base      helpers: tests on numbers, arrays, lists, search, machine words
--   Ring      ring buffers as windows into an array
--   Bytes     memory as an array of bytes: words, packed structures, memcpy and memset of
--             kernel/string.c
--   Clock     kernel/pit.c, and what the recorder reads of kernel/sched.c
--   Trace     kernel/trace.c, with Trace/Session for the sessions it stores and loads;
--             Trace/Steps, Trace/Replay, Trace/Capture, Trace/Frame, Trace/Codec, Trace/Reload
--             and Trace/Hash hold its theorems
--   Memory    kernel/memory.c; Memory/Alloc, Memory/Region
--   Aspace    kernel/aspace.c, with Aspace/Snapshot and Aspace/Window; Aspace/Refs
--   Sched     kernel/sched.c; Sched/Next, Sched/Invariant, Sched/Fairness, Sched/Exit,
--             Sched/Spawning, Sched/Pids, Sched/Forced; Sched/Queries is what other
--             parts ask of it
--   Keyboard  kernel/keyboard.c; Keyboard/Fifo
--   Power     kernel/power.c; Power/Keys
--   Net       kernel/netfs.c; Net/Receive, Net/Transmit, Net/Flush, Net/Batches; Net/Render is the
--             text of its files
--   Interrupts  power_tick_hook of kernel/power.c and the scan codes of kernel/keyboard.c, with
--             Interrupts/Dispatch for kernel/interrupts.c, the counts of kernel/idt.c, pic_eoi of
--             kernel/pic.c and the calls from user mode of kernel/usermode.c; Interrupts/Ticks,
--             Interrupts/Scancodes, Interrupts/Lines
--   Elf       kernel/elf.c; Elf/Segments
--   Exec      kernel/builtin_exec.c, with Exec/Spawn, Exec/Render and Exec/Demo; Exec/Placed,
--             Exec/Outcome
--   Mouse     kernel/mouse.c; Mouse/Packets
--   Ata       kernel/ata.c; Ata/Runs
--   Strings   strings of kernel/string.c
--   Fs        kernel/fs.c: Fs/Layout, Fs/Files, Fs/Sessions and Fs/Execs; Fs/Transfer, Fs/Outcome,
--             Fs/Table, Fs/Kept, Fs/RoundTrip, Fs/Refusal, Fs/Codec, Fs/Reload and Fs/Images hold
--             its theorems
--   Format    kernel/fmt.c; Format/Numerals, Format/Spelled and Format/Printed hold
--             its theorems
--   Text      text in a buffer, as kernel/vfs.c and kernel/netfs.c build it
--   Console   the log of kernel/console.c; Console/Chrome and Console/Screen are what is drawn,
--             Console/Output the calls; Console/Lines, Console/Typing, Console/Cells, Console/Shown,
--             Console/Writes and Console/Prints hold the theorems
--   Vfs       kernel/vfs.c, with Vfs/Render and Vfs/Access; Vfs/Paths and Vfs/Reads hold its theorems
--   Workload  kernel/workload.c; Workload/Counted
--   Shell     the line and the words of kernel/shell.c; Shell/Editing, Shell/Words;
--             Shell/Sim is the packets of its simulation
--   Tests     concrete states and runs
--
-- Loops with a counter are recursions on the counter. The loops that empty a queue run once for
-- each element that the queue counts, which is what the counter of the C loop does. The copy loops
-- of `aspace_write` and `aspace_zero` run on as much fuel as there are bytes, since each round
-- takes at least one. The loop over the digits of a printed number runs on 64 rounds, which a
-- number of 64 bits needs in base 2 and does not need in base 10 or 16.
--
-- Not modelled: the serial line, port I/O (but for the writes that end an interrupt, which
-- Interrupts/Dispatch collects), assembly code (the stack switch among it, and with it
-- `sched_wait_until_idle`, whose yields return only after other tasks ran), the bodies of the
-- tasks, the commands of the shell, and its manual. What other parts print is left out of them: the
-- console is a part of its own, which a text is written to. The disk behind the ports is a
-- parameter, `Drive` of Ata, which promises that a sector that was written is read back and no
-- other one changes. What a program does in user mode is a parameter of Exec/Demo, and the
-- addresses of the tasks' entry points and jobs are one of Exec/Spawn.
pub mod Base
pub mod Data
pub mod Clock
pub mod Console
pub mod Trace
pub mod Bytes
pub mod Memory
pub mod Ring
pub mod Keyboard
pub mod Net
pub mod Power
pub mod Aspace
pub mod Sched
pub mod Ata
pub mod Strings
pub mod Text
pub mod Format
pub mod Fs
pub mod Mouse
pub mod Elf
pub mod Exec
pub mod Vfs
pub mod Workload
pub mod Shell
pub mod Interrupts
pub mod Tests
