-- ===== src/Console/Chrome.antt =====
-- kernel/console.c: single places on the screen, and the bars around the log. A place on the screen
-- is the number of its row times 80, with its column; it holds the attribute times 256, with the
-- character. The bars show the counters of the kernel and whether there is a mouse.
use bumbel_bee.Base.{
  ℕ, zero, suc, ◌+◌, ◌*◌, ◌/◌, ◌%◌, Bool, true, false, List, [], ◌∷◌, Array, write, ◌==◌, ltb,
  if◌then◌else◌, length, codes,
}
use bumbel_bee.Data.{Kernel, TaskState, ready, running}
use bumbel_bee.Clock.{pit_ticks, sched_current_pid}
use bumbel_bee.Text.{stack_digits}
use bumbel_bee.Memory.{memory_free_bytes}
use bumbel_bee.Power.{power_get_stats, power_mode_name}
use bumbel_bee.Net.{netfs_get_stats}
use bumbel_bee.Sched.Queries.{TaskInfo, sched_snapshot, sched_current_aspace}
use bumbel_bee.Mouse.{MouseState}
use bumbel_bee.Console.{Console, screen_w, max_viewport_offset}

abbrev pub cell : ℕ → ℕ → ℕ
cell attr ch = attr * 256 + ch % 256

abbrev pub put_at : ℕ → ℕ → ℕ → ℕ → Array ℕ → Array ℕ
put_at r c ch attr vga = write vga (r * screen_w + c) (cell attr ch)

-- the loops that fill a part of a row with blanks: `n` places are left
unfoldable pub fill_row : ℕ → ℕ → ℕ → ℕ → Array ℕ → Array ℕ
fill_row r c zero attr vga = vga
fill_row r c (suc n) attr vga = fill_row r (c + 1) n attr (put_at r c 32 attr vga)

-- the same for `n` rows
unfoldable pub fill_rows : ℕ → ℕ → ℕ → ℕ → ℕ → Array ℕ → Array ℕ
unfolding fill_row
fill_rows r zero c width attr vga = vga
fill_rows r (suc n) c width attr vga =
    fill_rows (r + 1) n c width attr (fill_row r c width attr vga)

unfoldable pub write_at : ℕ → ℕ → List ℕ → ℕ → Array ℕ → Array ℕ
write_at r c [] attr vga = vga
write_at r c (ch ∷ s) attr vga =
    let rest = write_at r (c + 1) s attr (put_at r c ch attr vga) in
    if ltb c screen_w then rest else vga

unfoldable pub write_u64_at : ℕ → ℕ → ℕ → ℕ → Array ℕ → Array ℕ
unfolding write_at stack_digits
write_u64_at r c value attr vga =
    if value == 0 then put_at r c 48 attr vga else write_at r c (stack_digits 32 value []) attr vga

-- A call of one of the two.
pub data Label : Type 0 where
  label : ℕ → ℕ → List ℕ → ℕ → Label
  value : ℕ → ℕ → ℕ → ℕ → Label

put_labels : List Label → Array ℕ → Array ℕ
unfolding write_at write_u64_at
put_labels [] vga = vga
put_labels (label r c s attr ∷ ls) vga = put_labels ls (write_at r c s attr vga)
put_labels (value r c v attr ∷ ls) vga = put_labels ls (write_u64_at r c v attr vga)

is_runnable : TaskState → Bool
is_runnable ready = true
is_runnable running = true
is_runnable _ = false

count_runnable : List TaskInfo → ℕ
unfolding is_runnable
count_runnable [] = 0
count_runnable (t ∷ ts) = if is_runnable t.state then count_runnable ts + 1 else count_runnable ts

top_labels : Kernel → List Label
unfolding count_runnable
top_labels k =
    let tasks = sched_snapshot 8 k.sched in
    label 0 2 (codes " BB workstation ") 0x30
    ∷ label 0 27 (codes "ticks=") 0x30
    ∷ value 0 33 (pit_ticks k) 0x30
    ∷ label 0 43 (codes "mem=") 0x30
    ∷ value 0 47 (k.mm.memory.used_bytes / 1024) 0x30
    ∷ label 0 53 (codes "K") 0x30
    ∷ label 0 57 (codes "tasks=") 0x30
    ∷ value 0 63 (length tasks) 0x30
    ∷ label 0 66 (codes "/") 0x30
    ∷ value 0 67 (count_runnable tasks) 0x30
    ∷ []

shell_labels : Kernel → List Label
shell_labels k =
    let net = netfs_get_stats k.net in
    label 1 2 (codes "shell") 0x17
    ∷ label 1 10 (codes "trace=") 0x17
    ∷ value 1 16 k.trace.stats.events 0x17
    ∷ label 1 26 (codes "tx=") 0x17
    ∷ value 1 29 net.tx_packets 0x17
    ∷ label 1 35 (codes "rx=") 0x17
    ∷ value 1 38 net.rx_packets 0x17
    ∷ label 1 44 (codes "q=") 0x17
    ∷ value 1 46 net.queue_depth 0x17
    ∷ label 1 50 (codes "pwr=") 0x17
    ∷ label 1 54 (power_mode_name k.power) 0x17
    ∷ label 1 66 (codes "w=") 0x17
    ∷ value 1 68 (power_get_stats k.power).wakeups 0x17
    ∷ []

status_labels : Kernel → MouseState → List Label
status_labels k mouse =
    let power = power_get_stats k.power in
    label 22 2 (codes "proc=") 0x17
    ∷ value 22 7 (sched_current_pid k.sched) 0x17
    ∷ label 22 12 (codes "aspace=") 0x17
    ∷ value 22 19 (sched_current_aspace k.sched) 0x17
    ∷ label 22 24 (codes "pf=") 0x17
    ∷ value 22 27 k.mm.memory.page_faults 0x17
    ∷ label 22 34 (codes "free=") 0x17
    ∷ value 22 39 (memory_free_bytes k.mm.memory / 1024) 0x17
    ∷ label 22 45 (codes "K") 0x17
    ∷ label 22 48 (codes "keys=") 0x17
    ∷ value 22 53 power.pending_keys 0x17
    ∷ label 22 57 (codes "txq=") 0x17
    ∷ value 22 61 power.pending_tx_packets 0x17
    ∷ label 22 65 (codes "m=") 0x17
    ∷ label 22 67 (if mouse.present then codes "on" else codes "off") 0x17
    ∷ []

scroll_labels : Console → List Label
scroll_labels s =
    if s.viewport_offset == 0
    then []
    else label 24 60 (codes "READ ") 0x10
      ∷ value 24 65 s.viewport_offset 0x10
      ∷ label 24 70 (codes "/") 0x10
      ∷ value 24 71 (max_viewport_offset s) 0x10
      ∷ []

-- The loop that blanks the bars goes over the columns.
blank_bars : ℕ → ℕ → Array ℕ → Array ℕ
blank_bars zero c vga = vga
blank_bars (suc n) c vga =
    blank_bars n (c + 1)
      (put_at 24 c 32 0x10 (put_at 22 c 32 0x17 (put_at 1 c 32 0x17 (put_at 0 c 32 0x30 vga))))

unfoldable pub refresh_gui_chrome : Kernel → MouseState → Console → Array ℕ
unfolding put_labels blank_bars top_labels shell_labels status_labels scroll_labels
refresh_gui_chrome k mouse s =
    put_labels
      (label 24 2 (codes "PgUp/PgDn scroll  Home/End jump  help, man, ping, ps, netstat") 0x10 ∷ [])
      (put_labels (scroll_labels s) (
        put_labels (status_labels k mouse)
          (put_labels (shell_labels k) (put_labels (top_labels k) (blank_bars screen_w 0 s.vga)))))
