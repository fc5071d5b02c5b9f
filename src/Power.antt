-- ===== src/Power.antt =====
-- kernel/power.c: the power modes, the queue that holds back key strokes, and the counters.
-- `power_tick_hook`, which calls the network too, stands in Interrupts.
pub mod Keys
use bumbel_bee.Base.{
  codes, List, ℕ, zero, suc, ◌+◌, ◌-◌, ◌%◌, ◌<◌, Bool, true, false, Option, none, some, List, [],
  ◌∷◌, write, ◌==◌, ltb, leb, if◌then◌else◌, u32, u64,
}
use bumbel_bee.Data.{Kernel, PowerState, PowerStats, KeyboardState, trace_event_power}
use bumbel_bee.Keyboard.{keyboard_buffer_put}
use bumbel_bee.Trace.{trace_record}

abbrev pub power_keyboard_qcap : ℕ
power_keyboard_qcap = 256

-- enum power_mode
abbrev pub mode_performance : ℕ
mode_performance = 0

abbrev pub mode_balanced : ℕ
mode_balanced = 1

abbrev pub mode_energy_saver : ℕ
mode_energy_saver = 2

-- the loop of `keyboard_flush_now`: what is left in the queue, and the keyboard's ring
pub flush_loop : ℕ → PowerState → KeyboardState → PowerState × KeyboardState
flush_loop zero p kb = (p, kb)
flush_loop (suc count) p kb =
    flush_loop count
      (record p {
        keyboard_head = (p.keyboard_head + 1) % power_keyboard_qcap;
        keyboard_count = count;
      })
      (keyboard_buffer_put (p.keyboard_q p.keyboard_head) kb)

unfoldable pub keyboard_flush_now : PowerState → KeyboardState → PowerState × KeyboardState
unfolding flush_loop
keyboard_flush_now p kb =
    let stats = record (p.stats) {
      wakeups = u64 (p.stats.wakeups + 1);
      keyboard_flushes = u64 (p.stats.keyboard_flushes + 1);
    } in
    let (p', kb') = flush_loop p.keyboard_count (record p { stats = stats }) kb in
    if p.keyboard_count == 0
    then (p, kb)
    else (record p' { stats = record (p'.stats) { pending_keys = 0 } }, kb')

abbrev pub empty_stats : PowerStats
empty_stats = record {
  mode = 0;
  pending_keys = 0;
  pending_tx_packets = 0;
  pending_tx_bytes = 0;
  wakeups = 0;
  keyboard_events = 0;
  keyboard_coalesced = 0;
  keyboard_flushes = 0;
  net_tx_enqueued = 0;
  net_tx_flushed = 0;
  net_flushes = 0;
  mode_switches = 0;
}

unfoldable pub power_init : PowerState
power_init = record {
  mode = mode_balanced;
  keyboard_q = λ i. 0;
  keyboard_head = 0;
  keyboard_count = 0;
  ticks_since_flush = 0;
  stats = record empty_stats { mode = mode_balanced };
}

unfoldable pub power_set_mode : ℕ → Kernel → Kernel
power_set_mode mode k =
    let switches = u64 (k.power.stats.mode_switches + 1) in
    let power = record (k.power) {
      mode = mode;
      stats = record (k.power.stats) { mode = mode; mode_switches = switches };
    } in
    if ltb mode_energy_saver mode
    then k
    else trace_record trace_event_power 0 mode switches (record k { power = power })

unfoldable pub power_mode_name : PowerState → List ℕ
power_mode_name p =
    if p.mode == mode_performance
    then codes "performance"
    else (if p.mode == mode_balanced
        then codes "balanced"
        else (if p.mode == mode_energy_saver then codes "energy-saver" else codes "unknown"))

unfoldable pub power_keyboard_flush_interval : ℕ → ℕ
power_keyboard_flush_interval mode =
    if mode == mode_performance
    then 1
    else (if mode == mode_balanced then 3 else (if mode == mode_energy_saver then 12 else 3))

unfoldable pub power_net_batch_limit : ℕ → ℕ
power_net_batch_limit mode =
    if mode == mode_performance
    then 1
    else (if mode == mode_balanced then 4 else (if mode == mode_energy_saver then 16 else 4))

-- A key stroke goes to the keyboard's ring at once, or into the queue.
unfoldable pub power_keyboard_char : ℕ → PowerState → KeyboardState → PowerState × KeyboardState
power_keyboard_char ch p kb =
    let p1 = record p {
      stats = record (p.stats) { keyboard_events = u64 (p.stats.keyboard_events + 1) };
    } in
    let direct = record p1 { stats = record (p1.stats) { wakeups = u64 (p1.stats.wakeups + 1) } } in
    let tail = (p.keyboard_head + p.keyboard_count) % power_keyboard_qcap in
    let count = u32 (p.keyboard_count + 1) in
    let queued = record p1 {
      keyboard_q = write p.keyboard_q tail ch;
      keyboard_count = count;
      stats = record (p1.stats) {
        pending_keys = count;
        keyboard_coalesced = u64 (p1.stats.keyboard_coalesced + 1);
      };
    } in
    if p.mode == mode_performance
    then (direct, keyboard_buffer_put ch kb)
    else (if ltb p.keyboard_count power_keyboard_qcap
        then (queued, kb)
        else (direct, keyboard_buffer_put ch kb))

unfoldable pub power_note_net_enqueued : ℕ → PowerState → PowerState
power_note_net_enqueued bytes p = record p {
  stats = record (p.stats) {
    net_tx_enqueued = u64 (p.stats.net_tx_enqueued + 1);
    pending_tx_packets = u32 (p.stats.pending_tx_packets + 1);
    pending_tx_bytes = u32 (p.stats.pending_tx_bytes + bytes);
  };
}

abbrev pub floor_sub : ℕ → ℕ → ℕ
floor_sub a b = if leb b a then a - b else 0

unfoldable pub power_note_net_flushed : ℕ → ℕ → Kernel → Kernel
power_note_net_flushed packets bytes k =
    let s = k.power.stats in
    let stats = record s {
      wakeups = u64 (s.wakeups + 1);
      net_flushes = u64 (s.net_flushes + 1);
      net_tx_flushed = u64 (s.net_tx_flushed + packets);
      pending_tx_packets = floor_sub s.pending_tx_packets packets;
      pending_tx_bytes = floor_sub s.pending_tx_bytes bytes;
    } in
    if packets == 0
    then k
    else trace_record trace_event_power 0 packets bytes
        (record k { power = record (k.power) { stats = stats } })

unfoldable pub power_set_pending_net : ℕ → ℕ → PowerState → PowerState
power_set_pending_net packets bytes p = record p {
  stats = record (p.stats) { pending_tx_packets = packets; pending_tx_bytes = bytes };
}

-- The copy that `power_get_stats` gives out.
unfoldable pub power_get_stats : PowerState → PowerStats
power_get_stats p = record (p.stats) { mode = p.mode; pending_keys = p.keyboard_count }
