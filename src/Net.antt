-- ===== src/Net.antt =====
-- kernel/netfs.c: the two rings of packets behind /net. A C string is the list of its bytes before
-- the terminator, and a pointer to `len` bytes is a list that holds them. What a path shows on the
-- console (`netfs_list`, `netfs_read_path`, `netfs_dump_stats`) is not modelled.
pub mod Receive
pub mod Transmit
pub mod Flush
pub mod Batches
pub mod Render
use bumbel_bee.Base.{
  ℕ, zero, suc, ◌+◌, ◌-◌, ◌%◌, ◌<◌, ◌≤◌, Bool, true, false, not, Option, none, some, List, [], ◌∷◌,
  write, ◌==◌, ltb, leb, if◌then◌else◌, u32, u64, length, take, codes,
}
use bumbel_bee.Data.{Kernel, NetState, NetStats, Packet, trace_event_net}
use bumbel_bee.Clock.{pit_ticks}
use bumbel_bee.Trace.{trace_record}
use bumbel_bee.Power.{
  mode_performance, power_net_batch_limit, power_note_net_enqueued, power_note_net_flushed,
  power_set_pending_net,
}

abbrev pub netfs_max_payload : ℕ
netfs_max_payload = 256

abbrev pub netfs_queue_cap : ℕ
netfs_queue_cap = 32

abbrev pub net_event_tx : ℕ
net_event_tx = 1

abbrev pub net_event_rx : ℕ
net_event_rx = 2

abbrev pub net_event_cfg : ℕ
net_event_cfg = 3

-- `len` as both queues cut it
abbrev pub clamp_len : ℕ → ℕ
clamp_len len = if ltb netfs_max_payload len then netfs_max_payload else len

abbrev pub new_packet : List ℕ → ℕ → Kernel → Packet
new_packet bytes len k = record {
  packet_id = k.net.next_packet_id;
  ticks = pit_ticks k;
  len = clamp_len len;
  payload = take (clamp_len len) bytes;
}

-- the ring without its oldest packet, where it is full
abbrev pub make_room : NetState → NetState
make_room n =
    if n.rx_count == netfs_queue_cap
    then record n {
      rx_head = (n.rx_head + 1) % netfs_queue_cap;
      rx_count = n.rx_count - 1;
      stats = record (n.stats) { dropped_packets = u64 (n.stats.dropped_packets + 1) };
    }
    else n

-- the ring with one packet more
abbrev pub put_rx : Packet → NetState → NetState
put_rx pkt n =
    let count = u32 (n.rx_count + 1) in
    record n {
      rx_queue = write n.rx_queue ((n.rx_head + n.rx_count) % netfs_queue_cap) pkt;
      rx_count = count;
      next_packet_id = u64 (n.next_packet_id + 1);
      stats = record (n.stats) {
        rx_packets = u64 (n.stats.rx_packets + 1);
        rx_bytes = u64 (n.stats.rx_bytes + pkt.len);
        queue_depth = count;
        last_packet_id = pkt.packet_id;
      };
    }

unfoldable pub enqueue_rx_packet : List ℕ → ℕ → Kernel → Kernel
enqueue_rx_packet bytes len k =
    let pkt = new_packet bytes len k in
    trace_record trace_event_net 0 net_event_rx pkt.packet_id
      (record k { net = put_rx pkt (make_room k.net) })

-- the counters of `transmit_now`
abbrev pub count_tx : ℕ → NetState → NetState
count_tx len n = record n {
  stats = record (n.stats) {
    tx_packets = u64 (n.stats.tx_packets + 1);
    tx_bytes = u64 (n.stats.tx_bytes + len);
  };
}

unfoldable pub transmit_now : List ℕ → ℕ → Kernel → Kernel
transmit_now bytes len k =
    let sent =
      trace_record trace_event_net 0 net_event_tx len (record k { net = count_tx len k.net }) in
    if sent.net.stats.loopback_enabled == 0 then sent else enqueue_rx_packet bytes len sent

-- the ring with one packet more
abbrev pub put_tx : Packet → NetState → NetState
put_tx pkt n = record n {
  tx_queue = write n.tx_queue ((n.tx_head + n.tx_count) % netfs_queue_cap) pkt;
  tx_count = u32 (n.tx_count + 1);
  tx_pending_bytes = u32 (n.tx_pending_bytes + pkt.len);
  next_packet_id = u64 (n.next_packet_id + 1);
}

-- `false` is -1.
unfoldable pub enqueue_tx_packet : List ℕ → ℕ → Kernel → Bool × Kernel
enqueue_tx_packet bytes len k =
    let pkt = new_packet bytes len k in
    let n = put_tx pkt k.net in
    let power =
      power_set_pending_net n.tx_count n.tx_pending_bytes
        (power_note_net_enqueued pkt.len k.power) in
    if k.net.tx_count == netfs_queue_cap
    then (false, k)
    else (true, record k { net = n; power = power })

-- The loop of `flush_tx_queue`, once for each packet that waits; it returns how many packets and
-- bytes went out.
pub flush_loop : ℕ → ℕ → ℕ → Kernel → (ℕ × ℕ) × Kernel
flush_loop zero packets bytes k = ((packets, bytes), k)
flush_loop (suc count) packets bytes k =
    let pkt = k.net.tx_queue k.net.tx_head in
    let sent = transmit_now pkt.payload pkt.len k in
    let net = record (sent.net) {
      tx_head = (sent.net.tx_head + 1) % netfs_queue_cap;
      tx_count = sent.net.tx_count - 1;
    } in
    flush_loop count (u32 (packets + 1)) (u32 (bytes + pkt.len)) (record sent { net = net })

-- the end of `flush_tx_queue`
abbrev pub flushed : (ℕ × ℕ) × Kernel → Kernel
flushed ((packets, bytes), k) =
    let net = record (k.net) { tx_pending_bytes = 0 } in
    power_note_net_flushed packets bytes
      (record k { net = net; power = power_set_pending_net net.tx_count 0 k.power })

unfoldable pub flush_tx_queue : Kernel → Kernel
flush_tx_queue k = flushed (flush_loop k.net.tx_count 0 0 k)

abbrev pub empty_packet : Packet
empty_packet = record { packet_id = 0; ticks = 0; len = 0; payload = [] }

unfoldable pub netfs_init : NetState
netfs_init = record {
  rx_queue = λ i. empty_packet;
  tx_queue = λ i. empty_packet;
  rx_head = 0;
  rx_count = 0;
  tx_head = 0;
  tx_count = 0;
  tx_pending_bytes = 0;
  next_packet_id = 1;
  stats = record {
    tx_packets = 0;
    tx_bytes = 0;
    rx_packets = 0;
    rx_bytes = 0;
    dropped_packets = 0;
    queue_depth = 0;
    loopback_enabled = 1;
    last_packet_id = 0;
  };
}

-- strcmp(a, b) == 0
abbrev pub path_eq : List ℕ → List ℕ → Bool
path_eq [] [] = true
path_eq [] (y ∷ ys) = false
path_eq (x ∷ xs) [] = false
path_eq (x ∷ xs) (y ∷ ys) = let rest = path_eq xs ys in if x == y then rest else false

-- "/net/config/loopback"
abbrev pub set_loopback : ℕ → Kernel → Bool × Kernel
set_loopback enabled k =
    let net = record (k.net) { stats = record (k.net.stats) { loopback_enabled = enabled } } in
    (true, trace_record trace_event_net 0 net_event_cfg enabled (record k { net = net }))

abbrev pub config_loopback : List ℕ → Kernel → Bool × Kernel
config_loopback [] k = (false, k)
config_loopback (c ∷ cs) k =
    if c == 48 then set_loopback 0 k else (if c == 49 then set_loopback 1 k else (false, k))

-- the flush that a full batch calls for
abbrev pub flush_full_batch : Kernel → Kernel
flush_full_batch k =
    if leb (power_net_batch_limit k.power.mode) k.net.tx_count then flush_tx_queue k else k

-- "/net/tx": at once in the performance mode, else through the queue, which a full ring and a full
-- batch flush
unfoldable pub write_tx : List ℕ → ℕ → Kernel → Bool × Kernel
write_tx bytes len k =
    let (queued, k1) = enqueue_tx_packet bytes len k in
    let (queued', k2) = enqueue_tx_packet bytes len (flush_tx_queue k1) in
    if k.power.mode == mode_performance
    then (true, transmit_now bytes len k)
    else (if queued
        then (true, flush_full_batch k1)
        else (if queued' then (true, flush_full_batch k2) else (false, k2)))

-- `none` is a null pointer, and `false` is -1.
unfoldable pub netfs_write_path : Option (List ℕ) → Option (List ℕ) → Kernel → Bool × Kernel
netfs_write_path none bytes k = (false, k)
netfs_write_path (some path) none k = (false, k)
netfs_write_path (some path) (some bytes) k =
    let len = length bytes in
    if path_eq path (codes "/net/config/loopback")
    then config_loopback bytes k
    else (if path_eq path (codes "/net/rx/inject")
        then (true, enqueue_rx_packet bytes (u32 len) k)
        else (if path_eq path (codes "/net/tx") then write_tx bytes (u32 len) k else (false, k)))

unfoldable pub netfs_get_stats : NetState → NetStats
netfs_get_stats n = record (n.stats) { queue_depth = n.rx_count }

unfoldable pub netfs_peek_last_rx : NetState → Option Packet
netfs_peek_last_rx n =
    if n.rx_count == 0
    then none
    else some (n.rx_queue ((n.rx_head + n.rx_count - 1) % netfs_queue_cap))

unfoldable pub netfs_power_tick : Kernel → Kernel
netfs_power_tick k =
    if k.power.mode == mode_performance
    then k
    else (if k.net.tx_count == 0 then k else flush_tx_queue k)
