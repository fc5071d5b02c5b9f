-- ===== src/Net/Flush.antt =====
-- Flushes of the queue of packets to send of kernel/netfs.c, and the writes to /net/tx.
use bumbel_bee.Base.{
  ℕ, ◌<◌, ◌≡◌, ◌≢◌, refl, ◌∙◌, sym, ap, Bool-cases, inl, inr, [], ◌++◌, ◌==◌, arith,
}
use bumbel_bee.Data.{Kernel, trace_event_power}
use bumbel_bee.Ring.{window}
use bumbel_bee.Trace.Frame.{trace_record-Framed}
use bumbel_bee.Power.{power_note_net_flushed, power_set_pending_net}
use bumbel_bee.Net.Receive.{IsReceiver, received, latest, payloads}
use bumbel_bee.Net.{netfs_queue_cap, flush_loop, flush_tx_queue, flushed}
use bumbel_bee.Net.Transmit.{flush_loop-Emptied, flush_loop-received, IsSender, waiting}

-- What `power_note_net_flushed` leaves alone.
note_net_flushed-net :
    (packets bytes : ℕ) (k : Kernel) → (power_note_net_flushed packets bytes k).net ≡ k.net
unfolding power_note_net_flushed
note_net_flushed-net packets bytes k = elim (Bool-cases (packets == 0)) [
  | inl none_sent ↦ rw none_sent refl
  | inr some_sent ↦ rw some_sent ((trace_record-Framed trace_event_power 0 packets bytes _).net)
]

note_net_flushed-keyboard :
    (packets bytes : ℕ) (k : Kernel)
    → (power_note_net_flushed packets bytes k).keyboard ≡ k.keyboard
unfolding power_note_net_flushed
note_net_flushed-keyboard packets bytes k = elim (Bool-cases (packets == 0)) [
  | inl none_sent ↦ rw none_sent refl
  | inr some_sent ↦
      rw some_sent ((trace_record-Framed trace_event_power 0 packets bytes _).keyboard)
]

note_net_flushed-pending :
    (packets bytes : ℕ) (k : Kernel)
    → k.power.stats.pending_tx_packets ≡ 0
    → k.power.stats.pending_tx_bytes ≡ 0
    → let power = (power_note_net_flushed packets bytes k).power in
      (power.stats.pending_tx_packets ≡ 0)
      × (power.stats.pending_tx_bytes ≡ 0)
      × (power.mode ≡ k.power.mode)
      × (power.keyboard_count ≡ k.power.keyboard_count)
unfolding power_note_net_flushed
note_net_flushed-pending packets bytes k e f = elim (Bool-cases (packets == 0)) [
  | inl none_sent ↦ rw none_sent (e, f, refl, refl)
  | inr some_sent ↦
      rw (some_sent, (trace_record-Framed trace_event_power 0 packets bytes _).power) ground arith
]

-- The power manager's counters of what waits to be sent are those of the queue.
pub record IsCounted (k : Kernel) : Type 0 where
  pub packets : k.power.stats.pending_tx_packets ≡ k.net.tx_count
  pub bytes : k.power.stats.pending_tx_bytes ≡ k.net.tx_pending_bytes

-- The end of a flush.
pub record IsFlushed (k k' : Kernel) : Type 0 where
  pub received_same : received k'.net ≡ received k.net
  pub nothing_waits : k'.net.tx_count ≡ 0
  pub head : k'.net.tx_head ≡ k.net.tx_head
  pub counted : IsCounted k'
  pub mode : k'.power.mode ≡ k.power.mode
  pub keyboard : k'.keyboard ≡ k.keyboard
  pub keyboard_count : k'.power.keyboard_count ≡ k.power.keyboard_count
  pub receiver : IsReceiver k.net → IsReceiver k'.net

flushed-IsFlushed :
    (packets bytes : ℕ) (k : Kernel)
    → k.net.tx_count ≡ 0
    → IsFlushed k (flushed ((packets, bytes), k))
unfolding power_set_pending_net
flushed-IsFlushed packets bytes k e =
    let (p, b, m, c) =
      note_net_flushed-pending packets bytes cleared (cleared_packets ∙ e) cleared_bytes in
    record {
      received_same = ap received net;
      nothing_waits = ap (λ n. n.tx_count) net ∙ e;
      head = ap (λ n. n.tx_head) net;
      counted = record {
        packets = p ∙ sym (ap (λ n. n.tx_count) net ∙ e);
        bytes = b ∙ sym (ap (λ n. n.tx_pending_bytes) net);
      };
      mode = m ∙ cleared_mode;
      keyboard = note_net_flushed-keyboard packets bytes cleared;
      keyboard_count = c ∙ cleared_keys;
      receiver = λ w. rw net (record { head = w.head; count = w.count });
    }
  where
    cleared : Kernel
    cleared = record k {
      net = record (k.net) { tx_pending_bytes = 0 };
      power = power_set_pending_net k.net.tx_count 0 k.power;
    }

    cleared_packets : cleared.power.stats.pending_tx_packets ≡ k.net.tx_count
    cleared_packets = refl

    cleared_bytes : cleared.power.stats.pending_tx_bytes ≡ 0
    cleared_bytes = refl

    cleared_keys : cleared.power.keyboard_count ≡ k.power.keyboard_count
    cleared_keys = refl

    cleared_mode : cleared.power.mode ≡ k.power.mode
    cleared_mode = refl

    net : (flushed ((packets, bytes), k)).net ≡ cleared.net
    net = note_net_flushed-net packets bytes cleared

pub flush_tx_queue-IsFlushed :
    (k : Kernel)
    → k.net.tx_head < netfs_queue_cap
    → IsReceiver k.net
    → IsFlushed (flush_loop k.net.tx_count 0 0 k).1 (flush_tx_queue k)
unfolding flush_tx_queue
flush_tx_queue-IsFlushed k h w =
    let looped = flush_loop k.net.tx_count 0 0 k in
    flushed-IsFlushed looped.0.0 looped.0.1 looped.1
      (flush_loop-Emptied k.net.tx_count 0 0 k refl h w).tx_count

-- With the loopback on and the indices of both rings in range, a flush sends all the packets that
-- wait, in order: the ring of received packets then ends with their payloads, as far as its 32
-- places reach. Nothing waits any more, and the power manager's counters of what waits are those
-- of the queue.
pub flush_tx_delivers :
    (k : Kernel)
    → IsSender k.net
    → IsReceiver k.net
    → k.net.stats.loopback_enabled ≢ 0
    → let k' = flush_tx_queue k in
      (payloads (received k'.net) ≡ latest (payloads (received k.net) ++ payloads (waiting k.net)))
      × (waiting k'.net ≡ [])
      × IsCounted k'
flush_tx_delivers k v w on =
    let f = flush_tx_queue-IsFlushed k v.head w in
    (
      ap payloads f.received_same
          ∙ flush_loop-received k.net.tx_count 0 0 k refl v.head v.packets w on,
      ap (window netfs_queue_cap (flush_tx_queue k).net.tx_queue (flush_tx_queue k).net.tx_head)
          f.nothing_waits,
      f.counted,
    )
