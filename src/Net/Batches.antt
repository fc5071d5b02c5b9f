-- ===== src/Net/Batches.antt =====
-- Writes to /net/tx of kernel/netfs.c, which are sent in batches, and the tick that flushes them.
use bumbel_bee.Base.{
  ℕ, suc, ◌<◌, ◌≡◌, ◌≢◌, refl, ◌∙◌, ap, true, false, Bool-cases, inl, inr, List, leb, ==_iff, ne→==,
  arith,
}
use native.Mathlib.Decide.{ℕ_discrete}
use bumbel_bee.Data.{Kernel}
use bumbel_bee.Power.{
  mode_performance, power_net_batch_limit, power_note_net_enqueued, power_set_pending_net,
}
use bumbel_bee.Net.Receive.{IsReceiver}
use bumbel_bee.Net.{
  netfs_power_tick, netfs_queue_cap, enqueue_tx_packet, flush_tx_queue, flush_full_batch, write_tx,
}
use bumbel_bee.Net.Transmit.{flush_loop-Emptied, IsSender}
use bumbel_bee.Net.Flush.{IsCounted, flush_tx_queue-IsFlushed}

enqueue_tx_packet_queues :
    (bytes : List ℕ) (len : ℕ) (k : Kernel)
    → k.net.tx_count < netfs_queue_cap
    → IsReceiver k.net
    → let (ok, k') = enqueue_tx_packet bytes len k in
      (ok ≡ true)
      × (k'.net.tx_count ≡ suc k.net.tx_count)
      × (k'.net.tx_head ≡ k.net.tx_head)
      × (k'.power.mode ≡ k.power.mode)
      × IsCounted k'
      × IsReceiver k'.net
unfolding enqueue_tx_packet power_set_pending_net power_note_net_enqueued
enqueue_tx_packet_queues bytes len k room w =
    rw (ne→== k.net.tx_count netfs_queue_cap (λ e. omega arith)) (
      refl,
      omega arith,
      refl,
      refl,
      record { packets = refl; bytes = refl },
      record { head = w.head; count = w.count },
    )

enqueue_tx_packet_full :
    (bytes : List ℕ) (len : ℕ) (k : Kernel)
    → k.net.tx_count ≡ netfs_queue_cap
    → enqueue_tx_packet bytes len k ≡ (false, k)
unfolding enqueue_tx_packet
enqueue_tx_packet_full bytes len k full = rw ((==_iff k.net.tx_count netfs_queue_cap).1 full) refl

net_batch_limit_positive : (mode : ℕ) → 0 < power_net_batch_limit mode
unfolding power_net_batch_limit
net_batch_limit_positive mode = ground arith

flush_full_batch_leaves_room :
    (k : Kernel)
    → k.net.tx_head < netfs_queue_cap
    → IsReceiver k.net
    → IsCounted k
    → let k' = flush_full_batch k in
      (k'.net.tx_count < power_net_batch_limit k.power.mode) × IsCounted k'
flush_full_batch_leaves_room k h w c =
    elim (Bool-cases (leb (power_net_batch_limit k.power.mode) k.net.tx_count)) [
      | inl full ↦
          let f = flush_tx_queue-IsFlushed k h w in
          rw full (omega (arith, f.nothing_waits, net_batch_limit_positive k.power.mode), f.counted)
      | inr room ↦ rw room (ground arith, c)
    ]

enqueue_then_flush :
    (bytes : List ℕ) (len : ℕ) (k : Kernel)
    → k.net.tx_count < netfs_queue_cap
    → k.net.tx_head < netfs_queue_cap
    → IsReceiver k.net
    → let (ok, k') = enqueue_tx_packet bytes len k in
      (ok ≡ true)
      × ((flush_full_batch k').net.tx_count < power_net_batch_limit k.power.mode)
      × IsCounted (flush_full_batch k')
enqueue_then_flush bytes len k room h w =
    let (ok, more, head, mode, counted, receiver) = enqueue_tx_packet_queues bytes len k room w in
    let (less, counted') =
      flush_full_batch_leaves_room (enqueue_tx_packet bytes len k).1 (omega (arith, head)) receiver
        counted in
    (ok, omega (arith, less, ap power_net_batch_limit mode), counted')

-- Outside the performance mode, and with the indices of both rings in range, a write to /net/tx
-- succeeds: where the queue is full, it is flushed to make room. Afterwards less than a batch
-- waits, and the power manager's counters of what waits are those of the queue.
pub write_tx_batches :
    (bytes : List ℕ) (len : ℕ) (k : Kernel)
    → IsSender k.net
    → IsReceiver k.net
    → k.power.mode ≢ mode_performance
    → let (ok, k') = write_tx bytes len k in
      (ok ≡ true) × (k'.net.tx_count < power_net_batch_limit k.power.mode) × IsCounted k'
unfolding write_tx
write_tx_batches bytes len k v w slow = elim (ℕ_discrete k.net.tx_count netfs_queue_cap) [
  | yes full ↦
      let loop = flush_loop-Emptied k.net.tx_count 0 0 k refl v.head w in
      let f = flush_tx_queue-IsFlushed k v.head w in
      let (ok, less, counted) =
        enqueue_then_flush bytes len (flush_tx_queue k) (omega (arith, f.nothing_waits))
          (omega (arith, f.head, loop.tx_head)) (f.receiver loop.receiver) in
      rw (ne→== k.power.mode mode_performance slow, enqueue_tx_packet_full bytes len k full, ok)
        (
          refl,
          omega (arith, less, ap power_net_batch_limit (f.mode ∙ ap (λ p. p.mode) loop.power)),
          counted,
        )
  | no room ↦
      let (ok, less, counted) = enqueue_then_flush bytes len k (omega arith) v.head w in
      rw (ne→== k.power.mode mode_performance slow, ok) (refl, less, counted)
]

-- What `netfs_power_tick` does to the queues.
pub record IsTicked (k k' : Kernel) : Type 0 where
  pub keyboard : k'.keyboard ≡ k.keyboard
  pub keyboard_count : k'.power.keyboard_count ≡ k.power.keyboard_count
  pub mode : k'.power.mode ≡ k.power.mode
  pub nothing_waits : k.power.mode ≢ mode_performance → k'.net.tx_count ≡ 0

pub netfs_power_tick-IsTicked :
    (k : Kernel)
    → k.net.tx_head < netfs_queue_cap
    → IsReceiver k.net
    → IsTicked k (netfs_power_tick k)
unfolding netfs_power_tick
netfs_power_tick-IsTicked k h w = elim (ℕ_discrete k.power.mode mode_performance) [
  | yes fast ↦ rw ((==_iff k.power.mode mode_performance).1 fast) (record {
    keyboard = refl;
    keyboard_count = refl;
    mode = refl;
    nothing_waits = λ slow. absurd (slow fast);
  })
  | no slow ↦ elim (ℕ_discrete k.net.tx_count 0) [
    | yes e ↦
        rw (ne→== k.power.mode mode_performance slow, (==_iff k.net.tx_count 0).1 e)
          (record { keyboard = refl; keyboard_count = refl; mode = refl; nothing_waits = λ s. e })
    | no ne ↦
        let f = flush_tx_queue-IsFlushed k h w in
        let loop = flush_loop-Emptied k.net.tx_count 0 0 k refl h w in
        rw (ne→== k.power.mode mode_performance slow, ne→== k.net.tx_count 0 ne)
          (record {
            keyboard = f.keyboard ∙ loop.keyboard;
            keyboard_count = f.keyboard_count ∙ ap (λ p. p.keyboard_count) loop.power;
            mode = f.mode ∙ ap (λ p. p.mode) loop.power;
            nothing_waits = λ s. f.nothing_waits;
          })
  ]
]
