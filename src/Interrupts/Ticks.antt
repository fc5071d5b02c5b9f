-- ===== src/Interrupts/Ticks.antt =====
-- How long the power manager holds back key strokes and packets.
use bumbel_bee.Base.{
  ℕ, zero, suc, ◌+◌, ◌-◌, ◌^◌, ◌≤◌, ◌<◌, ◌≡◌, ◌≢◌, refl, ◌∙◌, sym, ap, true, false, Bool-cases, inl,
  inr, leb, le→leb, u32, arith,
}
use bumbel_bee.Data.{Kernel}
use bumbel_bee.Keyboard.{buffer_size}
use bumbel_bee.Keyboard.Fifo.{IsWord, unread_count, unread}
use bumbel_bee.Power.{power_keyboard_flush_interval, mode_performance}
use bumbel_bee.Power.Keys.{IsValid, stream, keyboard_flush_delivers, keyboard_flush_now-mode}
use bumbel_bee.Net.{netfs_queue_cap}
use bumbel_bee.Net.Receive.{IsReceiver}
use bumbel_bee.Net.Batches.{netfs_power_tick-IsTicked}
use bumbel_bee.Interrupts.{power_tick_hook, flush_keys, set_ticks}

pub ticks_from : ℕ → Kernel → Kernel
ticks_from zero k = k
ticks_from (suc n) k = ticks_from n (power_tick_hook k)

-- What a tick that is due does to the keyboard and the queues.
pub record Delivered (k k' : Kernel) : Type 0 where
  pub keys : unread k'.keyboard ≡ stream k.power k.keyboard
  pub no_keys : k'.power.keyboard_count ≡ 0
  pub no_packets : k.power.mode ≢ mode_performance → k'.net.tx_count ≡ 0

-- The keyboard's ring has room for all that is held back, and both packet rings are in order.
pub record IsSettled (k : Kernel) : Type 0 where
  pub power : IsValid k.power
  pub word : IsWord k.keyboard
  pub room : unread_count k.keyboard + k.power.keyboard_count ≤ buffer_size
  pub tx_head : k.net.tx_head < netfs_queue_cap
  pub receiver : IsReceiver k.net

tick_due :
    (k : Kernel)
    → IsSettled k
    → leb (power_keyboard_flush_interval k.power.mode) (u32 (k.power.ticks_since_flush + 1)) ≡ true
    → Delivered k (power_tick_hook k)
unfolding power_tick_hook
tick_due k s due =
    let counted = set_ticks (u32 (k.power.ticks_since_flush + 1)) k in
    let (all, none_left, valid, word) =
      keyboard_flush_delivers counted.power counted.keyboard
        (record { head = s.power.head; count = s.power.count }) s.word s.room in
    let same_mode = keyboard_flush_now-mode counted.power counted.keyboard in
    let sent = netfs_power_tick-IsTicked (flush_keys counted) s.tx_head s.receiver in
    rw due (record {
      keys = ap unread sent.keyboard ∙ all;
      no_keys = sent.keyboard_count ∙ none_left;
      no_packets = λ slow. sent.nothing_waits (λ fast. slow (sym same_mode ∙ fast));
    })

tick_not_due :
    (k : Kernel)
    → leb (power_keyboard_flush_interval k.power.mode) (u32 (k.power.ticks_since_flush + 1)) ≡ false
    → power_tick_hook k ≡ set_ticks (u32 (k.power.ticks_since_flush + 1)) k
unfolding power_tick_hook
tick_not_due k early = rw early refl

interval_small :
    (mode : ℕ)
    → (1 ≤ power_keyboard_flush_interval mode) × (power_keyboard_flush_interval mode ≤ 12)
unfolding power_keyboard_flush_interval
interval_small mode = ground arith

-- With `m` ticks missing, at most, the queues are delivered after at most one more.
Delivered-within :
    (m : ℕ) (k : Kernel)
    → IsSettled k
    → k.power.ticks_since_flush + 1 < 2 ^ 32
    → power_keyboard_flush_interval k.power.mode ≤ k.power.ticks_since_flush + 1 + m
    → (n : ℕ) × (n ≤ suc m) × Delivered k (ticks_from n k)
unfolding ticks_from
Delivered-within zero k s w le = (
  1,
  omega arith,
  tick_due k s (
      le→leb (power_keyboard_flush_interval k.power.mode) (u32 (k.power.ticks_since_flush + 1))
        (omega arith)),
)
Delivered-within (suc m) k s w le =
    elim (Bool-cases
      (leb (power_keyboard_flush_interval k.power.mode) (u32 (k.power.ticks_since_flush + 1)))) [
        | inl due ↦ (1, omega arith, tick_due k s due)
        | inr early ↦
            let later = set_ticks (u32 (k.power.ticks_since_flush + 1)) k in
            let settled : IsSettled later = record {
              power = record { head = s.power.head; count = s.power.count };
              word = s.word;
              room = s.room;
              tx_head = s.tx_head;
              receiver = s.receiver;
            } in
            let (low, high) = interval_small k.power.mode in
            let (n, few, d) = Delivered-within m later settled (ground arith) (omega arith) in
            (
              suc n,
              omega (arith, few),
              rw (tick_not_due k early)
                  (record { keys = d.keys; no_keys = d.no_keys; no_packets = d.no_packets }),
            )
      ]

-- Key strokes and packets wait a bounded time: from a settled state, with the tick counter below its
-- wrap, there is a number of ticks, at most the flush interval of the mode, after which all key
-- strokes that were held back are in the keyboard's ring, behind those unread there and in their
-- order, none is held back, and, outside the performance mode, no packet waits to be sent.
pub ticks_deliver :
    (k : Kernel)
    → IsSettled k
    → k.power.ticks_since_flush + 1 < 2 ^ 32
    → (n : ℕ) × (n ≤ power_keyboard_flush_interval k.power.mode) × Delivered k (ticks_from n k)
ticks_deliver k s w =
    let (low, high) = interval_small k.power.mode in
    let (n, le, d) =
      Delivered-within (power_keyboard_flush_interval k.power.mode - 1) k s w
        (omega (arith, low)) in
    (n, omega (arith, le, low), d)
