-- ===== src/Data/Power.antt =====
-- The state of kernel/power.c and `struct power_stats` of include/power.h.
use Prim.Native.Nat.{ℕ}
use bumbel_bee.Base.{Array}

pub record PowerStats : Type 0 where
  pub mode : ℕ
  pub pending_keys : ℕ
  pub pending_tx_packets : ℕ
  pub pending_tx_bytes : ℕ
  pub wakeups : ℕ
  pub keyboard_events : ℕ
  pub keyboard_coalesced : ℕ
  pub keyboard_flushes : ℕ
  pub net_tx_enqueued : ℕ
  pub net_tx_flushed : ℕ
  pub net_flushes : ℕ
  pub mode_switches : ℕ

-- power_state
pub record PowerState : Type 0 where
  pub mode : ℕ
  pub keyboard_q : Array ℕ
  pub keyboard_head : ℕ
  pub keyboard_count : ℕ
  pub ticks_since_flush : ℕ
  pub stats : PowerStats
