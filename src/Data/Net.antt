-- ===== src/Data/Net.antt =====
-- The state of kernel/netfs.c and `struct netfs_stats` of include/netfs.h.
use Prim.Native.Nat.{ℕ}
use mathlib.Core.List.{List}
use bumbel_bee.Base.{Array}

-- struct net_packet. The payload is the first `len` bytes of `data`, the part that is ever read.
pub record Packet : Type 0 where
  pub packet_id : ℕ
  pub ticks : ℕ
  pub len : ℕ
  pub payload : List ℕ

pub record NetStats : Type 0 where
  pub tx_packets : ℕ
  pub tx_bytes : ℕ
  pub rx_packets : ℕ
  pub rx_bytes : ℕ
  pub dropped_packets : ℕ
  pub queue_depth : ℕ
  pub loopback_enabled : ℕ
  pub last_packet_id : ℕ

pub record NetState : Type 0 where
  pub rx_queue : Array Packet
  pub tx_queue : Array Packet
  pub rx_head : ℕ
  pub rx_count : ℕ
  pub tx_head : ℕ
  pub tx_count : ℕ
  pub tx_pending_bytes : ℕ
  pub next_packet_id : ℕ
  pub stats : NetStats
