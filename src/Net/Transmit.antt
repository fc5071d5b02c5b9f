-- ===== src/Net/Transmit.antt =====
-- The queue of packets to send of kernel/netfs.c, and the loop that empties it.
use bumbel_bee.Base.{
  keep_short, keep-keep, ℕ, zero, suc, ◌+◌, ◌-◌, ◌%◌, ◌<◌, ◌≤◌, ◌≡◌, ◌≢◌, refl, ◌∙◌, sym, ap, ap₂,
  Bool-cases, inl, inr, List, [], ◌∷◌, ◌++◌, append-nil, append_assoc, ◌==◌, ne→==, length,
  length-map, take, take_all, u32, arith,
}
use bumbel_bee.Data.{Kernel, NetState, Packet, trace_event_net}
use bumbel_bee.Ring.{window, window_mod, length-window, IsModulus-32}
use bumbel_bee.Trace.{trace_record}
use bumbel_bee.Trace.Frame.{trace_record-Framed}
use bumbel_bee.Net.Receive.{
  IsReceiver, received, latest, enqueue_rx_packet-IsReceiver, payloads, receive_payloads,
}
use bumbel_bee.Net.{
  netfs_queue_cap, netfs_max_payload, net_event_tx, clamp_len, count_tx, enqueue_rx_packet,
  transmit_now, put_rx, make_room, new_packet, flush_loop,
}

-- A packet as `enqueue_tx_packet` fills it.
pub record IsPacket (pkt : Packet) : Type 0 where
  pub len : pkt.len ≤ netfs_max_payload
  pub payload : length pkt.payload ≡ pkt.len

pub record IsSender (n : NetState) : Type 0 where
  pub head : n.tx_head < netfs_queue_cap
  pub count : n.tx_count ≤ netfs_queue_cap
  pub packets : (i : ℕ) → IsPacket (n.tx_queue i)

-- the packets that wait to be sent, oldest first
abbrev pub waiting : NetState → List Packet
waiting n = window netfs_queue_cap n.tx_queue n.tx_head n.tx_count

-- What `transmit_now` leaves alone.
record Sent (k k' : Kernel) : Type 0 where
  power : k'.power ≡ k.power
  keyboard : k'.keyboard ≡ k.keyboard
  tx_queue : k'.net.tx_queue ≡ k.net.tx_queue
  tx_head : k'.net.tx_head ≡ k.net.tx_head
  tx_count : k'.net.tx_count ≡ k.net.tx_count
  loopback : k'.net.stats.loopback_enabled ≡ k.net.stats.loopback_enabled

Sent-trans : {a b c : Kernel} → Sent a b → Sent b c → Sent a c
Sent-trans s t = record {
  power = t.power ∙ s.power;
  keyboard = t.keyboard ∙ s.keyboard;
  tx_queue = t.tx_queue ∙ s.tx_queue;
  tx_head = t.tx_head ∙ s.tx_head;
  tx_count = t.tx_count ∙ s.tx_count;
  loopback = t.loopback ∙ s.loopback;
}

trace_record-Sent :
    (type pid data0 data1 : ℕ) (k : Kernel) → Sent k (trace_record type pid data0 data1 k)
trace_record-Sent type pid data0 data1 k =
    let f = trace_record-Framed type pid data0 data1 k in
    record {
      power = f.power;
      keyboard = f.keyboard;
      tx_queue = ap (λ n. n.tx_queue) f.net;
      tx_head = ap (λ n. n.tx_head) f.net;
      tx_count = ap (λ n. n.tx_count) f.net;
      loopback = ap (λ n. n.stats.loopback_enabled) f.net;
    }

put_rx-Sent : (pkt : Packet) (k : Kernel) → Sent k (record k { net = put_rx pkt (make_room k.net) })
put_rx-Sent pkt k = ground arith

enqueue_rx_packet-Sent :
    (bytes : List ℕ) (len : ℕ) (k : Kernel) → Sent k (enqueue_rx_packet bytes len k)
unfolding enqueue_rx_packet
enqueue_rx_packet-Sent bytes len k =
    Sent-trans (put_rx-Sent (new_packet bytes len k) k) (trace_record-Sent _ _ _ _ _)

-- the kernel when the event of a transmission is recorded
abbrev announced : ℕ → Kernel → Kernel
announced len k =
    trace_record trace_event_net 0 net_event_tx len (record k { net = count_tx len k.net })

announced-Sent : (len : ℕ) (k : Kernel) → Sent k (announced len k)
announced-Sent len k =
    let counted : Sent k (record k { net = count_tx len k.net }) = record {
      power = refl;
      keyboard = refl;
      tx_queue = refl;
      tx_head = refl;
      tx_count = refl;
      loopback = refl;
    } in
    Sent-trans counted (trace_record-Sent _ _ _ _ _)

announced-received : (len : ℕ) (k : Kernel) → received (announced len k).net ≡ received k.net
announced-received len k =
    ap received (trace_record-Framed trace_event_net 0 net_event_tx len _).net

announced-IsReceiver : (len : ℕ) (k : Kernel) → IsReceiver k.net → IsReceiver (announced len k).net
announced-IsReceiver len k v =
    rw ((trace_record-Framed trace_event_net 0 net_event_tx len _).net)
      (record { head = v.head; count = v.count })

transmit_now-Sent : (bytes : List ℕ) (len : ℕ) (k : Kernel) → Sent k (transmit_now bytes len k)
unfolding transmit_now
transmit_now-Sent bytes len k =
    elim (Bool-cases ((announced len k).net.stats.loopback_enabled == 0)) [
      | inl off ↦ rw off (announced-Sent len k)
      | inr on ↦
          rw on
            (Sent-trans (announced-Sent len k) (enqueue_rx_packet-Sent bytes len (announced len k)))
    ]

transmit_now-IsReceiver :
    (bytes : List ℕ) (len : ℕ) (k : Kernel)
    → IsReceiver k.net
    → IsReceiver (transmit_now bytes len k).net
unfolding transmit_now
transmit_now-IsReceiver bytes len k v =
    elim (Bool-cases ((announced len k).net.stats.loopback_enabled == 0)) [
      | inl off ↦ rw off (announced-IsReceiver len k v)
      | inr on ↦
          rw on (
            enqueue_rx_packet-IsReceiver bytes len (announced len k) (announced-IsReceiver len k v))
    ]

-- With the loopback on, what is sent is received.
transmit_now-received :
    (pkt : Packet) (k : Kernel)
    → IsReceiver k.net
    → IsPacket pkt
    → k.net.stats.loopback_enabled ≢ 0
    → payloads (received (transmit_now pkt.payload pkt.len k).net)
      ≡ latest (payloads (received k.net) ++ (pkt.payload ∷ []))
unfolding transmit_now
transmit_now-received pkt k v w on =
    let whole : take (clamp_len pkt.len) pkt.payload ≡ pkt.payload =
      take_all (clamp_len pkt.len) pkt.payload (ground arith) in
    rw
      (ne→== (announced pkt.len k).net.stats.loopback_enabled 0
        (λ e. on (sym (announced-Sent pkt.len k).loopback ∙ e)))
      (receive_payloads pkt.payload pkt.len (announced pkt.len k) (announced-IsReceiver pkt.len k v)
        ∙ ap₂ (λ l x. latest (payloads l ++ (x ∷ []))) (announced-received pkt.len k) whole)

-- What the loop of `flush_tx_queue` does.
pub record Emptied (k k' : Kernel) : Type 0 where
  pub power : k'.power ≡ k.power
  pub keyboard : k'.keyboard ≡ k.keyboard
  pub tx_count : k'.net.tx_count ≡ 0
  pub tx_head : k'.net.tx_head < netfs_queue_cap
  pub tx_queue : k'.net.tx_queue ≡ k.net.tx_queue
  pub receiver : IsReceiver k'.net

-- One round of the loop.
abbrev advanced : Kernel → Kernel
advanced k =
    let sent =
      transmit_now (k.net.tx_queue k.net.tx_head).payload (k.net.tx_queue k.net.tx_head).len k in
    record sent {
      net = record (sent.net) {
        tx_head = (sent.net.tx_head + 1) % netfs_queue_cap;
        tx_count = sent.net.tx_count - 1;
      };
    }

advanced-IsReceiver : (k : Kernel) → IsReceiver k.net → IsReceiver (advanced k).net
advanced-IsReceiver k v =
    let w =
      transmit_now-IsReceiver (k.net.tx_queue k.net.tx_head).payload
        (k.net.tx_queue k.net.tx_head).len k v in
    record { head = w.head; count = w.count }

pub flush_loop-Emptied :
    (n packets bytes : ℕ) (k : Kernel)
    → k.net.tx_count ≡ n
    → k.net.tx_head < netfs_queue_cap
    → IsReceiver k.net
    → Emptied k (flush_loop n packets bytes k).1
unfolding flush_loop
flush_loop-Emptied zero packets bytes k e h v = record {
  power = refl;
  keyboard = refl;
  tx_count = e;
  tx_head = h;
  tx_queue = refl;
  receiver = v;
}
flush_loop-Emptied (suc n) packets bytes k e h v =
    let pkt = k.net.tx_queue k.net.tx_head in
    let s = transmit_now-Sent pkt.payload pkt.len k in
    let rest =
      flush_loop-Emptied n (u32 (packets + 1)) (u32 (bytes + pkt.len)) (advanced k)
        (omega (arith, s.tx_count)) (omega arith) (advanced-IsReceiver k v) in
    record {
      power = rest.power ∙ s.power;
      keyboard = rest.keyboard ∙ s.keyboard;
      tx_count = rest.tx_count;
      tx_head = rest.tx_head;
      tx_queue = rest.tx_queue ∙ s.tx_queue;
      receiver = rest.receiver;
    }

pub flush_loop-received :
    (n packets bytes : ℕ) (k : Kernel)
    → k.net.tx_count ≡ n
    → k.net.tx_head < netfs_queue_cap
    → ((i : ℕ) → IsPacket (k.net.tx_queue i))
    → IsReceiver k.net
    → k.net.stats.loopback_enabled ≢ 0
    → payloads (received (flush_loop n packets bytes k).1.net)
      ≡ latest (payloads (received k.net) ++ payloads (waiting k.net))
unfolding flush_loop
flush_loop-received zero packets bytes k e h w v on =
    sym (keep_short netfs_queue_cap (payloads (received k.net)) short)
    ∙ ap latest (
        sym (append-nil (payloads (received k.net)))
        ∙ ap
            (λ n.
              payloads (received k.net)
              ++ payloads (window netfs_queue_cap k.net.tx_queue k.net.tx_head n))
            (sym e))
  where
    short : length (payloads (received k.net)) ≤ netfs_queue_cap
    short = omega (
      arith,
      length-map (λ p. p.payload) (received k.net),
      length-window netfs_queue_cap k.net.rx_queue k.net.rx_head k.net.rx_count,
      v.count,
    )
flush_loop-received (suc n) packets bytes k e h w v on =
    let rest =
      flush_loop-received n (u32 (packets + 1)) (u32 (bytes + pkt.len)) (advanced k)
        (omega (arith, s.tx_count)) (omega arith) (λ i. ap_packet i) (advanced-IsReceiver k v)
        (λ off. on (sym s.loopback ∙ off)) in
    rest
    ∙ ap (λ l. latest (l ++ payloads (waiting (advanced k).net)))
        (transmit_now-received pkt k v (w k.net.tx_head) on)
    ∙ keep-keep netfs_queue_cap (payloads (received k.net) ++ (pkt.payload ∷ []))
        (payloads (waiting (advanced k).net))
    ∙ ap latest (
        append_assoc (payloads (received k.net)) (pkt.payload ∷ [])
          (payloads (waiting (advanced k).net))
        ∙ ap (λ l. payloads (received k.net) ++ payloads l) (sym split))
  where
    pkt : Packet
    pkt = k.net.tx_queue k.net.tx_head

    s : Sent k (transmit_now pkt.payload pkt.len k)
    s = transmit_now-Sent pkt.payload pkt.len k

    ap_packet : (i : ℕ) → IsPacket ((advanced k).net.tx_queue i)
    ap_packet i = rw (s.tx_queue) (w i)

    split : waiting k.net ≡ pkt ∷ waiting (advanced k).net
    split =
        ap (window netfs_queue_cap k.net.tx_queue k.net.tx_head) e
        ∙ ap₂ ◌∷◌ {y = pkt} (ap k.net.tx_queue (omega arith)) (
            window_mod netfs_queue_cap IsModulus-32 k.net.tx_queue (k.net.tx_head + 1)
              ((advanced k).net.tx_head) n (omega (arith, s.tx_head))
            ∙ ap₂ (λ q c. window netfs_queue_cap q (advanced k).net.tx_head c) (sym s.tx_queue)
                (omega (arith, s.tx_count)))
