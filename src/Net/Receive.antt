-- ===== src/Net/Receive.antt =====
-- The ring of received packets of kernel/netfs.c.
use mathlib.Core.List.{map, map-append}
use bumbel_bee.Base.{
  ℕ, zero, suc, ◌+◌, ◌-◌, ◌%◌, ◌^◌, ◌<◌, ◌≤◌, ◌≡◌, refl, ◌∙◌, sym, ap, ap₂, List, [], ◌∷◌, ◌++◌,
  keep, keep_short, keep_full, write, ==_iff, ne→==, length, length-append, length-map, take, drop,
  Array, arith,
}
use native.Mathlib.Decide.{ℕ_discrete}
use bumbel_bee.Data.{Kernel, NetState, Packet, trace_event_net}
use bumbel_bee.Ring.{window, window-write, window-cons, window_mod, length-window, IsModulus-32}
use bumbel_bee.Trace.Frame.{trace_record-Framed}
use bumbel_bee.Net.{
  netfs_queue_cap, net_event_rx, new_packet, clamp_len, make_room, put_rx, enqueue_rx_packet,
}

pub record IsReceiver (n : NetState) : Type 0 where
  pub head : n.rx_head < netfs_queue_cap
  pub count : n.rx_count ≤ netfs_queue_cap

-- the packets that were received and not dropped, oldest first
abbrev pub received : NetState → List Packet
received n = window netfs_queue_cap n.rx_queue n.rx_head n.rx_count

-- the last packets of a list, as many as the ring has places
abbrev pub latest {ℓ} : {A : Type ℓ} → List A → List A
latest xs = keep netfs_queue_cap xs

map-drop {ℓ κ} :
    {A : Type ℓ} {B : Type κ} (f : A → B) (n : ℕ) (xs : List A)
    → map f (drop n xs) ≡ drop n (map f xs)
unfolding drop
map-drop f zero xs = refl
map-drop f (suc n) [] = refl
map-drop f (suc n) (x ∷ xs) = map-drop f n xs

written :
    (q : Array Packet) (h c : ℕ) (pkt : Packet)
    → c < netfs_queue_cap
    → window netfs_queue_cap (write q ((h + c) % netfs_queue_cap) pkt) h ((c + 1) % 2 ^ 32)
      ≡ window netfs_queue_cap q h c ++ (pkt ∷ [])
written q h c pkt lt =
    ap (window netfs_queue_cap (write q ((h + c) % netfs_queue_cap) pkt) h) {y = suc c}
      (omega arith)
    ∙ window-write netfs_queue_cap IsModulus-32 q h c ((h + c) % netfs_queue_cap) pkt lt refl

put_rx-received :
    (pkt : Packet) (n : NetState)
    → IsReceiver n
    → received (put_rx pkt (make_room n)) ≡ latest (received n ++ (pkt ∷ []))
put_rx-received pkt n v = elim (ℕ_discrete n.rx_count netfs_queue_cap) [
  | yes full ↦ rw ((==_iff n.rx_count netfs_queue_cap).1 full) (dropping full)
  | no room ↦ rw (ne→== n.rx_count netfs_queue_cap room) (
      written n.rx_queue n.rx_head n.rx_count pkt (omega arith)
      ∙ sym (
          keep_short netfs_queue_cap (received n ++ (pkt ∷ []))
            (omega (arith, length-append (received n) (pkt ∷ []), count))))
]
  where
    count : length (received n) ≡ n.rx_count
    count = length-window netfs_queue_cap n.rx_queue n.rx_head n.rx_count

    -- the ring after its oldest packet is dropped
    rest : List Packet
    rest = window netfs_queue_cap n.rx_queue (n.rx_head + 1) (n.rx_count - 1)

    dropping :
        n.rx_count ≡ netfs_queue_cap
        → window netfs_queue_cap
            (write n.rx_queue
              (((n.rx_head + 1) % netfs_queue_cap + (n.rx_count - 1)) % netfs_queue_cap)
              pkt)
            ((n.rx_head + 1) % netfs_queue_cap)
            ((n.rx_count - 1 + 1) % 2 ^ 32)
          ≡ latest (received n ++ (pkt ∷ []))
    dropping full =
        written n.rx_queue ((n.rx_head + 1) % netfs_queue_cap) (n.rx_count - 1) pkt (omega arith)
        ∙ ap (λ l. l ++ (pkt ∷ []))
            (window_mod netfs_queue_cap IsModulus-32 n.rx_queue ((n.rx_head + 1) % netfs_queue_cap)
              (n.rx_head + 1) (n.rx_count - 1) (omega arith))
        ∙ sym (
            keep_full netfs_queue_cap (n.rx_queue (n.rx_head % netfs_queue_cap))
              (rest ++ (pkt ∷ []))
              (omega (
                arith,
                length-append rest (pkt ∷ []),
                length-window netfs_queue_cap n.rx_queue (n.rx_head + 1) (n.rx_count - 1),
              )))
        ∙ ap (λ l. latest (l ++ (pkt ∷ [])))
            (sym (window-cons netfs_queue_cap n.rx_queue n.rx_head n.rx_count (λ z. omega arith)))

put_rx-IsReceiver :
    (pkt : Packet) (n : NetState) → IsReceiver n → IsReceiver (put_rx pkt (make_room n))
put_rx-IsReceiver pkt n v = ground arith

pub enqueue_rx_packet-IsReceiver :
    (bytes : List ℕ) (len : ℕ) (k : Kernel)
    → IsReceiver k.net
    → IsReceiver (enqueue_rx_packet bytes len k).net
unfolding enqueue_rx_packet
enqueue_rx_packet-IsReceiver bytes len k v =
    rw ((trace_record-Framed _ _ _ _ _).net) (put_rx-IsReceiver (new_packet bytes len k) k.net v)

-- In a ring whose indices are in range, a packet that arrives comes last, and the ring keeps the
-- latest 32 packets.
pub receive_keeps_latest :
    (bytes : List ℕ) (len : ℕ) (k : Kernel)
    → IsReceiver k.net
    → received (enqueue_rx_packet bytes len k).net
      ≡ latest (received k.net ++ (new_packet bytes len k ∷ []))
unfolding enqueue_rx_packet
receive_keeps_latest bytes len k v =
    ap received (trace_record-Framed trace_event_net 0 net_event_rx _ _).net
    ∙ put_rx-received (new_packet bytes len k) k.net v

-- the bytes of the packets
abbrev pub payloads : List Packet → List (List ℕ)
payloads = map (λ pkt. pkt.payload)

pub receive_payloads :
    (bytes : List ℕ) (len : ℕ) (k : Kernel)
    → IsReceiver k.net
    → payloads (received (enqueue_rx_packet bytes len k).net)
      ≡ latest (payloads (received k.net) ++ (take (clamp_len len) bytes ∷ []))
receive_payloads bytes len k v =
    let pkt = new_packet bytes len k in
    let all = received k.net ++ (pkt ∷ []) in
    ap payloads (receive_keeps_latest bytes len k v)
    ∙ map-drop (λ p. p.payload) (length all - netfs_queue_cap) all
    ∙ ap₂ drop {y = length (payloads all) - netfs_queue_cap}
        (omega (arith, length-map (λ p. p.payload) all))
        (map-append (λ p. p.payload) (received k.net) (pkt ∷ []))
    ∙ ap (λ l. drop (length l - netfs_queue_cap) (payloads (received k.net) ++ (pkt.payload ∷ [])))
        (map-append (λ p. p.payload) (received k.net) (pkt ∷ []))
