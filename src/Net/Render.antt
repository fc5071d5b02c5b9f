-- ===== src/Net/Render.antt =====
-- kernel/netfs.c: the text that a file below /net reads as.
use mathlib.Core.List.{map}
use bumbel_bee.Base.{
  ℕ, zero, suc, ◌+◌, ◌-◌, ◌%◌, ◌||◌, Option, none, some, List, [], ◌∷◌, ◌++◌, Array, ◌==◌, ltb,
  if◌then◌else◌, take, codes, write,
}
use bumbel_bee.Data.{NetState}
use bumbel_bee.Text.{Out, Piece, text, number, char, append_all}
use bumbel_bee.Net.{path_eq, netfs_queue_cap}

-- the line of the file `/net/stats`
abbrev stats_pieces : NetState → List Piece
stats_pieces n =
    text (codes "tx_packets=")
    ∷ number n.stats.tx_packets
    ∷ text (codes " tx_bytes=")
    ∷ number n.stats.tx_bytes
    ∷ text (codes " rx_packets=")
    ∷ number n.stats.rx_packets
    ∷ text (codes " rx_bytes=")
    ∷ number n.stats.rx_bytes
    ∷ text (codes " dropped=")
    ∷ number n.stats.dropped_packets
    ∷ text (codes " queue_depth=")
    ∷ number n.rx_count
    ∷ text (codes " tx_pending=")
    ∷ number n.tx_count
    ∷ text (codes " loopback=")
    ∷ number n.stats.loopback_enabled
    ∷ text (codes " last_packet=")
    ∷ number n.stats.last_packet_id
    ∷ char 10
    ∷ []

-- the lines of the loop of `/net/rx/queue`, with `left` packets to go, at packet `i`
queue_pieces : ℕ → ℕ → NetState → List Piece
queue_pieces zero i n = []
queue_pieces (suc left) i n =
    let packet = n.rx_queue ((n.rx_head + i) % netfs_queue_cap) in
    text (codes "idx=")
    ∷ number i
    ∷ text (codes " id=")
    ∷ number packet.packet_id
    ∷ text (codes " len=")
    ∷ number packet.len
    ∷ char 10
    ∷ queue_pieces left (i + 1) n

-- A byte that does not print, a quote or a backslash is shown as a dot.
abbrev shown : ℕ → ℕ
shown ch = if ltb ch 32 || ltb 126 ch || ch == 34 || ch == 92 then 46 else ch

abbrev last_pieces : NetState → List Piece
last_pieces n =
    let packet = n.rx_queue ((n.rx_head + n.rx_count - 1) % netfs_queue_cap) in
    let line =
      text (codes "packet id=")
      ∷ number packet.packet_id
      ∷ text (codes " len=")
      ∷ number packet.len
      ∷ text (codes " data=\"")
      ∷ (map (λ ch. char (shown ch)) (take packet.len packet.payload)
          ++ (text (codes "\"\n") ∷ [])) in
    if n.rx_count == 0 then text (codes "rx queue empty\n") ∷ [] else line

-- what `netfs_render_path` appends for a path
unfoldable pub net_pieces : List ℕ → NetState → Option (List Piece)
unfolding queue_pieces
net_pieces path n =
    if path_eq path (codes "/net/stats")
    then some (stats_pieces n)
    else (if path_eq path (codes "/net/config/loopback")
        then some (number n.stats.loopback_enabled ∷ char 10 ∷ [])
        else (if path_eq path (codes "/net/explain")
            then some (
                text (codes "netfs: packet i/o is modeled as files under /net.\n")
                ∷ text (codes "write /net/tx <payload> for outbound packets.\n")
                ∷ text (codes "write /net/rx/inject <payload> for inbound packet injection.\n")
                ∷ [])
            else (if path_eq path (codes "/net/rx/queue")
                then some (
                    text (codes "rx queue depth=")
                    ∷ number n.rx_count
                    ∷ char 10
                    ∷ queue_pieces n.rx_count 0 n)
                else (if path_eq path (codes "/net/rx/last")
                    then some (last_pieces n)
                    else (if path_eq path (codes "/net/tx")
                        then some (text (codes "write-only endpoint for outbound packets\n") ∷ [])
                        else none)))))

-- `none` is -1. Neither pointer is null.
unfoldable pub netfs_render_path : List ℕ → Array ℕ → ℕ → NetState → Option Out
unfolding net_pieces append_all
netfs_render_path path buf cap n = elim (net_pieces path n) [
  | none ↦ none
  | some pieces ↦
      let o : Out = record { buf = write buf 0 0; pos = 0 } in
      if cap == 0 then none else some (append_all cap pieces o)
]
