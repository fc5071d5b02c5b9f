-- ===== src/Tests/Devices.antt =====
-- The theorems on key strokes and packets, applied to short queues.
use bumbel_bee.Base.{◌-◌, ◌^◌, ◌<◌, ◌≡◌, refl, inl, true, some, [], ◌∷◌, ◌++◌, arith}
use bumbel_bee.Data.{Kernel, KeyboardState, PowerState}
use bumbel_bee.Keyboard.{keyboard_buffer_put, keyboard_getchar}
use bumbel_bee.Keyboard.Fifo.{IsWord, unread, put_overrun}
use bumbel_bee.Power.{power_keyboard_char, mode_performance, power_net_batch_limit}
use bumbel_bee.Power.Keys.{
  IsValid, held_back, stream, keyboard_char_in_order, keyboard_char_overtakes,
}
use bumbel_bee.Net.{enqueue_rx_packet, flush_tx_queue, write_tx, new_packet}
use bumbel_bee.Net.Receive.{IsReceiver, received, latest, receive_keeps_latest, payloads}
use bumbel_bee.Net.Transmit.{IsSender, waiting}
use bumbel_bee.Net.Flush.{IsCounted, flush_tx_delivers}
use bumbel_bee.Net.Batches.{write_tx_batches}
use bumbel_bee.Tests.Sample.{booted, empty_keyboard}

-- The indices have wrapped around: two characters wait.
abbrev wrapped : KeyboardState
wrapped = record empty_keyboard { buffer = λ i. i; head = 1; tail = 2 ^ 32 - 1 }

wrapped-IsWord : IsWord wrapped
wrapped-IsWord = record { head = omega arith; tail = omega arith }

-- 256 characters wait.
abbrev full_keyboard : KeyboardState
full_keyboard = record empty_keyboard { buffer = λ i. i; head = 256 }

put_overrun_example : (keyboard_getchar (keyboard_buffer_put 65 full_keyboard)).0 ≡ some 65
put_overrun_example =
    put_overrun 65 full_keyboard (record { head = omega arith; tail = omega arith }) (omega arith)

-- One key stroke is held back, at the end of the queue.
abbrev held : PowerState
held = record (booted.power) { keyboard_q = λ i. i; keyboard_head = 255; keyboard_count = 1 }

held-IsValid : IsValid held
held-IsValid = record { head = omega arith; count = omega arith }

keyboard_char_in_order_example :
    let (p', kb') = power_keyboard_char 65 held wrapped in
    stream p' kb' ≡ stream held wrapped ++ (65 ∷ [])
keyboard_char_in_order_example =
    keyboard_char_in_order 65 held wrapped held-IsValid (λ e. omega (arith, e)) (omega arith)

-- the same queue after a change of the mode
abbrev fast : PowerState
fast = record held { mode = mode_performance }

keyboard_char_overtakes_example :
    let (p', kb') = power_keyboard_char 65 fast wrapped in
    stream p' kb' ≡ unread wrapped ++ (65 ∷ held_back fast)
keyboard_char_overtakes_example =
    keyboard_char_overtakes 65 fast wrapped wrapped-IsWord (omega arith) (inl refl)

booted-IsReceiver : IsReceiver booted.net
booted-IsReceiver = record { head = omega arith; count = omega arith }

receive_keeps_latest_example :
    received (enqueue_rx_packet (104 ∷ 105 ∷ []) 2 booted).net
    ≡ latest (received booted.net ++ (new_packet (104 ∷ 105 ∷ []) 2 booted ∷ []))
receive_keeps_latest_example = receive_keeps_latest (104 ∷ 105 ∷ []) 2 booted booted-IsReceiver

-- Two packets wait, the second at the start of the ring.
abbrev sending : Kernel
sending = record booted {
  net = record (booted.net) {
    tx_queue = λ i. record { packet_id = i; ticks = 0; len = 1; payload = 104 ∷ [] };
    tx_head = 31;
    tx_count = 2;
    tx_pending_bytes = 2;
  };
}

sending-IsSender : IsSender sending.net
sending-IsSender = record {
  head = omega arith;
  count = omega arith;
  packets = λ i. record { len = omega arith; payload = refl };
}

flush_tx_delivers_example :
    let k' = flush_tx_queue sending in
    (payloads (received k'.net)
      ≡ latest (payloads (received sending.net) ++ payloads (waiting sending.net)))
    × (waiting k'.net ≡ [])
    × IsCounted k'
flush_tx_delivers_example =
    flush_tx_delivers sending sending-IsSender (record { head = omega arith; count = omega arith })
      (λ e. omega (arith, e))

write_tx_batches_example :
    let (ok, k') = write_tx (104 ∷ 105 ∷ []) 2 sending in
    (ok ≡ true) × (k'.net.tx_count < power_net_batch_limit sending.power.mode) × IsCounted k'
write_tx_batches_example =
    write_tx_batches (104 ∷ 105 ∷ []) 2 sending sending-IsSender
      (record { head = omega arith; count = omega arith }) (λ e. omega (arith, e))
