-- ===== src/Tests/Pointer.antt =====
-- The mouse's theorems, applied to a move at the right edge of the screen.
use Prim.Native.Nat.{min}
use bumbel_bee.Base.{◌+◌, ◌-◌, ◌/◌, ◌%◌, ◌≡◌, refl, true, arith}
use bumbel_bee.Mouse.{MouseState}
use bumbel_bee.Mouse.Packets.{bytes_in, three_bytes_decode}

abbrev at_edge : MouseState
at_edge = record {
  present = true;
  x = 78;
  y = 12;
  buttons = 0;
  packets = 0;
  packet = λ i. 0;
  packet_index = 0;
}

-- the left button, five to the right, two up
three_bytes_decode_example :
    let s' = bytes_in 9 5 2 at_edge in
    (s'.packet_index ≡ 0)
    × (9 / 8 % 2 ≡ 1
        → (s'.buttons ≡ 9 % 8)
          × (s'.x ≡ min 79 (78 + (5 + 128) % 256 - 128))
          × (s'.y ≡ min 24 (12 + 128 - (2 + 128) % 256)))
    × (9 / 8 % 2 ≡ 0 → (s'.buttons ≡ 0) × (s'.x ≡ 78) × (s'.y ≡ 12))
three_bytes_decode_example = three_bytes_decode 9 5 2 at_edge (omega arith) (omega arith) refl refl
