-- ===== src/Mouse/Packets.antt =====
-- What three bytes from the mouse do.
use Prim.Native.Nat.{min}
use bumbel_bee.Base.{
  ℕ, ◌+◌, ◌-◌, ◌/◌, ◌%◌, ◌≤◌, ◌<◌, ◌≡◌, refl, true, Bool-cases, inl, inr, ◌==◌, ==_iff, ne→==,
  lt→ltb, ltb, ◌∙◌, ap, write, arith,
}
use bumbel_bee.Mouse.{MouseState, mouse_handle_data, add_clamped, sub_clamped, apply_packet}

-- The position is on the screen, and there is room for the next byte.
pub record IsOnScreen (s : MouseState) : Type 0 where
  pub x : s.x ≤ 79
  pub y : s.y ≤ 24
  pub room : s.packet_index < 3

add_clamped-min :
    (limit v byte : ℕ)
    → byte < 256
    → add_clamped limit v byte ≡ min limit (v + (byte + 128) % 256 - 128)
add_clamped-min limit v byte b = ground arith

sub_clamped-min :
    (limit v byte : ℕ)
    → byte < 256
    → sub_clamped limit v byte ≡ min limit (v + 128 - (byte + 128) % 256)
sub_clamped-min limit v byte b = ground arith

add_clamped_le : (limit v byte : ℕ) → add_clamped limit v byte ≤ limit
add_clamped_le limit v byte = ground arith

sub_clamped_le : (limit v byte : ℕ) → sub_clamped limit v byte ≤ limit
sub_clamped_le limit v byte = ground arith

apply_packet-IsOnScreen :
    (s : MouseState) → s.x ≤ 79 → s.y ≤ 24 → s.packet_index < 3 → IsOnScreen (apply_packet s)
apply_packet-IsOnScreen s x y r = elim (Bool-cases (s.packet 0 / 8 % 2 == 0)) [
  | inl bad ↦ rw bad (record { x = x; y = y; room = r })
  | inr ok ↦ rw ok (record {
    x = add_clamped_le 79 s.x (s.packet 1);
    y = sub_clamped_le 24 s.y (s.packet 2);
    room = r;
  })
]

-- A byte from the mouse keeps the position on the screen, and the index within the three bytes of
-- the packet, where they were so before.
mouse_handle_data-IsOnScreen :
    (byte : ℕ) (s : MouseState) → IsOnScreen s → IsOnScreen (mouse_handle_data byte s)
unfolding mouse_handle_data
mouse_handle_data-IsOnScreen byte s o = elim (Bool-cases s.present) [
  | inl there ↦ elim (Bool-cases (ltb (s.packet_index + 1) 3)) [
    | inl more ↦ rw (there, more) (record { x = o.x; y = o.y; room = ground arith })
    | inr whole ↦
        rw (there, whole)
          (apply_packet-IsOnScreen
            (record s {
              present = true;
              packet = write s.packet s.packet_index byte;
              packet_index = 0;
            })
            o.x o.y (omega arith))
  ]
  | inr gone ↦ rw gone (record { x = o.x; y = o.y; room = o.room })
]

pub bytes_in : ℕ → ℕ → ℕ → MouseState → MouseState
bytes_in a b c s = mouse_handle_data c (mouse_handle_data b (mouse_handle_data a s))

not_last :
    (byte i : ℕ) (s : MouseState)
    → s.present ≡ true
    → s.packet_index ≡ i
    → i < 2
    → mouse_handle_data byte s ≡ record s { packet = write s.packet i byte; packet_index = i + 1 }
unfolding mouse_handle_data
not_last byte i s there at lt = rw (there, at, lt→ltb (i + 1) 3 (omega arith)) refl

last_one :
    (byte : ℕ) (s : MouseState)
    → s.present ≡ true
    → s.packet_index ≡ 2
    → mouse_handle_data byte s
      ≡ apply_packet (record s { packet = write s.packet 2 byte; packet_index = 0 })
unfolding mouse_handle_data
last_one byte s there at = rw (there, at) refl

-- the state with the bytes of a whole packet
abbrev filled : ℕ → ℕ → ℕ → MouseState → MouseState
filled a b c s = record s { packet = write (write (write s.packet 0 a) 1 b) 2 c; packet_index = 0 }

bytes_in-filled :
    (a b c : ℕ) (s : MouseState)
    → s.present ≡ true
    → s.packet_index ≡ 0
    → bytes_in a b c s ≡ apply_packet (filled a b c s)
unfolding bytes_in
bytes_in-filled a b c s there start =
    let s1 : MouseState = record s { packet = write s.packet 0 a; packet_index = 1 } in
    let s2 : MouseState = record s { packet = write s1.packet 1 b; packet_index = 2 } in
    ap (λ s. mouse_handle_data c (mouse_handle_data b s)) (not_last a 0 s there start (omega arith))
    ∙ ap (mouse_handle_data c) (not_last b 1 s1 there refl (omega arith))
    ∙ last_one c s2 there refl

apply_packet-index : (s : MouseState) → (apply_packet s).packet_index ≡ s.packet_index
apply_packet-index s = elim (Bool-cases (s.packet 0 / 8 % 2 == 0)) [
  | inl bad ↦ rw bad refl
  | inr ok ↦ rw ok refl
]

-- Three bytes, the last two below 256, from the start of a packet on, from a mouse that is there.
-- If bit 3 of the first is set, the buttons are its low three bits, and the position moves by the
-- two signed bytes, right and up, as far as the edges of the screen; if it is not set, buttons and
-- position stay. Either way the next byte starts a packet.
pub three_bytes_decode :
    (a b c : ℕ) (s : MouseState)
    → b < 256
    → c < 256
    → s.present ≡ true
    → s.packet_index ≡ 0
    → let s' = bytes_in a b c s in
      (s'.packet_index ≡ 0)
      × (a / 8 % 2 ≡ 1
          → (s'.buttons ≡ a % 8)
            × (s'.x ≡ min 79 (s.x + (b + 128) % 256 - 128))
            × (s'.y ≡ min 24 (s.y + 128 - (c + 128) % 256)))
      × (a / 8 % 2 ≡ 0 → (s'.buttons ≡ s.buttons) × (s'.x ≡ s.x) × (s'.y ≡ s.y))
three_bytes_decode a b c s small_b small_c there start = rw (bytes_in-filled a b c s there start) (
  apply_packet-index (filled a b c s),
  λ sync.
      rw (ne→== (a / 8 % 2) 0 (λ z. omega arith))
        (refl, add_clamped-min 79 s.x b small_b, sub_clamped-min 24 s.y c small_c),
  λ off. rw ((==_iff (a / 8 % 2) 0).1 off) (refl, refl, refl),
)
