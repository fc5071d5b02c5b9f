-- ===== src/Mouse.antt =====
-- kernel/mouse.c: the decoder of the mouse's packets. Setting the device up is port I/O and is not
-- modelled. The position is signed in the code, and clamped after each change, so that it is a
-- natural number between the calls.
pub mod Packets
use bumbel_bee.Base.{
  ℕ, ◌+◌, ◌-◌, ◌/◌, ◌%◌, Bool, true, false, not, Array, write, ◌==◌, ltb, leb, if◌then◌else◌, u64,
}

-- struct mouse_state, with `packet` and `packet_index`
pub record MouseState : Type 0 where
  pub present : Bool
  pub x : ℕ
  pub y : ℕ
  pub buttons : ℕ
  pub packets : ℕ
  pub packet : Array ℕ
  pub packet_index : ℕ

-- v += (s8)byte, then clamped to 0 and `limit`
abbrev pub add_clamped : ℕ → ℕ → ℕ → ℕ
add_clamped limit v byte =
    if ltb byte 128
    then (if ltb limit (v + byte) then limit else v + byte)
    else (let back = 256 - byte in
        if ltb v back then 0 else (if ltb limit (v - back) then limit else v - back))

-- v -= (s8)byte, then clamped to 0 and `limit`
abbrev pub sub_clamped : ℕ → ℕ → ℕ → ℕ
sub_clamped limit v byte =
    if ltb byte 128
    then (if ltb v byte then 0 else (if ltb limit (v - byte) then limit else v - byte))
    else (let ahead = 256 - byte in if ltb limit (v + ahead) then limit else v + ahead)

-- what a whole packet does
abbrev pub apply_packet : MouseState → MouseState
apply_packet s = if s.packet 0 / 8 % 2 == 0 then s else record s {
  buttons = s.packet 0 % 8;
  x = add_clamped 79 s.x (s.packet 1);
  y = sub_clamped 24 s.y (s.packet 2);
  packets = u64 (s.packets + 1);
}

unfoldable pub mouse_handle_data : ℕ → MouseState → MouseState
mouse_handle_data byte s =
    let index = s.packet_index + 1 in
    let stored = record s { packet = write s.packet s.packet_index byte; packet_index = index } in
    if not s.present
    then s
    else (if ltb index 3 then stored else apply_packet (record stored { packet_index = 0 }))
