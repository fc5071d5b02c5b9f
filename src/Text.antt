-- ===== src/Text.antt =====
-- The routines that build text in a buffer, which kernel/vfs.c and kernel/netfs.c both have: a
-- character that does not fit is dropped, and the position moves on all the same.
use bumbel_bee.Base.{
  ℕ, zero, suc, ◌+◌, ◌/◌, ◌%◌, List, [], ◌∷◌, Array, ◌==◌, ltb, if◌then◌else◌, u32, write,
}

-- `buf` and `pos`
pub record Out : Type 0 where
  pub buf : Array ℕ
  pub pos : ℕ

unfoldable pub append_char : ℕ → ℕ → Out → Out
append_char cap c o =
    let next = u32 (o.pos + 1) in
    let buf = if ltb next cap then write (write o.buf o.pos c) next 0 else o.buf in
    record { buf = buf; pos = next }

unfoldable pub append_str : ℕ → List ℕ → Out → Out
unfolding append_char
append_str cap [] o = o
append_str cap (c ∷ cs) o = append_str cap cs (append_char cap c o)

-- The loop that fills `tmp`, with room for `room` more digits; the last one in comes first.
unfoldable pub stack_digits : ℕ → ℕ → List ℕ → List ℕ
stack_digits zero value tmp = tmp
stack_digits (suc room) value tmp =
    let rest = stack_digits room (value / 10) ((48 + value % 10) ∷ tmp) in
    if value == 0 then tmp else rest

unfoldable pub append_u64 : ℕ → ℕ → Out → Out
unfolding append_char append_str stack_digits
append_u64 cap value o =
    if value == 0 then append_char cap 48 o else append_str cap (stack_digits 32 value []) o

-- One call of the three routines, and a sequence of them.
pub data Piece : Type 0 where
  text : List ℕ → Piece
  number : ℕ → Piece
  char : ℕ → Piece

unfoldable pub append_piece : ℕ → Piece → Out → Out
unfolding append_char append_str append_u64
append_piece cap (text s) o = append_str cap s o
append_piece cap (number value) o = append_u64 cap value o
append_piece cap (char c) o = append_char cap c o

unfoldable pub append_all : ℕ → List Piece → Out → Out
unfolding append_piece
append_all cap [] o = o
append_all cap (p ∷ ps) o = append_all cap ps (append_piece cap p o)
