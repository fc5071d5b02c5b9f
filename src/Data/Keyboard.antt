-- ===== src/Data/Keyboard.antt =====
-- The state of kernel/keyboard.c: the input ring with its free-running indices, and the modifiers.
use Prim.Native.Nat.{ℕ}
use mathlib.Core.Bool.{Bool}
use bumbel_bee.Base.{Array}

pub record KeyboardState : Type 0 where
  pub buffer : Array ℕ
  pub head : ℕ
  pub tail : ℕ
  pub left_shift : Bool
  pub right_shift : Bool
  pub extended_prefix : Bool
