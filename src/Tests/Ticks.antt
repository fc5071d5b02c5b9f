-- ===== src/Tests/Ticks.antt =====
-- The theorems on ticks and scan codes, applied to a kernel that holds one key stroke back.
use bumbel_bee.Base.{ℕ, ◌≤◌, ◌≡◌, ◌++◌, [], ◌∷◌, refl, arith}
use bumbel_bee.Data.{Kernel}
use bumbel_bee.Power.{power_keyboard_flush_interval}
use bumbel_bee.Interrupts.{keyboard_handle_scancode}
use bumbel_bee.Interrupts.Ticks.{IsSettled, Delivered, ticks_from, ticks_deliver}
use bumbel_bee.Interrupts.Scancodes.{IsOrderly, all_typed, typed, scancode_types}
use bumbel_bee.Tests.Sample.{booted}

-- one key stroke is held back
abbrev holding : Kernel
holding = record booted {
  power = record (booted.power) { keyboard_q = λ i. 97; keyboard_count = 1 };
}

holding-IsSettled : IsSettled holding
holding-IsSettled = record {
  power = record { head = omega arith; count = omega arith };
  word = record { head = omega arith; tail = omega arith };
  room = omega arith;
  tx_head = omega arith;
  receiver = record { head = omega arith; count = omega arith };
}

ticks_deliver_example :
    (n : ℕ) × (n ≤ power_keyboard_flush_interval holding.power.mode)
    × Delivered holding (ticks_from n holding)
ticks_deliver_example = ticks_deliver holding holding-IsSettled (omega arith)

holding-IsOrderly : IsOrderly holding.power
holding-IsOrderly = record {
  valid = record { head = omega arith; count = omega arith };
  slow = λ e. omega (arith, e);
  room = omega arith;
}

-- the key 'a'
scancode_types_example :
    all_typed (keyboard_handle_scancode 0x1e holding)
    ≡ all_typed holding ++ typed 0x1e holding.keyboard
scancode_types_example = scancode_types 0x1e holding holding-IsOrderly

typed_a : typed 0x1e holding.keyboard ≡ 97 ∷ []
typed_a = refl
