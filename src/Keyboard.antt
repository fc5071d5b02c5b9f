-- ===== src/Keyboard.antt =====
-- kernel/keyboard.c: the input ring that the shell reads. Its indices run freely over 32 bits.
-- The handler of scan codes stands in Interrupts, above the power manager that it feeds.
pub mod Fifo
use bumbel_bee.Base.{
  ℕ, zero, suc, ◌+◌, ◌%◌, Bool, true, false, Option, none, some, List, [], ◌∷◌, write, ◌==◌,
  if◌then◌else◌, u32,
}
use bumbel_bee.Data.{KeyboardState}

abbrev pub buffer_size : ℕ
buffer_size = 256

unfoldable pub keyboard_init : KeyboardState → KeyboardState
keyboard_init kb = record kb {
  head = 0;
  tail = 0;
  left_shift = false;
  right_shift = false;
  extended_prefix = false;
}

-- `none` is -1.
unfoldable pub keyboard_getchar : KeyboardState → Option ℕ × KeyboardState
keyboard_getchar kb =
    if kb.head == kb.tail
    then (none, kb)
    else (some (kb.buffer (kb.tail % buffer_size)), record kb { tail = u32 (kb.tail + 1) })

unfoldable pub keyboard_buffer_put : ℕ → KeyboardState → KeyboardState
keyboard_buffer_put ch kb = record kb {
  buffer = write kb.buffer (kb.head % buffer_size) ch;
  head = u32 (kb.head + 1);
}
