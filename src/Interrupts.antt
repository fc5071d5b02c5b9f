-- ===== src/Interrupts.antt =====
-- The handlers of kernel/interrupts.c that act on several parts: the tick of the power manager
-- (`power_tick_hook` of kernel/power.c) and the scan codes of kernel/keyboard.c. A scan code is a
-- byte. Scrolling the console changes none of the modelled state.
pub mod Ticks
pub mod Scancodes
pub mod Dispatch
pub mod Lines
use bumbel_bee.Base.{
  ℕ, zero, suc, ◌+◌, ◌/◌, ◌%◌, Bool, true, false, not, ◌&&◌, ◌||◌, List, [], ◌∷◌, ◌++◌, ◌==◌, leb,
  if◌then◌else◌, u32, codes,
}
use bumbel_bee.Data.{Kernel, KeyboardState, PowerState, trace_event_keyboard}
use bumbel_bee.Trace.{trace_record}
use bumbel_bee.Power.{keyboard_flush_now, power_keyboard_flush_interval, power_keyboard_char}
use bumbel_bee.Net.{netfs_power_tick}

-- the kernel when the key strokes are flushed
abbrev pub flush_keys : Kernel → Kernel
flush_keys k =
    let (power, keyboard) = keyboard_flush_now k.power k.keyboard in
    record k { power = power; keyboard = keyboard }

abbrev pub set_ticks : ℕ → Kernel → Kernel
set_ticks ticks k = record k { power = record (k.power) { ticks_since_flush = ticks } }

unfoldable pub power_tick_hook : Kernel → Kernel
power_tick_hook k =
    let ticks = u32 (k.power.ticks_since_flush + 1) in
    if leb (power_keyboard_flush_interval k.power.mode) ticks
    then set_ticks 0 (netfs_power_tick (flush_keys (set_ticks ticks k)))
    else set_ticks ticks k

-- the entry of a map, 0 beyond those that are given
abbrev pub key_entry : List ℕ → ℕ → ℕ
key_entry [] key = 0
key_entry (c ∷ cs) zero = c
key_entry (c ∷ cs) (suc key) = key_entry cs key

-- The maps from key 0 on. A key without a character has the entry 0; 8, 9 and 10 are '\b', '\t' and
-- '\n'.
abbrev pub normal_map : List ℕ
normal_map =
    0 ∷ 0 ∷ codes "1234567890-="
    ++ 8 ∷ 9 ∷ codes "qwertyuiop[]"
    ++ 10 ∷ 0 ∷ codes "asdfghjkl;'`"
    ++ 0 ∷ codes "\\zxcvbnm,./"
    ++ 0 ∷ 0 ∷ 0 ∷ codes " "

abbrev pub shift_map : List ℕ
shift_map =
    0 ∷ 0 ∷ codes "!@#$%^&*()_+"
    ++ 8 ∷ 9 ∷ codes "QWERTYUIOP{}"
    ++ 10 ∷ 0 ∷ codes "ASDFGHJKL:\"~"
    ++ 0 ∷ codes "|ZXCVBNM<>?"
    ++ 0 ∷ 0 ∷ 0 ∷ codes " "

abbrev pub set_keyboard : KeyboardState → Kernel → Kernel
set_keyboard keyboard k = record k { keyboard = keyboard }

-- `keyboard_trace_char`
unfoldable pub keyboard_trace_char : ℕ → ℕ → Kernel → Kernel
keyboard_trace_char ch scancode k = trace_record trace_event_keyboard 0 ch scancode k

-- the end of `keyboard_handle_scancode`: a character is recorded and goes to the power manager
abbrev pub type_char : ℕ → ℕ → Kernel → Kernel
type_char ch scancode k =
    let traced = keyboard_trace_char ch scancode k in
    let (power, keyboard) = power_keyboard_char ch traced.power traced.keyboard in
    record traced { power = power; keyboard = keyboard }

-- the part of `keyboard_handle_scancode` behind the keys that scroll
unfoldable pub handle_key : ℕ → Kernel → Kernel
handle_key scancode k =
    let released = leb 128 scancode in
    let key = scancode % 128 in
    let shifted = k.keyboard.left_shift || k.keyboard.right_shift in
    let ch = key_entry (if shifted then shift_map else normal_map) key in
    if key == 0x2a
    then set_keyboard (record (k.keyboard) { left_shift = not released }) k
    else (if key == 0x36
        then set_keyboard (record (k.keyboard) { right_shift = not released }) k
        else (if released then k else (if ch == 0 then k else type_char ch scancode k)))

-- the keys that scroll the console
abbrev pub scrolls : ℕ → Bool
scrolls key = key == 0x49 || key == 0x51 || key == 0x47 || key == 0x4f

unfoldable pub keyboard_handle_scancode : ℕ → Kernel → Kernel
keyboard_handle_scancode scancode k =
    let unprefixed = set_keyboard (record (k.keyboard) { extended_prefix = false }) k in
    if scancode == 0xe0
    then set_keyboard (record (k.keyboard) { extended_prefix = true }) k
    else (if k.keyboard.extended_prefix
        then (if not (leb 128 scancode) && scrolls (scancode % 128)
            then unprefixed
            else handle_key scancode unprefixed)
        else handle_key scancode k)
