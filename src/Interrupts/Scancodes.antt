-- ===== src/Interrupts/Scancodes.antt =====
-- What a scan code types.
use bumbel_bee.Base.{
  ℕ, ◌%◌, ◌<◌, ◌≡◌, ◌≢◌, ◌∙◌, sym, ap, Bool, false, ◌&&◌, ◌||◌, Bool-cases, inl, inr, List, [], ◌∷◌,
  ◌++◌, append-nil, leb, ◌==◌, ne→==, if◌then◌else◌,
}
use native.Mathlib.Decide.{ℕ_discrete}
use bumbel_bee.Data.{Kernel, KeyboardState, PowerState, trace_event_keyboard}
use bumbel_bee.Trace.Frame.{trace_record-Framed}
use bumbel_bee.Power.{mode_performance, power_keyboard_qcap}
use bumbel_bee.Power.Keys.{IsValid, stream, keyboard_char_in_order}
use bumbel_bee.Interrupts.{
  keyboard_handle_scancode, keyboard_trace_char, handle_key, type_char, set_keyboard, scrolls,
  key_entry, normal_map, shift_map,
}

-- the character of a key that is pressed
abbrev key_char : ℕ → KeyboardState → List ℕ
key_char key kb =
    let shifted = kb.left_shift || kb.right_shift in
    let ch = key_entry (if shifted then shift_map else normal_map) key in
    if key == 0x2a || key == 0x36 || ch == 0 then [] else ch ∷ []

-- What a scan code types: nothing for the prefix byte, for a key that is released, for a key that
-- scrolls after the prefix, for the shift keys, and for a key without a character in the map that
-- is chosen by the shift keys; else that character.
abbrev pub typed : ℕ → KeyboardState → List ℕ
typed scancode kb =
    let scrolled = kb.extended_prefix && scrolls (scancode % 128) in
    if leb 128 scancode || scrolled then [] else key_char (scancode % 128) kb

-- Key strokes are held back in order: the mode is not the performance mode, and the queue has room.
pub record IsOrderly (p : PowerState) : Type 0 where
  pub valid : IsValid p
  pub slow : p.mode ≢ mode_performance
  pub room : p.keyboard_count < power_keyboard_qcap

abbrev pub all_typed : Kernel → List ℕ
all_typed k = stream k.power k.keyboard

type_char-all_typed :
    (ch scancode : ℕ) (k : Kernel)
    → IsOrderly k.power
    → all_typed (type_char ch scancode k) ≡ all_typed k ++ (ch ∷ [])
unfolding keyboard_trace_char
type_char-all_typed ch scancode k o =
    let f = trace_record-Framed trace_event_keyboard 0 ch scancode k in
    rw (f.power, f.keyboard) (keyboard_char_in_order ch k.power k.keyboard o.valid o.slow o.room)

handle_key-all_typed :
    (scancode : ℕ) (k : Kernel)
    → IsOrderly k.power
    → all_typed (handle_key scancode k)
      ≡ all_typed k ++ (if leb 128 scancode then [] else key_char (scancode % 128) k.keyboard)
unfolding handle_key
handle_key-all_typed scancode k o = elim (Bool-cases (key == 0x2a)) [
  | inl left ↦ elim (Bool-cases (leb 128 scancode)) [
    | inl released ↦ rw (left, released) nothing
    | inr pressed ↦ rw (left, pressed) nothing
  ]
  | inr not_left ↦ elim (Bool-cases (key == 0x36)) [
    | inl right ↦ elim (Bool-cases (leb 128 scancode)) [
      | inl released ↦ rw (not_left, right, released) nothing
      | inr pressed ↦ rw (not_left, right, pressed) nothing
    ]
    | inr not_right ↦ elim (Bool-cases (leb 128 scancode)) [
      | inl released ↦ rw (not_left, not_right, released) nothing
      | inr pressed ↦ elim (Bool-cases (ch == 0)) [
        | inl no_char ↦ rw (not_left, not_right, pressed, no_char) nothing
        | inr char ↦ rw (not_left, not_right, pressed, char) (type_char-all_typed ch scancode k o)
      ]
    ]
  ]
]
  where
    key : ℕ
    key = scancode % 128

    ch : ℕ
    ch =
        key_entry
          (if k.keyboard.left_shift || k.keyboard.right_shift then shift_map else normal_map) key

    nothing : all_typed k ≡ all_typed k ++ []
    nothing = sym (append-nil (all_typed k))

-- Where key strokes are held back in order (not in the performance mode, with the queue's indices
-- in range and room in it), a scan code adds to what was typed and not yet read exactly what it
-- types, at the end.
pub scancode_types :
    (scancode : ℕ) (k : Kernel)
    → IsOrderly k.power
    → all_typed (keyboard_handle_scancode scancode k) ≡ all_typed k ++ typed scancode k.keyboard
unfolding keyboard_handle_scancode
scancode_types scancode k o = elim (ℕ_discrete scancode 0xe0) [
  | yes prefix ↦ rw (prefix) nothing
  | no other ↦ elim (Bool-cases k.keyboard.extended_prefix) [
    | inl prefixed ↦ elim (Bool-cases (leb 128 scancode)) [
      | inl released ↦
          rw (ne→== scancode 0xe0 other, prefixed, released) (after unprefixed o released)
      | inr pressed ↦ elim (Bool-cases (scrolls (scancode % 128))) [
        | inl scroll ↦ rw (ne→== scancode 0xe0 other, prefixed, pressed, scroll) nothing
        | inr key ↦
            rw (ne→== scancode 0xe0 other, prefixed, pressed, key) (after unprefixed o pressed)
      ]
    ]
    | inr plain ↦ elim (Bool-cases (leb 128 scancode)) [
      | inl released ↦ rw (ne→== scancode 0xe0 other, plain, released) (after unprefixed o released)
      | inr pressed ↦ rw (ne→== scancode 0xe0 other, plain, pressed) (after unprefixed o pressed)
    ]
  ]
]
  where
    nothing : all_typed k ≡ all_typed k ++ []
    nothing = sym (append-nil (all_typed k))

    unprefixed : Kernel
    unprefixed = set_keyboard (record (k.keyboard) { extended_prefix = false }) k

    after :
        (k : Kernel) {b : Bool}
        → IsOrderly k.power
        → leb 128 scancode ≡ b
        → all_typed (handle_key scancode k)
          ≡ all_typed k ++ (if b then [] else key_char (scancode % 128) k.keyboard)
    after k o e =
        handle_key-all_typed scancode k o
        ∙ ap (λ b. all_typed k ++ (if b then [] else key_char (scancode % 128) k.keyboard)) e
