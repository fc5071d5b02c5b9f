-- ===== src/Format.antt =====
-- kernel/fmt.c: formatted printing. The sink is the callback with its context, and a byte goes
-- through it at a time. Reading the arguments is the compiler's, and a parameter.
pub mod Numerals
pub mod Spelled
pub mod Printed
use bumbel_bee.Base.{
  ℕ, zero, suc, ◌+◌, ◌*◌, ◌/◌, ◌%◌, ◌^◌, Bool, Option, none, some, List, [], ◌∷◌, ◌==◌, leb,
  if◌then◌else◌, get_or, sub64, codes,
}

-- `va_arg` at the types that the formatter reads: a string, a number of 32 bits, and one of 64.
pub record VaArgs {ℓ} (V : Type ℓ) : Type ℓ where
  pub string : V → List ℕ × V
  pub word32 : V → ℕ × V
  pub word64 : V → ℕ × V

-- The loop that fills `buf`, for values below 2^n; the last digit in comes first.
unfoldable pub buf_digits : ℕ → ℕ → ℕ → List ℕ → List ℕ
buf_digits zero value base buf = buf
buf_digits (suc n) value base buf =
    let digit = get_or (codes "0123456789abcdef") (value % base) 0 in
    let rest = buf_digits n (value / base) base (digit ∷ buf) in if value == 0 then buf else rest

-- the bits of a 32-bit number as 64 bits, with its sign
abbrev pub widened : ℕ → ℕ
widened bits = if leb (2 ^ 31) bits then bits + 0xffffffff00000000 else bits

-- Where the loop is: at a plain character, after a `%`, or after a `%l`.
pub data Place : Type 0 where
  plain percent long : Place

unfoldable pub ended {ℓ} : {A : Type ℓ} → Place → A → Option A
ended plain a = some a
ended percent a = none
ended long a = none

module _ {ℓ} {C : Type ℓ} (emit : ℕ → C → C) where
  -- also the loop that empties `buf`
  unfoldable pub emit_string : List ℕ → C → C
  emit_string [] ctx = ctx
  emit_string (c ∷ s) ctx = emit_string s (emit c ctx)

  unfoldable pub emit_unsigned : ℕ → ℕ → C → C
  unfolding emit_string
  emit_unsigned value base ctx =
      if value == 0 then emit b'0' ctx else emit_string (buf_digits 64 value base []) ctx

  -- The value is given by its 64 bits.
  unfoldable pub emit_signed : ℕ → C → C
  unfolding emit_unsigned
  emit_signed value ctx =
      if leb (2 ^ 63) value
      then emit_unsigned (sub64 0 value) 10 (emit b'-' ctx)
      else emit_unsigned value 10 ctx

module _ {ℓ κ} {C : Type ℓ} {V : Type κ} (args : VaArgs V) (emit : ℕ → C → C) where
  open args use {string, word32, word64}

  unfoldable pub emit_directive : ℕ → C × V → C × V
  unfolding emit_string emit_unsigned emit_signed
  emit_directive c (ctx, ap) =
      let (s, after_string) = string ap in
      let (n, after_word) = word32 ap in
      if c == b's'
      then (emit_string emit s ctx, after_string)
      else (if c == b'c'
          then (emit (n % 2 ^ 8) ctx, after_word)
          else (if c == b'u'
              then (emit_unsigned emit n 10 ctx, after_word)
              else (if c == b'd'
                  then (emit_signed emit (widened n) ctx, after_word)
                  else (if c == b'x'
                      then (emit_unsigned emit n 16 ctx, after_word)
                      else (if c == b'%' then (emit b'%' ctx, ap) else (emit b'?' ctx, ap))))))

  unfoldable pub emit_long : ℕ → C × V → C × V
  unfolding emit_unsigned emit_signed
  emit_long c (ctx, ap) =
      let (n, after) = word64 ap in
      if c == b'u'
      then (emit_unsigned emit n 10 ctx, after)
      else (if c == b'd'
          then (emit_signed emit n ctx, after)
          else (if c == b'x' then (emit_unsigned emit n 16 ctx, after) else (ctx, ap)))

  -- One character of the format.
  unfoldable pub format_char : Place → ℕ → C × V → Place × C × V
  unfolding emit_directive emit_long
  format_char plain c (ctx, ap) = if c == b'%' then (percent, ctx, ap) else (plain, emit c ctx, ap)
  format_char percent c (ctx, ap) =
      let (printed, left) = emit_directive c (ctx, ap) in
      if c == b'l' then (long, ctx, ap) else (plain, printed, left)
  format_char long c (ctx, ap) =
      let (printed, left) = emit_long c (ctx, ap) in (plain, printed, left)

  -- `none` where the format ends after a `%` or a `%l`: the code then reads on past the terminator.
  unfoldable pub format_from : Place → List ℕ → C × V → Option (C × V)
  unfolding format_char ended
  format_from p [] st = ended p st
  format_from p (c ∷ fmt) st =
      let (p', ctx, ap) = format_char p c st in format_from p' fmt (ctx, ap)

  unfoldable pub fmt_vprintf : C → List ℕ → V → Option (C × V)
  unfolding format_from
  fmt_vprintf ctx fmt ap = format_from plain fmt (ctx, ap)
