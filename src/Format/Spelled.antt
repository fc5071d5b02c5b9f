-- ===== src/Format/Spelled.antt =====
-- Numbers as kernel/fmt.c is to print them, whatever way it finds the digits.
use native.Mathlib.Decide.{ℕ_discrete}
use bumbel_bee.Base.{
  ℕ, zero, suc, ◌+◌, ◌-◌, ◌/◌, ◌%◌, ◌^◌, ◌<◌, ◌≤◌, ◌≡◌, ◌≢◌, refl, sym, ◌∙◌, ap, List, [], ◌∷◌,
  ◌++◌, append-nil, append_assoc, ◌==◌, ne→==, ltb, leb, le→leb, lt→leb, Bool-cases, inl, inr,
  if◌then◌else◌, sub64, arith,
}
use bumbel_bee.Format.{buf_digits, widened, emit_string, emit_unsigned, emit_signed}
use bumbel_bee.Format.Numerals.{
  IsBase, decimal, hexadecimal, digit_of, agree-at, div_below, mod_small, no_digits,
  buf_digits_none, fits, fits_fuel,
}

-- the character of a digit: 0 to 9, then a to f
abbrev pub digit : ℕ → ℕ
digit d = if ltb d 10 then b'0' + d else b'a' + d - 10

-- A number in a base, of `n` digits at most: the digits of the quotient, and behind them that of
-- the remainder.
unfoldable pub numeral : ℕ → ℕ → ℕ → List ℕ
numeral zero base v = []
numeral (suc n) base v =
    let front = numeral n base (v / base) in
    if v / base == 0 then digit (v % base) ∷ [] else front ++ (digit (v % base) ∷ [])

-- 20 digits are enough for 64 bits.
abbrev pub number : ℕ → ℕ → List ℕ
number base v = numeral 20 base v

-- A number with a sign, in the two's complement of a word whose half is given.
abbrev pub signed_number : ℕ → ℕ → List ℕ
signed_number half v = if leb half v then b'-' ∷ number 10 (half + half - v) else number 10 v

digit_of_lem : (d : ℕ) → d < 16 → digit_of d ≡ digit d
digit_of_lem d h = agree-at digit_of digit 16 d refl h

buf_digits-numeral :
    {base : ℕ} (is : IsBase base) (m n v : ℕ) (buf : List ℕ)
    → v < base ^ m
    → v < base ^ n
    → v ≢ 0
    → buf_digits m v base buf ≡ numeral n base v ++ buf
unfolding buf_digits numeral
buf_digits-numeral is zero n v buf low high ne = absurd (ne (no_digits is v low))
buf_digits-numeral is (suc m) zero v buf low high ne = absurd (ne (no_digits is v high))
buf_digits-numeral {base} is (suc m) (suc n) v buf low high ne =
    let d = digit (v % base) in
    rw (ne→== v 0 ne, digit_of_lem (v % base) (mod_small is v))
      (elim (ℕ_discrete (v / base) 0) [
        | yes last ↦ rw (last, buf_digits_none m base (d ∷ buf)) refl
        | no more ↦ rw (ne→== (v / base) 0 more) (
            buf_digits-numeral is m n (v / base) (d ∷ buf) (div_below is m v low)
              (div_below is n v high) more
            ∙ sym (append_assoc (numeral n base (v / base)) (d ∷ []) buf))
      ])

zero_numeral : {base : ℕ} → IsBase base → (n : ℕ) → numeral (suc n) base 0 ≡ b'0' ∷ []
unfolding numeral
zero_numeral decimal n = refl
zero_numeral hexadecimal n = refl

module _ {ℓ} {C : Type ℓ} (emit : ℕ → C → C) where
  pub emit_unsigned-number :
      {base : ℕ} (is : IsBase base) (v : ℕ) (ctx : C)
      → v < 2 ^ 64
      → emit_unsigned emit v base ctx ≡ emit_string emit (number base v) ctx
  unfolding emit_unsigned emit_string
  emit_unsigned-number {base} is v ctx h = elim (ℕ_discrete v 0) [
    | yes e ↦ rw e (ap (λ s. emit_string emit s ctx) (sym (zero_numeral is 19)))
    | no ne ↦ rw (ne→== v 0 ne) (
        ap (λ s. emit_string emit s ctx)
          (buf_digits-numeral is 64 20 v [] (fits_fuel is v h) (fits is v h) ne
            ∙ append-nil (number base v)))
  ]

  emit_signed-given :
      (v w : ℕ) (ctx : C)
      → 2 ^ 63 ≤ v
      → w < 2 ^ 64
      → sub64 0 v ≡ w
      → emit_signed emit v ctx ≡ emit_string emit (b'-' ∷ number 10 w) ctx
  unfolding emit_signed emit_string
  emit_signed-given v w ctx minus small e = rw (le→leb (2 ^ 63) v minus) (
      ap (λ n. emit_unsigned emit n 10 (emit b'-' ctx)) e
      ∙ emit_unsigned-number decimal w (emit b'-' ctx) small)

  emit_signed-plus :
      (v : ℕ) (ctx : C) → v < 2 ^ 63 → emit_signed emit v ctx ≡ emit_string emit (number 10 v) ctx
  unfolding emit_signed
  emit_signed-plus v ctx plus =
      rw (lt→leb v (2 ^ 63) plus) (emit_unsigned-number decimal v ctx (omega arith))

  pub emit_signed-long :
      (v : ℕ) (ctx : C)
      → v < 2 ^ 64
      → emit_signed emit v ctx ≡ emit_string emit (signed_number (2 ^ 63) v) ctx
  emit_signed-long v ctx h = elim (Bool-cases (leb (2 ^ 63) v)) [
    | inl minus ↦
        rw minus (
          emit_signed-given v (2 ^ 63 + 2 ^ 63 - v) ctx (ground arith) (ground arith)
            (ground arith))
    | inr plus ↦ rw plus (emit_signed-plus v ctx (ground arith))
  ]

  pub emit_signed-widened :
      (v : ℕ) (ctx : C)
      → v < 2 ^ 32
      → emit_signed emit (widened v) ctx ≡ emit_string emit (signed_number (2 ^ 31) v) ctx
  emit_signed-widened v ctx h = elim (Bool-cases (leb (2 ^ 31) v)) [
    | inl minus ↦ rw minus (
        emit_signed-given (v + 0xffffffff00000000) (2 ^ 31 + 2 ^ 31 - v) ctx (ground arith)
          (ground arith) (ground arith))
    | inr plus ↦ rw plus (emit_signed-plus v ctx (ground arith))
  ]
