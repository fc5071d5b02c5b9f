-- ===== src/Format/Numerals.antt =====
-- The numbers that kernel/fmt.c prints: what `emit_unsigned` sends through its sink.
use mathlib.Core.Path.{subst}
use native.Mathlib.Nat.{pow-suc}
use native.Mathlib.Decide.{ℕ_discrete}
use bumbel_bee.Base.{
  ℕ, zero, suc, ◌+◌, ◌-◌, ◌*◌, ◌/◌, ◌%◌, ◌^◌, ◌<◌, ◌≤◌, ◌≡◌, ◌≢◌, refl, sym, ◌∙◌, ap, append-nil,
  append_assoc, Bool, true, ◌&&◌, ==_iff, List, [], ◌∷◌, ◌++◌, ◌==◌, ltb, if◌then◌else◌, ne→==,
  length, get_or, codes, arith,
}
use bumbel_bee.Format.{buf_digits, emit_string, emit_unsigned}

-- a sink that keeps what it gets
abbrev pub kept : ℕ → List ℕ → List ℕ
kept c s = s ++ (c ∷ [])

-- the bases of the formatter
pub data IsBase : ℕ → Type 0 where
  decimal : IsBase 10
  hexadecimal : IsBase 16

abbrev pub digit_of : ℕ → ℕ
digit_of d = get_or (codes "0123456789abcdef") d 0

abbrev digit_value : ℕ → ℕ
digit_value c = if ltb c 97 then c - 48 else c - 87

-- a numeral in a base as its value, from the first digit on
abbrev read_number : ℕ → List ℕ → ℕ → ℕ
read_number base [] value = value
read_number base (c ∷ s) value = read_number base s (value * base + digit_value c)

&&-left : (a b : Bool) → (a && b) ≡ true → a ≡ true
&&-left a b h = ground arith

&&-right : (a b : Bool) → (a && b) ≡ true → b ≡ true
&&-right a b h = ground arith

-- Two functions agree below `n`.
abbrev agree : (f g : ℕ → ℕ) → ℕ → Bool
agree f g zero = true
agree f g (suc n) = (f n == g n) && agree f g n

pub agree-at : (f g : ℕ → ℕ) (n d : ℕ) → agree f g n ≡ true → d < n → f d ≡ g d
agree-at f g zero d h lt = absurd (omega arith)
agree-at f g (suc n) d h lt = elim (ℕ_discrete d n) [
  | yes e ↦ rw e ((==_iff (f n) (g n)).0 (&&-left _ _ h))
  | no ne ↦ agree-at f g n d (&&-right _ _ h) (omega arith)
]

digit_value-digit_of : (d : ℕ) → d < 16 → digit_value (digit_of d) ≡ d
digit_value-digit_of d h = agree-at (λ d. digit_value (digit_of d)) (λ d. d) 16 d refl h

pub decimal_digit : (d : ℕ) → d < 10 → digit_of d ≡ b'0' + d
decimal_digit d h = agree-at digit_of (λ d. b'0' + d) 10 d refl h

pub div_below : {base : ℕ} → IsBase base → (n v : ℕ) → v < base ^ suc n → v / base < base ^ n
div_below decimal n v h = omega (arith, pow-suc 10 n)
div_below hexadecimal n v h = omega (arith, pow-suc 16 n)

rest_value : {base : ℕ} → IsBase base → (v : ℕ) → v / base * base + v % base ≡ v
rest_value decimal v = omega arith
rest_value hexadecimal v = omega arith

pub mod_small : {base : ℕ} → IsBase base → (v : ℕ) → v % base < 16
mod_small decimal v = omega arith
mod_small hexadecimal v = omega arith

pub no_digits : {base : ℕ} → IsBase base → (v : ℕ) → v < base ^ 0 → v ≡ 0
no_digits decimal v h = omega arith
no_digits hexadecimal v h = omega arith

-- The digits of a number, in front of those in `buf`, are read as the number.
read_number-buf_digits :
    {base : ℕ} (is : IsBase base) (n v : ℕ) (buf : List ℕ)
    → v < base ^ n
    → read_number base (buf_digits n v base buf) 0 ≡ read_number base buf v
unfolding buf_digits
read_number-buf_digits {base} is zero v buf h = ap (read_number base buf) (sym (no_digits is v h))
read_number-buf_digits {base} is (suc n) v buf h = elim (ℕ_discrete v 0) [
  | yes e ↦ rw e refl
  | no ne ↦
      let d = digit_of (v % base) in
      let step : v / base * base + digit_value d ≡ v =
        ap (λ x. v / base * base + x) (digit_value-digit_of (v % base) (mod_small is v))
        ∙ rest_value is v in
      rw (ne→== v 0 ne) (
        read_number-buf_digits is n (v / base) (d ∷ buf) (div_below is n v h)
        ∙ ap (read_number base buf) step)
]

length-buf_digits :
    {base : ℕ} (is : IsBase base) (m n v : ℕ) (buf : List ℕ)
    → v < base ^ n
    → length (buf_digits m v base buf) ≤ n + length buf
unfolding buf_digits
length-buf_digits is zero n v buf h = omega arith
length-buf_digits {base} is (suc m) zero v buf h = rw (no_digits is v h) (omega arith)
length-buf_digits {base} is (suc m) (suc n) v buf h = elim (ℕ_discrete v 0) [
  | yes e ↦ rw e (omega arith)
  | no ne ↦
      let d = digit_of (v % base) in
      rw (ne→== v 0 ne)
        (omega (arith, length-buf_digits is m n (v / base) (d ∷ buf) (div_below is n v h)))
]

pub buf_digits_none : (n base : ℕ) (buf : List ℕ) → buf_digits n 0 base buf ≡ buf
unfolding buf_digits
buf_digits_none zero base buf = refl
buf_digits_none (suc n) base buf = refl

digit_of_some : (d : ℕ) → d < 16 → d ≢ 0 → digit_of d ≢ b'0'
digit_of_some d h ne e = ne (sym (digit_value-digit_of d h) ∙ ap digit_value e)

no_quotient : {base : ℕ} → IsBase base → (v : ℕ) → v ≢ 0 → v / base ≡ 0 → v % base ≢ 0
no_quotient decimal v ne q m = ne (omega arith)
no_quotient hexadecimal v ne q m = ne (omega arith)

buf_digits_leading :
    {base : ℕ} (is : IsBase base) (n v : ℕ) (buf : List ℕ)
    → v < base ^ n
    → v ≢ 0
    → get_or (buf_digits n v base buf) 0 0 ≢ b'0'
unfolding buf_digits
buf_digits_leading is zero v buf h ne = absurd (ne (no_digits is v h))
buf_digits_leading {base} is (suc n) v buf h ne =
    let d = digit_of (v % base) in
    rw (ne→== v 0 ne) (elim (ℕ_discrete (v / base) 0) [
      | yes e ↦
          rw (e, buf_digits_none n base (d ∷ buf))
            (digit_of_some (v % base) (mod_small is v) (no_quotient is v ne e))
      | no more ↦ buf_digits_leading is n (v / base) (d ∷ buf) (div_below is n v h) more
    ])

pub emit_string-append : (xs ys : List ℕ) → emit_string kept ys xs ≡ xs ++ ys
unfolding emit_string
emit_string-append xs [] = sym (append-nil xs)
emit_string-append xs (y ∷ ys) =
    emit_string-append (xs ++ (y ∷ [])) ys ∙ append_assoc xs (y ∷ []) ys

pub fits : {base : ℕ} → IsBase base → (v : ℕ) → v < 2 ^ 64 → v < base ^ 20
fits decimal v h = omega arith
fits hexadecimal v h = omega arith

pub fits_fuel : {base : ℕ} → IsBase base → (v : ℕ) → v < 2 ^ 64 → v < base ^ 64
fits_fuel decimal v h = omega arith
fits_fuel hexadecimal v h = omega arith

zero_reads : {base : ℕ} → IsBase base → read_number base (b'0' ∷ []) 0 ≡ 0
zero_reads decimal = refl
zero_reads hexadecimal = refl

-- A text that is read as the number in its base, has no zero in front unless it is the number zero,
-- and has at most 20 characters, which the buffer of 32 holds.
pub record IsNumeral (base v : ℕ) (s : List ℕ) : Type 0 where
  pub reads : read_number base s 0 ≡ v
  pub leading : v ≢ 0 → get_or s 0 0 ≢ b'0'
  pub short : length s ≤ 20

emit_string-IsNumeral :
    {base v : ℕ} {s : List ℕ} → IsNumeral base v s → IsNumeral base v (emit_string kept s [])
emit_string-IsNumeral {base} {v} {s} h = subst (IsNumeral base v) (sym (emit_string-append [] s)) h

buf_digits-IsNumeral :
    {base : ℕ} (is : IsBase base) (n v : ℕ)
    → v < base ^ n
    → v < base ^ 20
    → v ≢ 0
    → IsNumeral base v (buf_digits n v base [])
buf_digits-IsNumeral is n v h short ne = record {
  reads = read_number-buf_digits is n v [] h;
  leading = λ some. buf_digits_leading is n v [] h ne;
  short = omega (arith, length-buf_digits is n 20 v [] short);
}

zero-IsNumeral : {base : ℕ} → IsBase base → IsNumeral base 0 (b'0' ∷ [])
zero-IsNumeral is = record {
  reads = zero_reads is;
  leading = λ ne. absurd (ne refl);
  short = omega arith;
}

-- What is printed of a number below 2^64 in base 10 or 16 is its numeral.
pub emit_unsigned-IsNumeral :
    {base : ℕ} (is : IsBase base) (v : ℕ)
    → v < 2 ^ 64
    → IsNumeral base v (emit_unsigned kept v base [])
unfolding emit_unsigned
emit_unsigned-IsNumeral {base} is v h = elim (ℕ_discrete v 0) [
  | yes e ↦ rw e (zero-IsNumeral is)
  | no ne ↦
      rw (ne→== v 0 ne)
        (emit_string-IsNumeral (buf_digits-IsNumeral is 64 v (fits_fuel is v h) (fits is v h) ne))
]
