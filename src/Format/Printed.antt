-- ===== src/Format/Printed.antt =====
-- What kernel/fmt.c prints of a format, whatever the sink is: the texts of its pieces, in order.
use bumbel_bee.Base.{
  ℕ, ◌%◌, ◌^◌, ◌<◌, ◌≡◌, refl, sym, ◌∙◌, ap, false, none, some, List, [], ◌∷◌, ◌++◌, ◌==◌, arith,
}
use bumbel_bee.Format.{
  VaArgs, plain, emit_string, emit_directive, emit_long, format_char, format_from, fmt_vprintf,
  ended,
}
use bumbel_bee.Format.Numerals.{decimal, hexadecimal}
use bumbel_bee.Format.Spelled.{
  number, signed_number, emit_unsigned-number, emit_signed-long, emit_signed-widened,
}

-- A format is a sequence of these. A literal is a character other than `%`.
pub data Piece : Type 0 where
  literal : (c : ℕ) → (c == b'%') ≡ false → Piece
  text char unsigned signed hex long_unsigned long_signed long_hex percent_sign : Piece

-- a piece in front of a format
abbrev pub written : Piece → List ℕ → List ℕ
written (literal c ne) fmt = c ∷ fmt
written text fmt = b'%' ∷ b's' ∷ fmt
written char fmt = b'%' ∷ b'c' ∷ fmt
written unsigned fmt = b'%' ∷ b'u' ∷ fmt
written signed fmt = b'%' ∷ b'd' ∷ fmt
written hex fmt = b'%' ∷ b'x' ∷ fmt
written long_unsigned fmt = b'%' ∷ b'l' ∷ b'u' ∷ fmt
written long_signed fmt = b'%' ∷ b'l' ∷ b'd' ∷ fmt
written long_hex fmt = b'%' ∷ b'l' ∷ b'x' ∷ fmt
written percent_sign fmt = b'%' ∷ b'%' ∷ fmt

abbrev pub format_of : List Piece → List ℕ → List ℕ
format_of [] end = end
format_of (p ∷ ps) end = written p (format_of ps end)

-- What `va_arg` gives as a number is one of the word's width.
pub record GivesWords {κ} {V : Type κ} (args : VaArgs V) : Type κ where
  pub word32_fits : (ap : V) → (args.word32 ap).0 < 2 ^ 32
  pub word64_fits : (ap : V) → (args.word64 ap).0 < 2 ^ 64

module _ {ℓ} {C : Type ℓ} (emit : ℕ → C → C) where
  emit_string-both :
      (xs ys : List ℕ) (ctx : C)
      → emit_string emit (xs ++ ys) ctx ≡ emit_string emit ys (emit_string emit xs ctx)
  unfolding emit_string
  emit_string-both [] ys ctx = refl
  emit_string-both (x ∷ xs) ys ctx = emit_string-both xs ys (emit x ctx)

module _ {κ} {V : Type κ} (args : VaArgs V) where
  open args use {string, word32, word64}

  -- what a piece prints, and the arguments left
  abbrev pub printed : Piece → V → List ℕ × V
  printed (literal c ne) ap = (c ∷ [], ap)
  printed text ap = string ap
  printed char ap = ((word32 ap).0 % 2 ^ 8 ∷ [], (word32 ap).1)
  printed unsigned ap = (number 10 (word32 ap).0, (word32 ap).1)
  printed signed ap = (signed_number (2 ^ 31) (word32 ap).0, (word32 ap).1)
  printed hex ap = (number 16 (word32 ap).0, (word32 ap).1)
  printed long_unsigned ap = (number 10 (word64 ap).0, (word64 ap).1)
  printed long_signed ap = (signed_number (2 ^ 63) (word64 ap).0, (word64 ap).1)
  printed long_hex ap = (number 16 (word64 ap).0, (word64 ap).1)
  printed percent_sign ap = (b'%' ∷ [], ap)

  abbrev pub printed_text : List Piece → V → List ℕ × V
  printed_text [] ap = ([], ap)
  printed_text (p ∷ ps) ap =
      let (s, left) = printed p ap in let (rest, left') = printed_text ps left in (s ++ rest, left')

module _ {ℓ κ} {C : Type ℓ} {V : Type κ} (args : VaArgs V) (emit : ℕ → C → C)
    (gives : GivesWords args) where
  open args use {word32, word64}

  then_from :
      (fmt : List ℕ) (left : V) {c d : C}
      → c ≡ d
      → format_from args emit plain fmt (c, left) ≡ format_from args emit plain fmt (d, left)
  then_from fmt left e = ap (λ c. format_from args emit plain fmt (c, left)) e

  -- The code prints one piece.
  piece_lem :
      (p : Piece) (fmt : List ℕ) (ctx : C) (ap : V)
      → let (s, left) = printed args p ap in
        format_from args emit plain (written p fmt) (ctx, ap)
        ≡ format_from args emit plain fmt (emit_string emit s ctx, left)
  unfolding format_from format_char emit_directive emit_long emit_string
  piece_lem (literal c ne) fmt ctx a = rw (format_from, ne) refl
  piece_lem text fmt ctx a = refl
  piece_lem char fmt ctx a = refl
  piece_lem unsigned fmt ctx a =
      then_from fmt (word32 a).1
        (emit_unsigned-number emit decimal (word32 a).0 ctx (omega (arith, gives.word32_fits a)))
  piece_lem signed fmt ctx a =
      then_from fmt (word32 a).1 (emit_signed-widened emit (word32 a).0 ctx (gives.word32_fits a))
  piece_lem hex fmt ctx a =
      then_from fmt (word32 a).1 (
        emit_unsigned-number emit hexadecimal (word32 a).0 ctx (omega (arith, gives.word32_fits a)))
  piece_lem long_unsigned fmt ctx a =
      then_from fmt (word64 a).1
        (emit_unsigned-number emit decimal (word64 a).0 ctx (gives.word64_fits a))
  piece_lem long_signed fmt ctx a =
      then_from fmt (word64 a).1 (emit_signed-long emit (word64 a).0 ctx (gives.word64_fits a))
  piece_lem long_hex fmt ctx a =
      then_from fmt (word64 a).1
        (emit_unsigned-number emit hexadecimal (word64 a).0 ctx (gives.word64_fits a))
  piece_lem percent_sign fmt ctx a = refl

  -- A format printed through any sink sends it the texts of its pieces in order, each made of the
  -- next argument where it reads one, and the rest of the arguments is left.
  pub fmt_vprintf-printed :
      (ps : List Piece) (ctx : C) (a : V)
      → let (s, left) = printed_text args ps a in
        fmt_vprintf args emit ctx (format_of ps []) a ≡ some (emit_string emit s ctx, left)
  unfolding fmt_vprintf format_from ended emit_string
  fmt_vprintf-printed [] ctx a = refl
  fmt_vprintf-printed (p ∷ ps) ctx a =
      let (s, left) = printed args p a in
      let (rest, left') = printed_text args ps left in
      piece_lem p (format_of ps []) ctx a
      ∙ (fmt_vprintf-printed ps (emit_string emit s ctx) left
          ∙ ap (λ c. some (c, left')) (sym (emit_string-both emit s rest ctx)))

  -- A format that ends after a `%` or a `%l` has no result: the code reads on past its end.
  fmt_vprintf_cut :
      (ps : List Piece) (ctx : C) (a : V)
      → (fmt_vprintf args emit ctx (format_of ps (b'%' ∷ [])) a ≡ none)
        × (fmt_vprintf args emit ctx (format_of ps (b'%' ∷ b'l' ∷ [])) a ≡ none)
  unfolding fmt_vprintf format_from format_char ended
  fmt_vprintf_cut [] ctx a = (refl, refl)
  fmt_vprintf_cut (p ∷ ps) ctx a =
      let (s, left) = printed args p a in
      let rest = fmt_vprintf_cut ps (emit_string emit s ctx) left in
      (
        piece_lem p (format_of ps (b'%' ∷ [])) ctx a ∙ rest.0,
        piece_lem p (format_of ps (b'%' ∷ b'l' ∷ [])) ctx a ∙ rest.1,
      )
