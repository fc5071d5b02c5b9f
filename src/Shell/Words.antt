-- ===== src/Shell/Words.antt =====
-- The words of a command in kernel/shell.c: numbers are read as they are printed, and a path is
-- parted from what follows it.
use native.Mathlib.Nat.{pow-suc}
use native.Mathlib.Decide.{ℕ_discrete}
use bumbel_bee.Base.{
  ℕ, zero, suc, ◌+◌, ◌-◌, ◌*◌, ◌/◌, ◌%◌, ◌^◌, ◌≤◌, ◌<◌, ◌≡◌, refl, ◌∙◌, ap, true, false, List, [],
  ◌∷◌, ◌++◌, ◌==◌, ne→==, leb, le→leb, ◌&&◌, ◌||◌, u32, get_or, length, take, drop, arith,
}
use bumbel_bee.Format.{buf_digits, emit_string, emit_unsigned}
use bumbel_bee.Format.Numerals.{kept, emit_string-append, digit_of, decimal_digit}
use bumbel_bee.Shell.{parse_from, parse_u32, take_word, skip_spaces, isspace, path_and_data}

-- The digits of a number, in front of those in `buf`, are read as the number.
parse_from-buf_digits :
    (n v : ℕ) (buf rest : List ℕ)
    → v < 10 ^ n
    → v < 2 ^ 32
    → parse_from (buf_digits n v 10 buf ++ rest) 0 ≡ parse_from (buf ++ rest) v
unfolding parse_from buf_digits
parse_from-buf_digits zero v buf rest h word = ap (parse_from (buf ++ rest)) (omega arith)
parse_from-buf_digits (suc n) v buf rest h word = elim (ℕ_discrete v 0) [
  | yes e ↦ rw e refl
  | no ne ↦
      let p : 10 ^ suc n ≡ 10 ^ n * 10 = pow-suc 10 n in
      let d = digit_of (v % 10) in
      let is : d ≡ 48 + v % 10 = decimal_digit (v % 10) (omega arith) in
      let low : leb 48 d ≡ true = le→leb 48 d (omega arith) in
      let high : leb d 57 ≡ true = le→leb d 57 (omega arith) in
      let step : u32 (v / 10 * 10 + (d - 48)) ≡ v = omega arith in
      let head : parse_from (d ∷ (buf ++ rest)) (v / 10) ≡ parse_from (buf ++ rest) v =
        rw (parse_from, low, high, step) refl in
      rw (ne→== v 0 ne)
        (parse_from-buf_digits n (v / 10) (d ∷ buf) rest (omega arith) (omega arith) ∙ head)
]

-- the text goes on with something other than a digit, or ends
abbrev EndsNumber : List ℕ → Type 0
EndsNumber rest = (leb 48 (get_or rest 0 0) && leb (get_or rest 0 0) 57) ≡ false

parse_from_end : (rest : List ℕ) (v : ℕ) → EndsNumber rest → parse_from rest v ≡ v
unfolding parse_from
parse_from_end [] v h = refl
parse_from_end (c ∷ rest) v h = rw h refl

parse_from_sent :
    (s rest : List ℕ) (v : ℕ)
    → EndsNumber rest
    → parse_from (s ++ rest) 0 ≡ parse_from rest v
    → parse_u32 (emit_string kept s [] ++ rest) ≡ v
unfolding parse_u32
parse_from_sent s rest v h e =
    ap (λ t. parse_from (t ++ rest) 0) (emit_string-append [] s) ∙ (e ∙ parse_from_end rest v h)

-- A number of 32 bits that is printed in base 10, with no digit after it, is read as that number.
pub parse_u32-emit_unsigned :
    (v : ℕ) (rest : List ℕ)
    → v < 2 ^ 32
    → EndsNumber rest
    → parse_u32 (emit_unsigned kept v 10 [] ++ rest) ≡ v
unfolding emit_unsigned parse_u32 parse_from
parse_u32-emit_unsigned v rest word h = elim (ℕ_discrete v 0) [
  | yes e ↦ rw e (parse_from_end rest 0 h)
  | no ne ↦ rw (ne→== v 0 ne) (
      parse_from_sent (buf_digits 64 v 10 []) rest v h
        (parse_from-buf_digits 64 v [] rest (omega arith) word))
]

-- no blank in it
pub data IsWord : List ℕ → Type 0 where
  end : IsWord []
  next : {c : ℕ} {w : List ℕ} → isspace c ≡ false → IsWord w → IsWord (c ∷ w)

take_word_fits :
    (room c : ℕ) (w s : List ℕ)
    → IsWord w
    → isspace c ≡ true
    → length w ≤ room
    → take_word room (w ++ (c ∷ s)) ≡ (w, c ∷ s)
unfolding take_word
take_word_fits zero c _ s end blank fits = refl
take_word_fits (suc room) c _ s end blank fits = rw blank refl
take_word_fits zero c _ s (next ne w) blank fits = absurd (omega arith)
take_word_fits (suc room) c _ s (next {c = d} {w = v} ne w) blank fits =
    rw ne (
      ap (λ (r : List ℕ × List ℕ). (d ∷ r.0, r.1))
        (take_word_fits room c v s w blank (omega arith)))

take_word_cut :
    (room : ℕ) (w s : List ℕ)
    → IsWord w
    → room < length w
    → take_word room (w ++ s) ≡ (take room w, drop room w ++ s)
unfolding take_word take drop
take_word_cut room _ s end long = absurd (omega arith)
take_word_cut zero _ s (next ne w) long = refl
take_word_cut (suc room) _ s (next {c = d} {w = v} ne w) long =
    rw ne (ap (λ (r : List ℕ × List ℕ). (d ∷ r.0, r.1)) (take_word_cut room v s w (omega arith)))

-- A text that does not start with a blank.
abbrev IsBare : List ℕ → Type 0
IsBare s = skip_spaces s ≡ s

blank_test : (c : ℕ) → isspace c ≡ false → (c == 32 || c == 9) ≡ false
unfolding isspace
blank_test c h = ground arith

IsWord-bare : (w s : List ℕ) → IsWord w → 0 < length w → skip_spaces (w ++ s) ≡ w ++ s
unfolding skip_spaces
IsWord-bare _ s end some = absurd (omega arith)
IsWord-bare _ s (next {c = d} ne w) some = rw (blank_test d ne) refl

IsWord-drop : (n : ℕ) (w : List ℕ) → IsWord w → IsWord (drop n w)
unfolding drop
IsWord-drop zero w h = h
IsWord-drop (suc n) _ end = end
IsWord-drop (suc n) _ (next {w = v} ne w) = IsWord-drop n v w

length-drop_word : (n : ℕ) (w : List ℕ) → n < length w → 0 < length (drop n w)
unfolding drop
length-drop_word zero w h = h
length-drop_word (suc n) [] h = absurd (omega arith)
length-drop_word (suc n) (c ∷ w) h = length-drop_word n w (omega arith)

parted :
    (args word rest rest' : List ℕ)
    → skip_spaces args ≡ args
    → take_word 47 args ≡ (word, rest)
    → skip_spaces rest ≡ rest'
    → path_and_data args ≡ (word, rest')
unfolding path_and_data
parted args word rest rest' bare taken skipped =
    ap (λ t. ((take_word 47 t).0, skip_spaces (take_word 47 t).1)) bare
    ∙ (ap (λ (r : List ℕ × List ℕ). (r.0, skip_spaces r.1)) taken ∙ ap (λ t. (word, t)) skipped)

-- A path that is not empty and has no blank in it, a space, and a text that does not start with a
-- blank are parted where the path has 47 characters at most. A longer path is cut after the first
-- 47, and what is left of it is taken for the start of the text.
pub path_and_data-splits :
    (w text : List ℕ)
    → IsWord w
    → 0 < length w
    → IsBare text
    → let args = w ++ (b' ' ∷ text) in
      (length w ≤ 47 → path_and_data args ≡ (w, text))
      × (47 < length w → path_and_data args ≡ (take 47 w, drop 47 w ++ (b' ' ∷ text)))
unfolding isspace skip_spaces
path_and_data-splits w text is some bare =
    let args = w ++ (b' ' ∷ text) in
    let start = IsWord-bare w (b' ' ∷ text) is some in
    (
      (λ fits.
          parted args w (b' ' ∷ text) text start (take_word_fits 47 b' ' w text is refl fits) bare),
      (λ long.
          let tail = drop 47 w in
          parted args (take 47 w) (tail ++ (b' ' ∷ text)) (tail ++ (b' ' ∷ text)) start
            (take_word_cut 47 w (b' ' ∷ text) is long)
            (IsWord-bare tail (b' ' ∷ text) (IsWord-drop 47 w is) (length-drop_word 47 w long))),
    )
