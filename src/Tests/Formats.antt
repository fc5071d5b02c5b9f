-- ===== src/Tests/Formats.antt =====
-- The theorems on formatted printing, applied to arguments that are a list.
use bumbel_bee.Base.{ℕ, ◌%◌, ◌^◌, ◌≡◌, refl, none, some, List, [], ◌∷◌, codes, arith}
use bumbel_bee.Console.Output.{console_printf, console_write}
use bumbel_bee.Console.Prints.{console_printf-write}
use bumbel_bee.Format.{VaArgs, buf_digits, emit_string, emit_unsigned, emit_signed, fmt_vprintf}
use bumbel_bee.Format.Numerals.{kept, hexadecimal, IsNumeral, emit_unsigned-IsNumeral}
use bumbel_bee.Format.Spelled.{numeral}
use bumbel_bee.Format.Printed.{GivesWords, Piece, literal, text, unsigned}
use bumbel_bee.Tests.Sample.{booted}
use bumbel_bee.Tests.Written.{no_mouse, dark}

data Argument : Type 0 where
  string_at : List ℕ → Argument
  number_at : ℕ → Argument

next_string : List Argument → List ℕ × List Argument
next_string (string_at s ∷ left) = (s, left)
next_string (number_at n ∷ left) = ([], left)
next_string [] = ([], [])

next_number : List Argument → ℕ × List Argument
next_number (number_at n ∷ left) = (n, left)
next_number (string_at s ∷ left) = (0, left)
next_number [] = (0, [])

abbrev listed : VaArgs (List Argument)
listed = record {
  string = next_string;
  word32 = λ ap. ((next_number ap).0 % 2 ^ 32, (next_number ap).1);
  word64 = λ ap. ((next_number ap).0 % 2 ^ 64, (next_number ap).1);
}

listed-GivesWords : GivesWords listed
listed-GivesWords = record { word32_fits = λ ap. omega arith; word64_fits = λ ap. omega arith }

-- "%s=%u"
abbrev pieces : List Piece
pieces = text ∷ literal b'=' refl ∷ unsigned ∷ []

console_printf-write_example :
    console_printf booted no_mouse listed
      (codes "%s=%u")
      (string_at (codes "pid") ∷ number_at 12 ∷ [])
      dark
    ≡ some (console_write booted no_mouse (codes "pid=12") dark)
unfolding numeral console_printf console_write next_string next_number
console_printf-write_example =
    console_printf-write booted no_mouse listed pieces (string_at (codes "pid") ∷ number_at 12 ∷ [])
      dark listed-GivesWords

beef-IsNumeral : IsNumeral 16 48879 (emit_unsigned kept 48879 16 [])
beef-IsNumeral = emit_unsigned-IsNumeral hexadecimal 48879 (omega arith)

all_directives :
    fmt_vprintf listed kept [] (codes "%d %lx%%") (number_at 0xffffffff ∷ number_at 48879 ∷ [])
    ≡ some (codes "-1 beef%", [])
unfolding fmt_vprintf buf_digits emit_string emit_unsigned emit_signed next_number
all_directives = refl

-- a format that ends in the middle of a conversion
cut_format : fmt_vprintf listed kept [] (codes "100%") [] ≡ none
unfolding fmt_vprintf
cut_format = refl
