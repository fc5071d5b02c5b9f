-- ===== src/Console/Prints.antt =====
-- kernel/console.c: formatted output.
use bumbel_bee.Base.{ℕ, ◌≡◌, refl, ap, some, List, [], ◌∷◌}
use bumbel_bee.Data.{Kernel}
use bumbel_bee.Mouse.{MouseState}
use bumbel_bee.Format.{VaArgs, emit_string}
use bumbel_bee.Format.Printed.{Piece, GivesWords, format_of, printed_text, fmt_vprintf-printed}
use bumbel_bee.Console.{Console}
use bumbel_bee.Console.Output.{console_putc, console_write, console_printf}

emit_string-write :
    (k : Kernel) (mouse : MouseState) (s : List ℕ) (con : Console)
    → emit_string (console_putc k mouse) s con ≡ console_write k mouse s con
unfolding emit_string console_write
emit_string-write k mouse [] con = refl
emit_string-write k mouse (c ∷ s) con = emit_string-write k mouse s (console_putc k mouse c con)

-- A format of plain characters and conversions is printed to its end, and that does what writing the
-- texts of its pieces one after the other does, where each conversion takes the next argument: a
-- string, a character, a number of 32 or 64 bits in base 10, with or without a sign, or 16. The
-- numbers that `va_arg` gives are of these widths.
pub console_printf-write {κ} :
    {V : Type κ} (k : Kernel) (mouse : MouseState) (args : VaArgs V) (ps : List Piece) (a : V)
    (con : Console)
    → GivesWords args
    → console_printf k mouse args (format_of ps []) a con
      ≡ some (console_write k mouse (printed_text args ps a).0 con)
unfolding console_printf
console_printf-write k mouse args ps a con gives =
    rw (console_printf, fmt_vprintf-printed args (console_putc k mouse) gives ps con a)
      (ap some (emit_string-write k mouse (printed_text args ps a).0 con))
