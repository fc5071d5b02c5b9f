-- ===== src/Tests/Typed.antt =====
-- The theorems on the shell's line and words, applied to short texts.
use bumbel_bee.Base.{ℕ, ◌<◌, ◌≤◌, ◌≡◌, refl, List, [], ◌∷◌, ◌++◌, length, take, drop, codes, arith}
use bumbel_bee.Data.{Kernel}
use bumbel_bee.Format.{emit_unsigned}
use bumbel_bee.Format.Numerals.{kept}
use bumbel_bee.Shell.{Line, Response, isspace, parse_u32, parse_profile, skip_spaces, path_and_data}
use bumbel_bee.Shell.Editing.{commands, IsLine, commands-entered}
use bumbel_bee.Shell.Words.{IsWord, end, next, parse_u32-emit_unsigned, path_and_data-splits}
use bumbel_bee.Tests.Sample.{booted}

abbrev fresh : Line
fresh = record { chars = λ i. 0; len = 0 }

abbrev nothing_done : Response → Kernel → Kernel
nothing_done r k = k

fresh-IsLine : IsLine fresh
fresh-IsLine = record { room = omega arith; visible = λ j lt. absurd (omega arith) }

-- "lx", a backspace, "s", a tab, Enter, then "p"
abbrev strokes : List ℕ
strokes = b'l' ∷ b'x' ∷ 8 ∷ b's' ∷ 9 ∷ 10 ∷ b'p' ∷ []

commands-entered_example : commands nothing_done strokes booted fresh ≡ codes "ls" ∷ []
unfolding take
commands-entered_example = commands-entered nothing_done strokes booted fresh fresh-IsLine

parse_u32-emit_unsigned_example : parse_u32 (emit_unsigned kept 4096 10 [] ++ codes " x") ≡ 4096
parse_u32-emit_unsigned_example = parse_u32-emit_unsigned 4096 (codes " x") (omega arith) refl

too_large : parse_u32 (codes "4294967298") ≡ 2
unfolding parse_u32
too_large = refl

profiles : parse_profile (codes "sysload") ≡ 2
unfolding parse_profile
profiles = refl

path-IsWord : IsWord (codes "/net/tx")
unfolding isspace
path-IsWord = next refl (next refl (next refl (next refl (next refl (next refl (next refl end))))))

path_and_data-splits_example :
    let w = codes "/net/tx" in
    let args = w ++ (b' ' ∷ codes "hi there") in
    (length w ≤ 47 → path_and_data args ≡ (w, codes "hi there"))
    × (47 < length w → path_and_data args ≡ (take 47 w, drop 47 w ++ (b' ' ∷ codes "hi there")))
unfolding skip_spaces
path_and_data-splits_example =
    path_and_data-splits (codes "/net/tx") (codes "hi there") path-IsWord (omega arith) refl
