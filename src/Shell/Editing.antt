-- ===== src/Shell/Editing.antt =====
-- The line of kernel/shell.c as the text that was typed: its buffer holds it, whatever is typed.
use native.Mathlib.Decide.{ℕ_discrete}
use bumbel_bee.Base.{
  ℕ, zero, suc, ◌+◌, ◌-◌, ◌≤◌, ◌<◌, ◌≡◌, refl, sym, ap, ap₂, ◌∙◌, Bool, true, false, inl, inr, List,
  [], ◌∷◌, ◌++◌, Array, write, slice, slice-write, slice_past, length, length-slice, take, take_all,
  ◌==◌, leb, ltb, ◌&&◌, if◌then◌else◌, Bool-cases, arith,
}
use bumbel_bee.Data.{Kernel}
use bumbel_bee.Strings.{string_at}
use bumbel_bee.Shell.{Line, Response, quiet, echo, command, shell_key, line_size}

abbrev text_of : Line → List ℕ
text_of s = slice s.chars 0 s.len

-- There is room for the terminator, and no character is one.
pub record IsLine (s : Line) : Type 0 where
  pub room : s.len < 128
  pub visible : (j : ℕ) → j < s.len → (s.chars j == 0) ≡ false

-- What the line is after a key, from what it was.
abbrev pub edited : ℕ → List ℕ → List ℕ
edited ch t =
    if ch == 10
    then []
    else (if ch == 8
        then take (length t - 1) t
        else (if ltb (length t) 127 && leb 32 ch && ltb ch 127 then t ++ (ch ∷ []) else t))

-- The commands that are entered, from what the line holds.
abbrev pub entered : List ℕ → List ℕ → List (List ℕ)
entered [] t = []
entered (ch ∷ chs) t = let rest = entered chs (edited ch t) in if ch == 10 then t ∷ rest else rest

abbrev command_of : Response → List (List ℕ)
command_of quiet = []
command_of (echo s) = []
command_of (command cmd) = cmd ∷ []

-- The commands that the loop hands over, where `exec` is what becomes of the kernel between two
-- keys.
abbrev pub commands : (Response → Kernel → Kernel) → List ℕ → Kernel → Line → List (List ℕ)
unfolding shell_key
commands exec [] k s = []
commands exec (ch ∷ chs) k s =
    let (r, k', s') = shell_key ch k s in command_of r ++ commands exec chs (exec r k') s'

string_at-slice :
    (n i len : ℕ) (a : Array ℕ)
    → len < n
    → a (i + len) ≡ 0
    → ((j : ℕ) → j < len → (a (i + j) == 0) ≡ false)
    → string_at n a i ≡ slice a i len
unfolding string_at
string_at-slice zero i len a lt end some = absurd (omega arith)
string_at-slice (suc n) i zero a lt end some =
    let here : a i ≡ 0 = ap a (omega arith) ∙ end in rw here refl
string_at-slice (suc n) i (suc len) a lt end some =
    let here : (a i == 0) ≡ false = ap (λ j. a j == 0) (omega arith) ∙ some 0 (omega arith) in
    rw here (
      ap (λ t. a i ∷ t)
        (string_at-slice n (i + 1) len a (omega arith) (ap a (omega arith) ∙ end)
          (λ j lt'. ap (λ m. a m == 0) (omega arith) ∙ some (suc j) (omega arith))))

take-slice : (k n i : ℕ) (a : Array ℕ) → k ≤ n → take k (slice a i n) ≡ slice a i k
unfolding take
take-slice zero n i a h = refl
take-slice (suc k) zero i a h = absurd (omega arith)
take-slice (suc k) (suc n) i a h = ap (λ t. a i ∷ t) (take-slice k n (i + 1) a (omega arith))

-- The command is the text of the line.
entered_text : (s : Line) → IsLine s → string_at line_size (write s.chars s.len 0) 0 ≡ text_of s
entered_text s v =
    string_at-slice line_size 0 s.len (write s.chars s.len 0) v.room (ground arith)
      (λ j lt. ground (arith, v.visible j lt))
    ∙ slice_past s.chars 0 s.len s.len 0 (omega arith)

-- What a key leads to, from the text of the line.
record IsEdited (ch : ℕ) (s : Line) (r : Response) (s' : Line) : Type 0 where
  valid : IsLine s'
  text : text_of s' ≡ edited ch (text_of s)
  handed : command_of r ≡ (if ch == 10 then text_of s ∷ [] else [])

-- A key other than Enter hands nothing over.
not_entered :
    {ch : ℕ} {s : Line} {r : Response} {s' : Line}
    → (ch == 10) ≡ false
    → IsLine s'
    → text_of s' ≡ edited ch (text_of s)
    → command_of r ≡ []
    → IsEdited ch s r s'
not_entered other v e silent = record { valid = v; text = e; handed = silent ∙ rw other refl }

erased_text :
    (ch : ℕ) (s : Line)
    → (ch == 10) ≡ false
    → (ch == 8) ≡ true
    → text_of (record s { len = s.len - 1 }) ≡ edited ch (text_of s)
erased_text ch s other back =
    rw (other, back, length-slice s.chars 0 s.len)
      (sym (take-slice (s.len - 1) s.len 0 s.chars (omega arith)))

empty_text :
    (ch : ℕ) (s : Line)
    → (ch == 10) ≡ false
    → (ch == 8) ≡ true
    → ltb 0 s.len ≡ false
    → text_of s ≡ edited ch (text_of s)
empty_text ch s other back empty =
    let none_left : s.len ≡ 0 = ground arith in
    rw (other, back)
      (sym (
        take_all (length (text_of s) - 1) (text_of s)
          (omega (arith, length-slice s.chars 0 s.len))))

-- whether a character is typed into a line of a length
abbrev accepted : ℕ → ℕ → Bool
accepted ch len = ltb (len + 1) line_size && leb 32 ch && ltb ch 127

typed_test :
    (ch : ℕ) (s : Line)
    → (ltb (length (text_of s)) 127 && leb 32 ch && ltb ch 127) ≡ accepted ch s.len
typed_test ch s = rw (length-slice s.chars 0 s.len) (ground arith)

typed_text :
    (ch : ℕ) (s : Line)
    → (ch == 10) ≡ false
    → (ch == 8) ≡ false
    → accepted ch s.len ≡ true
    → text_of (record { chars = write s.chars s.len ch; len = s.len + 1 }) ≡ edited ch (text_of s)
typed_text ch s other on fits =
    let next : s.len + 1 ≡ suc s.len = omega arith in
    rw (other, on, typed_test ch s ∙ fits)
      (ap (slice (write s.chars s.len ch) 0) next
        ∙ slice-write s.chars 0 s.len s.len ch (omega arith))

left_text :
    (ch : ℕ) (s : Line)
    → (ch == 10) ≡ false
    → (ch == 8) ≡ false
    → accepted ch s.len ≡ false
    → text_of s ≡ edited ch (text_of s)
left_text ch s other on refused = rw (other, on, typed_test ch s ∙ refused) refl

typed-IsLine :
    (ch : ℕ) (s : Line)
    → IsLine s
    → accepted ch s.len ≡ true
    → IsLine (record { chars = write s.chars s.len ch; len = s.len + 1 })
typed-IsLine ch s v fits = record {
  room = ground arith;
  visible = λ j lt. elim (ℕ_discrete s.len j) [
    | yes e ↦ ground arith
    | no ne ↦ ground (arith, v.visible j (omega arith))
  ];
}

shell_key-IsEdited :
    (ch : ℕ) (k : Kernel) (s : Line)
    → IsLine s
    → let (r, k', s') = shell_key ch k s in IsEdited ch s r s'
unfolding shell_key
shell_key-IsEdited ch k s v = elim (Bool-cases (ch == 10)) [
  | inl enter ↦ rw enter (record {
    valid = record { room = omega arith; visible = λ j lt. absurd (omega arith) };
    text = rw enter refl;
    handed = rw enter (ap (λ t. t ∷ []) (entered_text s v));
  })
  | inr other ↦ rw other (elim (Bool-cases (ch == 8)) [
    | inl back ↦ rw back (elim (Bool-cases (ltb 0 s.len)) [
      | inl more ↦ rw more (
          not_entered other
            (record { room = omega arith; visible = λ j lt. v.visible j (omega arith) })
            (erased_text ch s other back) refl)
      | inr empty ↦ rw empty (not_entered other v (empty_text ch s other back empty) refl)
    ])
    | inr on ↦ rw on (elim (Bool-cases (accepted ch s.len)) [
      | inl fits ↦
          rw fits
            (not_entered other (typed-IsLine ch s v fits) (typed_text ch s other on fits) refl)
      | inr refused ↦ rw refused (not_entered other v (left_text ch s other on refused) refl)
    ])
  ])
]

same_handed :
    (ch : ℕ) (t : List ℕ) (rest : List (List ℕ))
    → (if ch == 10 then t ∷ [] else []) ++ rest ≡ (if ch == 10 then t ∷ rest else rest)
same_handed ch t rest = elim (Bool-cases (ch == 10)) [
  | inl enter ↦ rw enter refl
  | inr other ↦ rw other refl
]

-- From a line that is in order, whatever is typed and whatever happens to the kernel between two
-- keys: the commands that are handed over are the texts as they were edited: at most 127 characters
-- that can be shown, each one after the last, without those that a backspace took away again.
pub commands-entered :
    (exec : Response → Kernel → Kernel) (chs : List ℕ) (k : Kernel) (s : Line)
    → IsLine s
    → commands exec chs k s ≡ entered chs (text_of s)
unfolding commands
commands-entered exec [] k s v = refl
commands-entered exec (ch ∷ chs) k s v =
    let (r, k', s') = shell_key ch k s in
    let e = shell_key-IsEdited ch k s v in
    ap₂ ◌++◌ e.handed (commands-entered exec chs (exec r k') s' e.valid)
    ∙ (same_handed ch (text_of s) (entered chs (text_of s'))
        ∙ ap (λ t. if ch == 10 then text_of s ∷ entered chs t else entered chs t) e.text)
