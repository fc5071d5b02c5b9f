-- ===== src/Strings.antt =====
-- kernel/string.c: the routines on C strings. A string is the list of its bytes before the
-- terminator.
use bumbel_bee.Base.{
  ℕ, zero, suc, ◌+◌, Bool, List, [], ◌∷◌, Array, ◌==◌, leb, if◌then◌else◌, length, take, ◌≡◌, refl,
  ap, inl, inr, Bool-cases,
}

-- The two bytes at which the strings part; their difference is what `strcmp` returns.
unfoldable pub strcmp : List ℕ → List ℕ → ℕ × ℕ
strcmp [] [] = (0, 0)
strcmp [] (y ∷ ys) = (0, y)
strcmp (x ∷ xs) [] = (x, 0)
strcmp (x ∷ xs) (y ∷ ys) = let rest = strcmp xs ys in if x == y then rest else (x, y)

-- strcmp(a, b) == 0
unfoldable pub same_string : List ℕ → List ℕ → Bool
unfolding strcmp
same_string a b = let (x, y) = strcmp a b in x == y

-- `copy_name(dst, cap, src)`: what fits before the terminator
unfoldable pub copy_name : ℕ → List ℕ → List ℕ
copy_name zero src = []
copy_name (suc room) src = if leb (length src) room then src else take room src

-- The string at `a`, of which at most `n` bytes are looked at.
unfoldable pub string_at : ℕ → Array ℕ → ℕ → List ℕ
string_at zero m a = []
string_at (suc n) m a = let rest = string_at n m (a + 1) in if m a == 0 then [] else m a ∷ rest

-- `strlen` of the string at `a`, where its terminator is one of the `n` bytes there.
unfoldable strlen : ℕ → Array ℕ → ℕ → ℕ
strlen zero m a = 0
strlen (suc n) m a = let rest = strlen n m (a + 1) in if m a == 0 then 0 else suc rest

strlen_lem : (n : ℕ) (m : Array ℕ) (a : ℕ) → strlen n m a ≡ length (string_at n m a)
unfolding strlen string_at
strlen_lem zero m a = refl
strlen_lem (suc n) m a = elim (Bool-cases (m a == 0)) [
  | inl end ↦ rw end refl
  | inr more ↦ rw more (ap suc (strlen_lem n m (a + 1)))
]

-- The same for `strncmp`, which looks at `n` bytes at most.
unfoldable pub strncmp : List ℕ → List ℕ → ℕ → ℕ × ℕ
strncmp a b zero = (0, 0)
strncmp [] [] (suc n) = (0, 0)
strncmp [] (y ∷ ys) (suc n) = (0, y)
strncmp (x ∷ xs) [] (suc n) = (x, 0)
strncmp (x ∷ xs) (y ∷ ys) (suc n) = let rest = strncmp xs ys n in if x == y then rest else (x, y)

-- strncmp(a, b, n) == 0
unfoldable pub same_start : List ℕ → List ℕ → ℕ → Bool
unfolding strncmp
same_start a b n = let (x, y) = strncmp a b n in x == y
