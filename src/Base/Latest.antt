-- ===== src/Base/Latest.antt =====
-- The last elements of a list, as a full ring keeps them.
use Prim.Native.Nat.{ℕ, zero, suc, min, ◌+◌, ◌-◌, ◌≤◌}
use mathlib.Core.Path.{Path, ◌≡◌, refl, sym, ap, ◌∙◌}
use mathlib.Core.List.{List, [], ◌∷◌, ◌++◌}
use native.Mathlib.Omega.{arith}
use bumbel_bee.Base.Lists.{length, drop, length-append}

module _ {ℓ} {A : Type ℓ} where
  -- the last elements of a list, `c` at most
  abbrev pub keep : ℕ → List A → List A
  keep c xs = drop (length xs - c) xs

  length-drop : (n : ℕ) (xs : List A) → length (drop n xs) ≡ length xs - n
  unfolding drop
  length-drop zero xs = omega arith
  length-drop (suc n) [] = omega arith
  length-drop (suc n) (x ∷ xs) = omega (arith, length-drop n xs)

  pub length-keep : (c : ℕ) (xs : List A) → length (keep c xs) ≡ min (length xs) c
  length-keep c xs = omega (arith, length-drop (length xs - c) xs)

  drop-nil : (n : ℕ) → Path (List A) (drop n []) []
  unfolding drop
  drop-nil zero = refl
  drop-nil (suc n) = refl

  drop-drop : (a b : ℕ) (xs : List A) → drop b (drop a xs) ≡ drop (a + b) xs
  unfolding drop
  drop-drop zero b xs = ap (λ n. drop n xs) (omega arith)
  drop-drop (suc a) b [] = drop-nil b ∙ ap (λ n. drop n []) {x = suc (a + b)} (omega arith)
  drop-drop (suc a) b (x ∷ xs) =
      drop-drop a b xs ∙ ap (λ n. drop n (x ∷ xs)) {x = suc (a + b)} (omega arith)

  drop-append : (n : ℕ) (xs ys : List A) → n ≤ length xs → drop n (xs ++ ys) ≡ drop n xs ++ ys
  unfolding drop
  drop-append zero xs ys h = refl
  drop-append (suc n) [] ys h = absurd (omega arith)
  drop-append (suc n) (x ∷ xs) ys h = drop-append n xs ys (omega arith)

  pub keep_short : (c : ℕ) (xs : List A) → length xs ≤ c → keep c xs ≡ xs
  unfolding drop
  keep_short c xs h = ap (λ n. drop n xs) {y = 0} (omega arith)

  pub keep_full : (c : ℕ) (x : A) (xs : List A) → length xs ≡ c → keep c (x ∷ xs) ≡ xs
  unfolding drop
  keep_full c x xs h = ap (λ n. drop n (x ∷ xs)) {y = 1} (omega arith)

  -- What was cut off earlier does not count.
  pub keep-keep : (c : ℕ) (xs ys : List A) → keep c (keep c xs ++ ys) ≡ keep c (xs ++ ys)
  keep-keep c xs ys =
      ap (λ l. drop (length (keep c xs ++ ys) - c) l) (sym (drop-append cut xs ys (omega arith)))
      ∙ drop-drop cut (length (keep c xs ++ ys) - c) (xs ++ ys)
      ∙ ap (λ n. drop n (xs ++ ys)) {y = length (xs ++ ys) - c}
          (omega (arith, length-append (keep c xs) ys, length-append xs ys, length-drop cut xs))
    where
      cut : ℕ
      cut = length xs - c
