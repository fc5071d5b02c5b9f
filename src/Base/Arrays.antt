-- ===== src/Base/Arrays.antt =====
-- A static C array is a function from the index. What lies past its end is not guarded by the
-- type: the bounds of each access are theorems of the parts.
use Prim.Native.Nat.{ℕ, zero, suc, ◌+◌, ◌-◌, ◌≤◌, ◌<◌}
use mathlib.Core.Path.{◌≡◌, refl, ap, ap₂, ◌∙◌, fun_ext}
use mathlib.Core.Logic.{◌≢◌, inl, inr}
use mathlib.Core.List.{List, [], ◌∷◌, ◌++◌}
use bumbel_bee.Base.Lists.{length, get_or}
use native.Mathlib.Omega.{arith}
use bumbel_bee.Base.Tests.{◌==◌, Bool-cases, if◌then◌else◌}

abbrev pub Array {ℓ} : Type ℓ → Type ℓ
Array A = ℕ → A

module _ {ℓ} {A : Type ℓ} where
  -- a[i] = v
  abbrev pub write : Array A → ℕ → A → Array A
  write a i v j = if i == j then v else a j

  pub write_self : (a : Array A) (i : ℕ) (v : A) → write a i v i ≡ v
  write_self a i v = ground arith

  pub write_ne : (a : Array A) (i j : ℕ) (v : A) → i ≢ j → write a i v j ≡ a j
  write_ne a i j v h = ground arith

  pub write_twice : (a : Array A) (i : ℕ) (v w : A) → write (write a i v) i w ≡ write a i w
  write_twice a i v w =
      fun_ext
        (λ j. elim (Bool-cases (i == j)) [ inl here ↦ rw here refl | inr there ↦ rw there refl ])

module _ {ℓ} {A : Type ℓ} where
  -- the `n` elements from index `i` on
  abbrev pub slice : Array A → ℕ → ℕ → List A
  slice a i zero = []
  slice a i (suc n) = a i ∷ slice a (i + 1) n

  pub length-slice : (a : Array A) (i n : ℕ) → length (slice a i n) ≡ n
  length-slice a i zero = refl
  length-slice a i (suc n) = ap suc (length-slice a (i + 1) n)

  pub get_or-slice :
      (a : Array A) (i n c : ℕ) (d : A) → c < n → get_or (slice a i n) c d ≡ a (i + c)
  get_or-slice a i zero c d h = absurd (omega arith)
  get_or-slice a i (suc n) zero d h = ap a (omega arith)
  get_or-slice a i (suc n) (suc c) d h =
      get_or-slice a (i + 1) n c d (omega arith) ∙ ap a (omega arith)

  -- Writing just past a slice extends it.
  pub slice-write :
      (a : Array A) (i n e : ℕ) (v : A)
      → e ≡ i + n
      → slice (write a e v) i (suc n) ≡ slice a i n ++ (v ∷ [])
  slice-write a i zero e v h = ground arith
  slice-write a i (suc n) e v h =
      ap₂ ◌∷◌ (write_ne a e i v (omega arith)) (slice-write a (i + 1) n e v (omega arith))

  -- Writing past a slice leaves it alone.
  pub slice_past :
      (a : Array A) (i n e : ℕ) (v : A) → i + n ≤ e → slice (write a e v) i n ≡ slice a i n
  slice_past a i zero e v h = refl
  slice_past a i (suc n) e v h =
      ap₂ ◌∷◌ (write_ne a e i v (omega arith)) (slice_past a (i + 1) n e v (omega arith))

  pub slice-cons : (a : Array A) (i n : ℕ) → n ≢ 0 → slice a i n ≡ a i ∷ slice a (i + 1) (n - 1)
  slice-cons a i zero h = absurd (h refl)
  slice-cons a i (suc n) h = ap (λ k. slice a i (suc k)) (omega arith)
