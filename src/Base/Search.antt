-- ===== src/Base/Search.antt =====
-- The loop that returns the first index of a table that passes a test, and the one that copies
-- entries of a table out.
use Prim.Native.Nat.{ℕ, zero, suc, ◌+◌, ◌≤◌, ◌<◌}
use mathlib.Core.Path.{◌≡◌, sym, ◌∙◌}
use mathlib.Core.Logic.{inl, inr}
use mathlib.Core.Bool.{Bool, true, false, false≢true}
use mathlib.Core.List.{List, [], ◌∷◌}
use mathlib.Core.Option.{Option, none, some}
use native.Mathlib.Decide.{ℕ_discrete}
use native.Mathlib.Omega.{arith}
use bumbel_bee.Base.Tests.{if◌then◌else◌, Bool-cases, Option-cases}

-- for (i = start; i < start + n; i++) if (test(i)) return i;
unfoldable pub first_from : (ℕ → Bool) → ℕ → ℕ → Option ℕ
first_from test zero start = none
first_from test (suc n) start =
    let rest = first_from test n (start + 1) in if test start then some start else rest

-- What it finds passes the test, lies in the range, and is the first to pass.
pub record IsFirst (test : ℕ → Bool) (n start i : ℕ) : Type 0 where
  pub passes : test i ≡ true
  pub above : start ≤ i
  pub below : i < start + n
  pub first : (j : ℕ) → start ≤ j → j < i → test j ≡ false

first_before :
    (test : ℕ → Bool) (start i : ℕ)
    → test start ≡ false
    → ((j : ℕ) → start + 1 ≤ j → j < i → test j ≡ false)
    → (j : ℕ) → start ≤ j
    → j < i
    → test j ≡ false
first_before test start i h f j p q = elim (ℕ_discrete start j) [
  | yes e ↦ rw (← e) h
  | no ne ↦ f j (omega arith) q
]

pub first_from-IsFirst :
    (test : ℕ → Bool) (n start i : ℕ) → first_from test n start ≡ some i → IsFirst test n start i
unfolding first_from
first_from-IsFirst test zero start i h = cc
first_from-IsFirst test (suc n) start i h = elim (Bool-cases (test start)) [
  | inl hit ↦
      let same : start ≡ i = ground arith in
      record {
        passes = rw (← same) hit;
        above = omega arith;
        below = omega arith;
        first = λ j p q. absurd (omega arith);
      }
  | inr miss ↦
      let found : first_from test n (start + 1) ≡ some i = ground arith in
      let f = first_from-IsFirst test n (start + 1) i found in
      record {
        passes = f.passes;
        above = omega (arith, f.above);
        below = omega (arith, f.below);
        first = first_before test start i miss f.first;
      }
]

pub first_from-none :
    (test : ℕ → Bool) (n start : ℕ)
    → first_from test n start ≡ none
    → (j : ℕ) → start ≤ j
    → j < start + n
    → test j ≡ false
unfolding first_from
first_from-none test zero start h j p q = absurd (omega arith)
first_from-none test (suc n) start h j p q = elim (Bool-cases (test start)) [
  | inl hit ↦ ground arith
  | inr miss ↦
      let rest : first_from test n (start + 1) ≡ none = ground arith in
      first_before test start (start + suc n) miss
        (λ j p q. first_from-none test n (start + 1) rest j p (omega arith)) j p q
]

-- A test that passes in the range is found, or one before it.
pub first_from-some :
    (test : ℕ → Bool) (n start j : ℕ)
    → start ≤ j
    → j < start + n
    → test j ≡ true
    → (i : ℕ) × (first_from test n start ≡ some i)
first_from-some test n start j p q h = elim (Option-cases (first_from test n start)) [
  | inl e ↦ absurd (false≢true (sym (first_from-none test n start e j p q) ∙ h))
  | inr found ↦ found
]

-- The loop that copies entries of a table out, with `n` of them left, at index `i`, and room for
-- `room`: those that are kept, in their order.
unfoldable pub collect {ℓ κ} :
    {A : Type ℓ} {B : Type κ} → (A → Bool) → (A → B) → ℕ → ℕ → ℕ → (ℕ → A) → List B
collect keeps entry zero i room table = []
collect keeps entry (suc n) i zero table = []
collect keeps entry (suc n) i (suc room) table =
    let taken = collect keeps entry n (i + 1) room table in
    let skipped = collect keeps entry n (i + 1) (suc room) table in
    if keeps (table i) then entry (table i) ∷ taken else skipped
