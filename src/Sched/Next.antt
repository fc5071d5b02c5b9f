-- ===== src/Sched/Next.antt =====
-- `find_next_ready` against its description: the first task, going round from the one after the
-- current, that is visible and ready.
use bumbel_bee.Base.{
  ℕ, zero, suc, ◌+◌, ◌-◌, ◌%◌, ◌≤◌, ◌<◌, ◌≡◌, refl, sym, ap, ◌∙◌, ◌≢◌, inl, inr, Bool, true, false,
  none, some, Bool-cases, Option-cases, first_from, first_from-IsFirst, first_from-none, arith,
}
use mathlib.Core.Option
use bumbel_bee.Data.{SchedState}
use bumbel_bee.Sched.{max_tasks, can_run, next_ready_from, find_next_ready}

-- The slot `d` places after the current one.
abbrev pub ahead : SchedState → ℕ → ℕ
ahead s d = (s.current_task + d) % max_tasks

abbrev runs_ahead : SchedState → ℕ → Bool
runs_ahead s d = can_run (s.tasks (ahead s d))

next_ready_from-first :
    (n i : ℕ) (s : SchedState)
    → next_ready_from n i s ≡ Option.map (ahead s) (first_from (runs_ahead s) n i)
unfolding next_ready_from first_from
next_ready_from-first zero i s = refl
next_ready_from-first (suc n) i s = elim (Bool-cases (runs_ahead s i)) [
  | inl hit ↦ rw hit
  | inr miss ↦ rw miss (next_ready_from-first n (i + 1) s)
]

-- `idx` is the nearest slot ahead whose task can run; `d` is how far ahead.
pub record IsNext (s : SchedState) (idx d : ℕ) : Type 0 where
  pub at : idx ≡ ahead s d
  pub forward : 1 ≤ d
  pub round : d ≤ max_tasks
  pub runs : can_run (s.tasks idx) ≡ true
  pub nearest : (e : ℕ) → 1 ≤ e → e < d → can_run (s.tasks (ahead s e)) ≡ false

pub find_next_ready-IsNext :
    (s : SchedState) (idx : ℕ) → find_next_ready s ≡ some idx → (d : ℕ) × IsNext s idx d
unfolding find_next_ready
find_next_ready-IsNext s idx h = elim (Option-cases (first_from (runs_ahead s) max_tasks 1)) [
  | inl e ↦ let lost : none ≡ some idx = ap (Option.map (ahead s)) (sym e) ∙ sym whole ∙ h in cc
  | inr (d, e) ↦
      let found : some (ahead s d) ≡ some idx = ap (Option.map (ahead s)) (sym e) ∙ sym whole ∙ h in
      let at : ahead s d ≡ idx = cc in
      let f = first_from-IsFirst (runs_ahead s) max_tasks 1 d e in
      (
        d,
        record {
          at = sym at;
          forward = f.above;
          round = omega (arith, f.below);
          runs = rw (← at) (f.passes);
          nearest = f.first;
        },
      )
]
  where
    whole : find_next_ready s ≡ Option.map (ahead s) (first_from (runs_ahead s) max_tasks 1)
    whole = next_ready_from-first max_tasks 1 s

-- Every slot lies some places ahead.
pub ahead_onto :
    (s : SchedState) (i : ℕ)
    → s.current_task < max_tasks
    → i < max_tasks
    → i ≢ s.current_task
    → let d = (i + max_tasks - s.current_task) % max_tasks in
      (ahead s d ≡ i) × (1 ≤ d) × (d < max_tasks)
ahead_onto s i c b ne = omega arith

-- Where `find_next_ready` finds none, no task of the table can run, if the current index is in it.
pub find_next_ready-none :
    (s : SchedState)
    → s.current_task < max_tasks
    → find_next_ready s ≡ none
    → (i : ℕ) → i < max_tasks
    → can_run (s.tasks i) ≡ false
unfolding find_next_ready
find_next_ready-none s c h i b = elim (Option-cases (first_from (runs_ahead s) max_tasks 1)) [
  | inl e ↦
      let d = (i + (max_tasks - 1) - s.current_task) % max_tasks + 1 in
      let at : ahead s d ≡ i = omega arith in
      rw (← at) (first_from-none (runs_ahead s) max_tasks 1 e d (omega arith) (omega arith))
  | inr (d, e) ↦
      let found : some (ahead s d) ≡ none =
        ap (Option.map (ahead s)) (sym e) ∙ sym (next_ready_from-first max_tasks 1 s) ∙ h in
      cc
]
