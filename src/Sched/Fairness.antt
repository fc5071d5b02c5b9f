-- ===== src/Sched/Fairness.antt =====
-- Round robin: a task that can run waits for at most seven yields.
use mathlib.Core.Bool.{false≢true}
use bumbel_bee.Base.{
  ℕ, zero, suc, ◌+◌, ◌-◌, ◌%◌, ◌≤◌, ◌<◌, ◌≡◌, refl, sym, ◌∙◌, ◌≢◌, ◌⊎◌, inl, inr, true, false, some,
  ◌==◌, Bool-cases, Option-cases, arith,
}
use native.Mathlib.Decide.{ℕ_discrete, dec_lt}
use bumbel_bee.Data.{Kernel, SchedState}
use bumbel_bee.Sched.{
  max_tasks, can_run, find_next_ready, switch_tasks, switch_to, count_yield, sched_yield,
}
use bumbel_bee.Sched.Next.{find_next_ready-IsNext, find_next_ready-none, IsNext, ahead_onto}
use bumbel_bee.Sched.Invariant.{
  IsValid, can_run-SameTask, can_run_off, count_yield-IsValid, counted, choose_next-live,
  switch_to-Framed, sched_yield-IsValid,
}

unfoldable pub yields : ℕ → Kernel → Kernel
yields zero k = k
yields (suc n) k = yields n (sched_yield k)

-- How many places the slot `i` lies ahead of the current one.
abbrev distance : SchedState → ℕ → ℕ
distance s i = (i + max_tasks - s.current_task) % max_tasks

can_run-count_yield :
    (s : SchedState) (i : ℕ) → can_run ((count_yield s).tasks i) ≡ can_run (s.tasks i)
unfolding count_yield can_run
can_run-count_yield s i = elim (Bool-cases (s.current_task == i)) [
  | inl same ↦ ground arith
  | inr other ↦ ground arith
]

can_run-switch_tasks :
    (next i : ℕ) (s : SchedState)
    → i ≢ next
    → can_run (s.tasks i) ≡ true
    → can_run ((switch_tasks next s).tasks i) ≡ true
unfolding switch_tasks can_run
can_run-switch_tasks next i s ne h = ground arith

current-switch_tasks : (next : ℕ) (s : SchedState) → (switch_tasks next s).current_task ≡ next
unfolding switch_tasks
current-switch_tasks next s = refl

-- A yield with a task `i` waiting: some task takes over, and `i` runs or is nearer and still waits.
record Nearer (k k' : Kernel) (i : ℕ) : Type 0 where
  step : (k'.sched.current_task ≡ i) ⊎ (distance k'.sched i < distance k.sched i)
  waits : (k'.sched.current_task ≡ i) ⊎ (can_run (k'.sched.tasks i) ≡ true)
  live : k'.trace.replay.active ≡ false

-- The task chosen lies no further ahead than `i`.
next-distance :
    (s : SchedState) (i n d : ℕ)
    → s.current_task < max_tasks
    → i < max_tasks
    → i ≢ s.current_task
    → can_run (s.tasks i) ≡ true
    → IsNext s n d
    → d ≤ distance s i
next-distance s i n d c b ne h next = elim (dec_lt (distance s i) d) [
  | no le ↦ omega arith
  | yes lt ↦
      let onto = ahead_onto s i c b ne in
      absurd (false≢true (sym (next.nearest (distance s i) onto.1 lt) ∙ rw (onto.0) h))
]

current-count_yield : (s : SchedState) → (count_yield s).current_task ≡ s.current_task
unfolding count_yield
current-count_yield s = refl

-- The move to a task `d` places ahead, short of `i`, brings `i` nearer.
distance_falls :
    (s s' : SchedState) (i n d : ℕ)
    → s.current_task < max_tasks
    → i < max_tasks
    → i ≢ s.current_task
    → IsNext s n d
    → d ≤ distance s i
    → s'.current_task ≡ n
    → (n ≡ i) ⊎ (distance s' i < distance s i)
distance_falls s s' i n d c b ne next le e = elim (ℕ_discrete n i) [
  | yes same ↦ inl same
  | no other ↦ inr (omega (arith, next.at, next.forward, e))
]

sched_yield-Nearer :
    (k : Kernel) (i : ℕ)
    → k.trace.replay.active ≡ false
    → IsValid k.sched
    → i < max_tasks
    → can_run (k.sched.tasks i) ≡ true
    → Nearer k (sched_yield k) i
unfolding sched_yield
sched_yield-Nearer k i live v b h = elim (Option-cases (find_next_ready (counted k).sched)) [
  | inl e ↦
      absurd (false≢true (sym (find_next_ready-none (counted k).sched v'.in_table e i b) ∙ waiting))
  | inr (n, e) ↦ rw (choose_next-live (counted k) live, e) (chosen n e)
]
  where
    v' : IsValid (count_yield k.sched)
    v' = count_yield-IsValid k.sched v

    waiting : can_run ((counted k).sched.tasks i) ≡ true
    waiting = can_run-count_yield k.sched i ∙ h

    chosen :
        (n : ℕ)
        → find_next_ready (counted k).sched ≡ some n
        → Nearer k (switch_to (some n) (counted k)) i
    chosen n e =
        let (d, next) = find_next_ready-IsNext (counted k).sched n e in
        let f = switch_to-Framed n (counted k) (can_run_off (count_yield k.sched) n v' next.runs) in
        let now = f.current ∙ current-switch_tasks n (count_yield k.sched) in
        let le =
          next-distance (count_yield k.sched) i n d v'.in_table b
            (can_run_off (count_yield k.sched) i v' waiting) waiting next in
        let falls =
          distance_falls (count_yield k.sched) (switch_to (some n) (counted k)).sched i n d
            v'.in_table b (can_run_off (count_yield k.sched) i v' waiting) next le now in
        record {
          step = elim falls [
            | inl same ↦ inl (now ∙ same)
            | inr lt ↦ inr (omega (arith, current-count_yield k.sched, lt))
          ];
          waits = elim (ℕ_discrete i n) [
            | yes same ↦ inl (now ∙ sym same)
            | no other ↦ inr (
                can_run-SameTask _ _ (f.tasks i)
                ∙ can_run-switch_tasks n i (count_yield k.sched) other waiting)
          ];
          live = f.active ∙ live;
        }

yields_reach :
    (fuel : ℕ) (k : Kernel) (i : ℕ)
    → distance k.sched i ≤ fuel
    → k.trace.replay.active ≡ false
    → IsValid k.sched
    → i < max_tasks
    → (k.sched.current_task ≡ i) ⊎ (can_run (k.sched.tasks i) ≡ true)
    → (n : ℕ) × (n ≤ fuel) × ((yields n k).sched.current_task ≡ i)
unfolding yields
yields_reach fuel k i le live v b (inl now) = (0, omega arith, now)
yields_reach zero k i le live v b (inr h) = (0, omega arith, omega (arith, v.in_table))
yields_reach (suc fuel) k i le live v b (inr h) =
    let s = sched_yield-Nearer k i live v b h in
    let next = sched_yield k in
    let valid = sched_yield-IsValid k live v in
    elim s.step [
      | inl now ↦ (1, omega arith, now)
      | inr lt ↦
          let (n, small, reached) = yields_reach fuel next i (omega arith) s.live valid b s.waits in
          (suc n, omega arith, reached)
    ]

-- While no replay runs, from a valid table, a task of the table that can run becomes the current
-- one after some number of yields in a row, seven at most.
pub yields_serve :
    (k : Kernel) (i : ℕ)
    → k.trace.replay.active ≡ false
    → IsValid k.sched
    → i < max_tasks
    → can_run (k.sched.tasks i) ≡ true
    → (n : ℕ) × (n ≤ 7) × ((yields n k).sched.current_task ≡ i)
yields_serve k i live v b h = yields_reach 7 k i (omega arith) live v b (inr h)
