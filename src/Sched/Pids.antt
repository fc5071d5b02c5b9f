-- ===== src/Sched/Pids.antt =====
-- Process numbers: what keeps them apart, and what `sched_prepare_replay` does to that.
use mathlib.Core.Path.{subst}
use mathlib.Core.Bool.{false≢true}
use bumbel_bee.Base.{
  ℕ, ◌+◌, ◌^◌, ◌%◌, ◌<◌, ◌≡◌, refl, sym, ap, ◌∙◌, ◌≢◌, ◌⊎◌, inl, inr, true, false, Option, none,
  some, ◌==◌, Bool-cases, Option-cases, write_ne, write_self, first_from-IsFirst, arith,
}
use bumbel_bee.Data.{Kernel, SchedState, Task}
use bumbel_bee.Aspace.{aspace_retain}
use bumbel_bee.Sched.{
  max_tasks, task_visible, is_zombie, sched_prepare_replay, Spawn, new_task,
  sched_spawn_with_parent_aspace, find_slot_free, slot_free, set_task,
}

-- Visible tasks have different pids, all below the next one to give out.
pub record HasUniquePids (s : SchedState) : Type 0 where
  pub below :
      (i : ℕ) → i < max_tasks → task_visible (s.tasks i) ≡ true → (s.tasks i).pid < s.next_pid
  pub unique :
      (i j : ℕ)
      → i < max_tasks
      → j < max_tasks
      → task_visible (s.tasks i) ≡ true
      → task_visible (s.tasks j) ≡ true
      → (s.tasks i).pid ≡ (s.tasks j).pid
      → i ≡ j

abbrev pub spawned : Spawn → ℕ → ℕ → SchedState → SchedState
spawned sp aspace_id i s = record (set_task i (new_task sp aspace_id s) s) {
  next_pid = (s.next_pid + 1) % 2 ^ 32;
}

pub pid-new_task : (sp : Spawn) (a : ℕ) (s : SchedState) → (new_task sp a s).pid ≡ s.next_pid
unfolding new_task
pid-new_task sp a s = refl

spawned-below :
    (sp : Spawn) (a i : ℕ) (s : SchedState)
    → s.next_pid + 1 < 2 ^ 32
    → HasUniquePids s
    → (j : ℕ) → j < max_tasks
    → task_visible ((spawned sp a i s).tasks j) ≡ true
    → ((spawned sp a i s).tasks j).pid < (spawned sp a i s).next_pid
spawned-below sp a i s b u j r v = elim (Bool-cases (i == j)) [
  | inl e ↦ ground (arith, pid-new_task sp a s)
  | inr e ↦ ground (arith, u.below j)
]

spawned_unique :
    (sp : Spawn) (a i : ℕ) (s : SchedState)
    → HasUniquePids s
    → (j l : ℕ) → j < max_tasks
    → l < max_tasks
    → task_visible ((spawned sp a i s).tasks j) ≡ true
    → task_visible ((spawned sp a i s).tasks l) ≡ true
    → ((spawned sp a i s).tasks j).pid ≡ ((spawned sp a i s).tasks l).pid
    → j ≡ l
spawned_unique sp a i s u j l rj rl vj vl e =
    ground (arith, pid-new_task sp a s, u.below j, u.below l, u.unique j l)

pub spawn_cases :
    (sp : Spawn) (a : ℕ) (k : Kernel)
    → (sched_spawn_with_parent_aspace sp a k ≡ (none, k))
      ⊎ ((i : ℕ) × (find_slot_free k.sched.tasks ≡ some i)
          × (sched_spawn_with_parent_aspace sp a k ≡ (
            some k.sched.next_pid,
            record k { mm = (aspace_retain a k.mm).1; sched = spawned sp a i k.sched },
          )))
unfolding sched_spawn_with_parent_aspace
spawn_cases sp a k = elim (Option-cases (find_slot_free k.sched.tasks)) [
  | inl e ↦ inl (ground arith)
  | inr (i, e) ↦ elim (Bool-cases (aspace_retain a k.mm).0) [
    | inl done ↦ inr (i, e, ground (arith, pid-new_task sp a k.sched))
    | inr failed ↦ inl (ground arith)
  ]
]

-- A spawn keeps the pids of visible tasks apart, and below the next one, where they were so before
-- and the counter does not wrap.
pub spawn-HasUniquePids :
    (sp : Spawn) (a : ℕ) (k : Kernel)
    → k.sched.next_pid + 1 < 2 ^ 32
    → HasUniquePids k.sched
    → HasUniquePids (sched_spawn_with_parent_aspace sp a k).1.sched
spawn-HasUniquePids sp a k b u = elim (spawn_cases sp a k) [
  | inl e ↦ rw e u
  | inr (i, free, e) ↦ rw e (record {
    below = spawned-below sp a i k.sched b u;
    unique = spawned_unique sp a i k.sched u;
  })
]

-- The slot that a spawn takes was free.
spawn_slot_free :
    (tasks : ℕ → Task) (i : ℕ) → find_slot_free tasks ≡ some i → slot_free (tasks i) ≡ true
unfolding find_slot_free
spawn_slot_free tasks i e = (first_from-IsFirst (λ j. slot_free (tasks j)) 7 1 i e).passes

pub spawn_slot_below : (tasks : ℕ → Task) (i : ℕ) → find_slot_free tasks ≡ some i → i < max_tasks
unfolding find_slot_free
spawn_slot_below tasks i e =
    omega (arith, (first_from-IsFirst (λ j. slot_free (tasks j)) 7 1 i e).below)

new_task-visible :
    (sp : Spawn) (a : ℕ) (s : SchedState)
    → (new_task sp a s).pid ≡ 2
    → task_visible (new_task sp a s) ≡ true
unfolding new_task task_visible
new_task-visible sp a s e = ground arith

abbrev pub prepared : Kernel → Kernel
prepared k = record k { sched = sched_prepare_replay k.sched }

-- What is visible afterwards was so before.
prepared-visible :
    (s : SchedState) (i : ℕ)
    → task_visible ((sched_prepare_replay s).tasks i) ≡ true
    → (task_visible (s.tasks i) ≡ true) × (((sched_prepare_replay s).tasks i).pid ≡ (s.tasks i).pid)
unfolding sched_prepare_replay task_visible
prepared-visible s i v = ground arith

prepared-alive :
    (s : SchedState) (i : ℕ)
    → task_visible (s.tasks i) ≡ true
    → is_zombie (s.tasks i).state ≡ false
    → (sched_prepare_replay s).tasks i ≡ s.tasks i
unfolding sched_prepare_replay
prepared-alive s i v z = ground arith

next_pid-prepare : (s : SchedState) → (sched_prepare_replay s).next_pid ≡ 2
unfolding sched_prepare_replay
next_pid-prepare s = refl

-- `sched_prepare_replay` keeps the pids of visible tasks apart where they were so before and the
-- tasks that it leaves visible have pids below the counter's new value, 2.
prepare_replay-HasUniquePids :
    (s : SchedState)
    → HasUniquePids s
    → ((i : ℕ)
        → i < max_tasks
        → task_visible ((sched_prepare_replay s).tasks i) ≡ true
        → (s.tasks i).pid < 2)
    → HasUniquePids (sched_prepare_replay s)
prepare_replay-HasUniquePids s u h = record {
  below = λ i b v. omega (arith, h i b v, (prepared-visible s i v).1, next_pid-prepare s);
  unique = λ i j b c v w e.
      let p = prepared-visible s i v in
      let q = prepared-visible s j w in u.unique i j b c p.0 q.0 (sym p.1 ∙ e ∙ q.1);
}

alive_not_free :
    (t : Task) → task_visible t ≡ true → is_zombie t.state ≡ false → slot_free t ≡ false
unfolding slot_free
alive_not_free t v z = ground arith

-- The task in slot `j` can be seen and has pid 2.
abbrev pub HasPidTwo : Kernel → ℕ → Type 0
HasPidTwo k j = ((k.sched.tasks j).pid ≡ 2) × (task_visible (k.sched.tasks j) ≡ true)

-- A task that is still alive when `sched_prepare_replay` runs keeps its pid, and the counter starts
-- again at 2: if the pid is 2, the next spawn that succeeds gives out the same one, and both tasks
-- are in the table, with this pid: the old one in its slot, and the new one in another.
pub prepare_replay_reuses_pid :
    (sp : Spawn) (a i p : ℕ) (k k' : Kernel)
    → task_visible (k.sched.tasks i) ≡ true
    → is_zombie (k.sched.tasks i).state ≡ false
    → (k.sched.tasks i).pid ≡ 2
    → sched_spawn_with_parent_aspace sp a (prepared k) ≡ (some p, k')
    → (p ≡ 2) × HasPidTwo k' i × ((j : ℕ) × (j < max_tasks) × (j ≢ i) × HasPidTwo k' j)
prepare_replay_reuses_pid sp a i p k k' v z e h = elim (spawn_cases sp a (prepared k)) [
  | inl q ↦ cc
  | inr (j, free, q) ↦ reused j free (sym h ∙ q)
]
  where
    prep : SchedState
    prep = sched_prepare_replay k.sched

    same : prep.tasks i ≡ k.sched.tasks i
    same = prepared-alive k.sched i v z

    off : (j : ℕ) → find_slot_free prep.tasks ≡ some j → j ≢ i
    off j free w = false≢true (
        sym (alive_not_free (k.sched.tasks i) v z)
        ∙ ap slot_free (sym same)
        ∙ subst (λ x. slot_free (prep.tasks x) ≡ true) w (spawn_slot_free prep.tasks j free))

    new : Task
    new = new_task sp a prep

    reused :
        (j : ℕ)
        → find_slot_free prep.tasks ≡ some j
        → ◌≡◌ {A = Option ℕ × Kernel}
            (some p, k')
            (
              some prep.next_pid,
              record (prepared k) { mm = (aspace_retain a k.mm).1; sched = spawned sp a j prep },
            )
        → (p ≡ 2) × HasPidTwo k' i × ((l : ℕ) × (l < max_tasks) × (l ≢ i) × HasPidTwo k' l)
    reused j free both =
        let first : some p ≡ some prep.next_pid = ap (λ (r : Option ℕ × Kernel). r.0) both in
        let pid : p ≡ prep.next_pid = cc in
        let task : k'.sched.tasks i ≡ k.sched.tasks i =
          ap (λ (r : Option ℕ × Kernel). r.1.sched.tasks i) both
          ∙ write_ne prep.tasks j i new (off j free)
          ∙ same in
        let placed : k'.sched.tasks j ≡ new =
          ap (λ (r : Option ℕ × Kernel). r.1.sched.tasks j) both ∙ write_self prep.tasks j new in
        let two : new.pid ≡ 2 = pid-new_task sp a prep ∙ next_pid-prepare k.sched in
        (
          pid ∙ next_pid-prepare k.sched,
          (ap (λ (t : Task). t.pid) task ∙ e, ap task_visible task ∙ v),
          (
            j,
            spawn_slot_below prep.tasks j free,
            off j free,
            (
              ap (λ (t : Task). t.pid) placed ∙ two,
              ap task_visible placed ∙ new_task-visible sp a prep two,
            ),
          ),
        )
