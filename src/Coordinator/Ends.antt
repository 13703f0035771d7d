-- ===== src/Coordinator/Ends.antt =====
-- `Coordinator.execute`: the number of rounds.
use walrus_os.Base.{
  sym, ℕ, zero, suc, ◌+◌, ◌≤◌, ◌<◌, String, ◌≡◌, refl, Bool, true, false, ◌||◌, List, [], ◌∷◌,
  arith, all_of, any_of, length, map, if◌then◌else◌, Bool-cases, inl, inr,
}
use walrus_os.Coordinator.{
  Task, TaskStatus, Outcome, Run, is_pending, is_ended, is_ready, apply_outcome, block, after_round,
  round, rounds, execute, max_iterations, missing, raised, finished, pending,
}

-- How many tasks are pending.
abbrev pub waiting : List Task → ℕ
waiting [] = 0
waiting (t ∷ ts) = (if is_pending t.status then 1 else 0) + waiting ts

waiting-block : (ts : List Task) → waiting (block ts) ≡ 0
unfolding block
waiting-block [] = refl
waiting-block (t ∷ ts) = ground (arith, waiting-block ts)

-- A task that has been run is pending no more.
apply_outcome-pending : (o : Outcome) (t : Task) → is_pending (apply_outcome o t).status ≡ false
apply_outcome-pending missing t = refl
apply_outcome-pending raised t = refl
apply_outcome-pending (finished c e n) t = refl

waiting-length : (ts : List Task) → waiting ts ≤ length ts
waiting-length [] = omega arith
waiting-length (t ∷ ts) = ground (arith, waiting-length ts)

module _ (run : List Task → Task → Outcome) (completed : List String) (plan : List Task) where
  waiting-map : (ts : List Task) → waiting (map (after_round run completed plan) ts) ≤ waiting ts
  waiting-map [] = omega arith
  waiting-map (t ∷ ts) = ground (arith, waiting-map ts, apply_outcome-pending (run plan t) t)

  waiting-ready :
      (ts : List Task)
      → any_of (is_ready completed) ts ≡ true
      → waiting (map (after_round run completed plan) ts) < waiting ts
  waiting-ready [] h = cc
  waiting-ready (t ∷ ts) h = elim (Bool-cases (is_ready completed t)) [
    | inl p ↦ ground (arith, waiting-map ts, apply_outcome-pending (run plan t) t)
    | inr p ↦ ground (arith, waiting-ready ts)
  ]

ended-pending : (s : TaskStatus) → is_ended s ≡ true → is_pending s ≡ false
ended-pending pending h = sym h
ended-pending _ h = refl

ended-waiting : (ts : List Task) → all_of (λ t. is_ended t.status) ts ≡ true → waiting ts ≡ 0
ended-waiting [] h = refl
ended-waiting (t ∷ ts) h = ground (arith, ended-pending t.status, ended-waiting ts)

-- A task in one of the statuses that `execute` knows how to leave.
abbrev pub is_known : TaskStatus → Bool
is_known s = is_pending s || is_ended s

abbrev pub all_known : List Task → Bool
all_known ts = all_of (λ t. is_known t.status) ts

apply_outcome-known : (o : Outcome) (t : Task) → is_known (apply_outcome o t).status ≡ true
apply_outcome-known missing t = refl
apply_outcome-known raised t = refl
apply_outcome-known (finished c e n) t = refl

known-block : (ts : List Task) → all_known ts ≡ true → all_known (block ts) ≡ true
unfolding block
known-block [] h = refl
known-block (t ∷ ts) h = ground (arith, known-block ts)

known-ended :
    (ts : List Task)
    → all_known ts ≡ true
    → waiting ts ≡ 0
    → all_of (λ t. is_ended t.status) ts ≡ true
known-ended [] h n = refl
known-ended (t ∷ ts) h n = ground (arith, known-ended ts)

module _ (run : List Task → Task → Outcome) where
  known-map :
      (completed : List String) (plan ts : List Task)
      → all_known ts ≡ true
      → all_known (map (after_round run completed plan) ts) ≡ true
  known-map completed plan [] h = refl
  known-map completed plan (t ∷ ts) h = elim (Bool-cases (is_ready completed t)) [
    | inl p ↦ ground (arith, known-map completed plan ts, apply_outcome-known (run plan t) t)
    | inr p ↦ ground (arith, known-map completed plan ts)
  ]

  rounds-ended :
      (n : ℕ) (r : Run)
      → waiting r.tasks < n
      → (waiting (rounds run n r).tasks ≡ 0)
        × (all_known r.tasks ≡ true → all_known (rounds run n r).tasks ≡ true)
  unfolding rounds round
  rounds-ended zero r h = absurd (omega arith)
  rounds-ended (suc n) r h = elim (Bool-cases (any_of (is_ready r.completed) r.tasks)) [
    | inr none_ready ↦ rw (rounds, none_ready) (waiting-block r.tasks, known-block r.tasks)
    | inl some_ready ↦
        let ran : List Task = map (after_round run r.completed r.tasks) r.tasks in
        let fewer : waiting ran < n =
          omega (arith, waiting-ready run r.completed r.tasks r.tasks some_ready) in
        elim (Bool-cases (all_of (λ t. is_ended t.status) (round run r).tasks)) [
          | inl all_ended ↦
              rw (rounds, some_ready, all_ended)
                (ended-waiting ran all_ended, known-map r.completed r.tasks r.tasks)
          | inr more ↦
              let rest = rounds-ended n (round run r) fewer in
              rw (rounds, some_ready, more)
                (rest.0, λ k. rest.1 (known-map r.completed r.tasks r.tasks k))
        ]
  ]

  enough : (ts : List Task) → waiting ts < max_iterations ts
  enough ts = ground (arith, waiting-length ts)

  -- The bound on the rounds is never what ends an execution: afterwards no task is pending, and if
  -- each was pending or ended before, each is done, failed or blocked.
  pub execute_ends :
      (ts : List Task)
      → (waiting (execute run ts).tasks ≡ 0)
        × (all_known ts ≡ true → all_of (λ t. is_ended t.status) (execute run ts).tasks ≡ true)
  unfolding execute
  execute_ends ts =
      let start : Run = record { tasks = ts; completed = []; events = [] } in
      let r = rounds-ended (max_iterations ts) start (enough ts) in
      (r.0, λ k. known-ended (execute run ts).tasks (r.1 k) r.0)
