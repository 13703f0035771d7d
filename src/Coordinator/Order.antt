-- ===== src/Coordinator/Order.antt =====
-- `Coordinator.execute`: the order of the tasks.
use walrus_os.Base.{
  ℕ, zero, suc, String, ◌≡◌, refl, true, false, not, ◌||◌, List, [], ◌∷◌, ◌++◌, arith, all_of,
  any_of, map, if◌then◌else◌, Bool-cases, inl, inr, contains_text, All, eq_iff, ◌==◌, ◌⊎◌,
}
use walrus_os.Coordinator.{
  Task, TaskStatus, Outcome, Run, is_pending, is_done, is_ended, is_ready, apply_outcome, block,
  after_round, ids_of, new_ids, round, rounds, execute, max_iterations, missing, raised, finished,
  pending, done,
}

abbrev pub done_ids : List Task → List String
done_ids [] = []
done_ids (t ∷ ts) = if is_done t.status then t.task_id ∷ done_ids ts else done_ids ts

abbrev pub Within : List String → List String → Type 0
Within xs ys = (x : String) → contains_text x xs ≡ true → contains_text x ys ≡ true

-- Every task that is done had its dependencies among the ids.
abbrev pub Founded : List String → List Task → Type 0
Founded ids ts = All (λ t. is_done t.status ≡ true → Within t.depends_on ids) ts

contains_text-append :
    (x : String) (xs ys : List String)
    → contains_text x (xs ++ ys) ≡ (contains_text x xs || contains_text x ys)
contains_text-append x [] ys = refl
contains_text-append x (y ∷ xs) ys = ground (arith, contains_text-append x xs ys)

all_of-Within :
    (deps ids : List String) → all_of (λ d. contains_text d ids) deps ≡ true → Within deps ids
all_of-Within [] ids h x p = cc
all_of-Within (d ∷ deps) ids h x p = elim (Bool-cases (d == x)) [
  | inl e ↦ ground (arith, (eq_iff d x).0 e)
  | inr e ↦ all_of-Within deps ids (ground arith) x (ground arith)
]

Founded-grow : (xs ys : List String) (ts : List Task) → Within xs ys → Founded xs ts → Founded ys ts
Founded-grow xs ys [] w f = tt
Founded-grow xs ys (t ∷ ts) w f = (λ d x p. w x (f.0 d x p), Founded-grow xs ys ts w f.1)

apply_outcome-depends : (o : Outcome) (t : Task) → (apply_outcome o t).depends_on ≡ t.depends_on
apply_outcome-depends missing t = refl
apply_outcome-depends raised t = refl
apply_outcome-depends (finished c e n) t = refl

done-pending : (s : TaskStatus) → is_done s ≡ true → is_pending s ≡ false
done-pending done h = refl
done-pending pending h = cc
done-pending _ h = refl

-- A run that finishes, or one that leaves the task failed and adds no id.
Outcome-cases :
    (o : Outcome)
    → ((c : String) × (e : String) × (n : String) × (o ≡ finished c e n))
      ⊎ ((t : Task) → (is_done (apply_outcome o t).status ≡ false) × (ids_of o t ≡ []))
Outcome-cases missing = inr (λ t. (refl, refl))
Outcome-cases raised = inr (λ t. (refl, refl))
Outcome-cases (finished c e n) = inl (c, e, n, refl)

module _ (run : List Task → Task → Outcome) (completed : List String) (plan : List Task) where
  Founded-map :
      (ts : List Task)
      → Founded completed ts
      → Founded completed (map (after_round run completed plan) ts)
  Founded-map [] f = tt
  Founded-map (t ∷ ts) f = elim (Bool-cases (is_ready completed t)) [
    | inr p ↦ rw p (f.0, Founded-map ts f.1)
    | inl p ↦ rw p (
      λ d x q.
          all_of-Within t.depends_on completed (ground arith) x
            (rw (← apply_outcome-depends (run plan t) t) q),
      Founded-map ts f.1,
    )
  ]

  Within-kept :
      (ts : List Task) → Within (done_ids ts) (done_ids (map (after_round run completed plan) ts))
  Within-kept [] x h = h
  Within-kept (t ∷ ts) x h = elim (Bool-cases (is_ready completed t)) [
    | inr p ↦ rw p (ground (arith, Within-kept ts x))
    | inl p ↦ ground (arith, Within-kept ts x, done-pending t.status)
  ]

  Within-new :
      (ts : List Task)
      → Within (new_ids run completed plan ts) (done_ids (map (after_round run completed plan) ts))
  unfolding new_ids
  Within-new [] x h = h
  Within-new (t ∷ ts) x h = elim (Bool-cases (is_ready completed t)) [
    | inr p ↦ ground (arith, Within-new ts x)
    | inl p ↦ elim (Outcome-cases (run plan t)) [
      | inl (c, e, n, q) ↦ ground (arith, Within-new ts x)
      | inr q ↦ ground (arith, Within-new ts x)
    ]
  ]

done_ids-block : (ts : List Task) → done_ids (block ts) ≡ done_ids ts
unfolding block
done_ids-block [] = refl
done_ids-block (t ∷ ts) = ground (arith, done_ids-block ts, done-pending t.status)

Founded-block : (ids : List String) (ts : List Task) → Founded ids ts → Founded ids (block ts)
unfolding block
Founded-block ids [] f = tt
Founded-block ids (t ∷ ts) f = elim (Bool-cases (is_pending t.status)) [
  | inl p ↦ rw p (λ d. absurd (ground arith), Founded-block ids ts f.1)
  | inr p ↦ rw p (f.0, Founded-block ids ts f.1)
]

Founded-none : (ts : List Task) → all_of (λ t. not (is_done t.status)) ts ≡ true → Founded [] ts
Founded-none [] h = tt
Founded-none (t ∷ ts) h = (λ d. absurd (ground arith), Founded-none ts (ground arith))

-- The completed ids are ids of tasks that are done, and hold what the done tasks depend on.
abbrev pub InOrder : Run → Type 0
InOrder r = Within r.completed (done_ids r.tasks) × Founded r.completed r.tasks

module _ (run : List Task → Task → Outcome) where
  Within-round :
      (r : Run)
      → Within r.completed (done_ids r.tasks)
      → Within (round run r).completed (done_ids (round run r).tasks)
  unfolding round
  Within-round r w x h = elim (Bool-cases (contains_text x r.completed)) [
    | inl p ↦ Within-kept run r.completed r.tasks r.tasks x (w x p)
    | inr p ↦ Within-new run r.completed r.tasks r.tasks x (
        ground
          (arith, contains_text-append x r.completed (new_ids run r.completed r.tasks r.tasks)))
  ]

  Within-append : (xs ys : List String) → Within xs (xs ++ ys)
  Within-append xs ys x h = ground (arith, contains_text-append x xs ys)

  InOrder-round : (r : Run) → InOrder r → InOrder (round run r)
  unfolding round
  InOrder-round r (w, f) = (
    Within-round r w,
    Founded-grow r.completed (round run r).completed (round run r).tasks
        (Within-append r.completed (new_ids run r.completed r.tasks r.tasks))
        (Founded-map run r.completed r.tasks r.tasks f),
  )

  InOrder-rounds : (n : ℕ) (r : Run) → InOrder r → InOrder (rounds run n r)
  unfolding rounds
  InOrder-rounds zero r i = i
  InOrder-rounds (suc n) r i = elim (Bool-cases (any_of (is_ready r.completed) r.tasks)) [
    | inr none_ready ↦
        rw (rounds, none_ready, done_ids-block r.tasks) (i.0, Founded-block r.completed r.tasks i.1)
    | inl some_ready ↦ elim (Bool-cases (all_of (λ t. is_ended t.status) (round run r).tasks)) [
      | inl all_ended ↦ rw (rounds, some_ready, all_ended) (InOrder-round r i)
      | inr more ↦
          rw (rounds, some_ready, more) (InOrder-rounds n (round run r) (InOrder-round r i))
    ]
  ]

  -- If no task is done before, every task that is done after an execution depends only on tasks that
  -- are done after it, whatever the graph of the dependencies.
  pub execute_lem :
      (ts : List Task)
      → all_of (λ t. not (is_done t.status)) ts ≡ true
      → Founded (done_ids (execute run ts).tasks) (execute run ts).tasks
  unfolding execute
  execute_lem ts h =
      let start : Run = record { tasks = ts; completed = []; events = [] } in
      let i =
        InOrder-rounds (max_iterations ts) start
          (λ x p. absurd (ground arith), Founded-none ts h) in
      Founded-grow (execute run ts).completed (done_ids (execute run ts).tasks)
        (execute run ts).tasks i.0 i.1
