-- ===== src/Coordinator/Planned.antt =====
-- Plans that `Coordinator.decompose` makes, and their execution.
use walrus_os.Base.{
  ℕ, zero, suc, ◌+◌, ◌≤◌, String, ◌≡◌, refl, ap, sym, true, not, Option, none, some, List, [], ◌∷◌,
  ◌==◌, arith, All, all_of, contains_text, eq_refl, eq_iff, length, map, Option-cases, Bool-cases,
  inl, inr, false,
}
use mathlib.Core.Path.{subst}
use walrus_os.Coordinator.{Task, TaskStatus, Outcome, done, is_pending, is_ended, is_done, execute}
use walrus_os.Coordinator.Decompose.{Draft, created, linked, id_at, resolve, decompose}
use walrus_os.Coordinator.Ends.{all_known, execute_ends}
use walrus_os.Coordinator.Order.{Within, Founded, done_ids, execute_lem}

abbrev task_ids : List Task → List String
task_ids ts = map (λ t. t.task_id) ts

abbrev AllPending : List Task → Type 0
AllPending ts = all_of (λ t. is_pending t.status) ts ≡ true

known-AllPending : (ts : List Task) → AllPending ts → all_known ts ≡ true
known-AllPending [] h = refl
known-AllPending (t ∷ ts) h = ground (arith, known-AllPending ts)

pending_not_done : (s : TaskStatus) → is_pending s ≡ true → is_done s ≡ false
pending_not_done done h = ground (arith, h)
pending_not_done _ h = refl

open-AllPending : (ts : List Task) → AllPending ts → all_of (λ t. not (is_done t.status)) ts ≡ true
open-AllPending [] h = refl
open-AllPending (t ∷ ts) h = ground (arith, h, pending_not_done t.status, open-AllPending ts)

module _ (show_nat : ℕ → String) (fresh : ℕ → String) (now goal_id : String) where
  id_at-Within :
      (j : ℕ) (ts : List Task) (x : String)
      → id_at show_nat fresh now goal_id j ts ≡ some x
      → contains_text x (task_ids ts) ≡ true
  id_at-Within zero [] x h = ground (arith, h)
  id_at-Within (suc j) [] x h = ground (arith, h)
  id_at-Within zero (t ∷ ts) x h = ground (arith, h, eq_refl x)
  id_at-Within (suc j) (t ∷ ts) x h = ground (arith, id_at-Within j ts x h)

  resolve-Within :
      (all : List Task) (js : List (Option ℕ))
      → Within (resolve show_nat fresh now goal_id all js) (task_ids all)
  unfolding resolve
  resolve-Within all [] x h = ground (arith, h)
  resolve-Within all (none ∷ js) x h = resolve-Within all js x h
  resolve-Within all (some j ∷ js) x h =
      elim (Option-cases (id_at show_nat fresh now goal_id j all)) [
        | inl n ↦ resolve-Within all js x (ground (arith, h, n))
        | inr i ↦ elim (Bool-cases (i.0 == x)) [
          | inl same ↦ rw (← (eq_iff (i.0) x).0 same) (id_at-Within j all (i.0) (i.1))
          | inr other ↦ resolve-Within all js x (ground (arith, h, i.1, other))
        ]
      ]

  linked-Within :
      (all : List Task) (i : ℕ) (ds : List Draft)
      → All (λ t. Within t.depends_on (task_ids all)) (linked show_nat fresh now goal_id all i ds)
  unfolding linked
  linked-Within all i [] = tt
  linked-Within all i (d ∷ ds) = (resolve-Within all d.depends_on, linked-Within all (i + 1) ds)

  linked-AllPending :
      (all : List Task) (i : ℕ) (ds : List Draft)
      → AllPending (linked show_nat fresh now goal_id all i ds)
  unfolding linked
  linked-AllPending all i [] = refl
  linked-AllPending all i (d ∷ ds) = linked-AllPending all (i + 1) ds

  task_ids-linked :
      (all : List Task) (i : ℕ) (ds : List Draft)
      → task_ids (linked show_nat fresh now goal_id all i ds)
        ≡ task_ids (created show_nat fresh now goal_id i ds)
  unfolding linked created
  task_ids-linked all i [] = refl
  task_ids-linked all i (d ∷ ds) = ap (λ r. fresh i ∷ r) (task_ids-linked all (i + 1) ds)

  decompose-Planned :
      (answer : Option (Option (List Draft))) (goal : String) (capabilities : List String)
      → let ts = decompose show_nat fresh now goal_id answer goal capabilities in
        (1 ≤ length ts) × AllPending ts × All (λ t. Within t.depends_on (task_ids ts)) ts
  unfolding decompose
  decompose-Planned none goal capabilities = (omega arith, refl, ((λ x h. ground (arith, h)), tt))
  decompose-Planned (some none) goal capabilities =
      (omega arith, refl, ((λ x h. ground (arith, h)), tt))
  decompose-Planned (some (some [])) goal capabilities =
      (omega arith, refl, ((λ x h. ground (arith, h)), tt))
  decompose-Planned (some (some (d ∷ ds))) goal capabilities =
      let all = created show_nat fresh now goal_id 0 (d ∷ ds) in
      (
        omega arith,
        linked-AllPending all 0 (d ∷ ds),
        subst
            (λ ids.
              All (λ t. Within t.depends_on ids) (linked show_nat fresh now goal_id all 0 (d ∷ ds)))
            (sym (task_ids-linked all 0 (d ∷ ds))) (linked-Within all 0 (d ∷ ds)),
      )

  -- Whatever the language model answers, or if there is none, the plan has a task, all its tasks are
  -- pending, and they depend on tasks of the plan alone; and whatever the runs of its tasks do,
  -- its execution leaves each task done, failed or blocked, and those that are done depend only on
  -- tasks that are done in the end.
  pub execute-decompose :
      (run : List Task → Task → Outcome) (answer : Option (Option (List Draft))) (goal : String)
      (capabilities : List String)
      → let ts = decompose show_nat fresh now goal_id answer goal capabilities in
        (1 ≤ length ts)
        × (all_of (λ t. is_pending t.status) ts ≡ true)
        × All (λ t. Within t.depends_on (map (λ t. t.task_id) ts)) ts
        × (all_of (λ t. is_ended t.status) (execute run ts).tasks ≡ true)
        × Founded (done_ids (execute run ts).tasks) (execute run ts).tasks
  execute-decompose run answer goal capabilities =
      let ts = decompose show_nat fresh now goal_id answer goal capabilities in
      let p = decompose-Planned answer goal capabilities in
      (
        p.0,
        p.1,
        p.2,
        (execute_ends run ts).1 (known-AllPending ts p.1),
        execute_lem run ts (open-AllPending ts p.1),
      )
