-- ===== src/Coordinator/Decompose.antt =====
-- `Coordinator.decompose` of walrusos/runtime/coordinator.py: the plan that an answer of the language
-- model makes. Asking it, and reading JSON out of its text, are a parameter.
use walrus_os.Base.{ℕ, zero, suc, ◌+◌, String, ◌<>◌, Option, none, some, List, [], ◌∷◌, or_default}
use walrus_os.Context.Entry.{prefix}
use walrus_os.Coordinator.{Task, pending}

-- An object of the answer, with what `get` finds. A dependency that is no index, because it is no
-- whole number or is negative, is `none`.
pub record Draft : Type 0 where
  pub title : Option String
  pub description : Option String
  pub required_capability : Option String
  pub depends_on : List (Option ℕ)

module _ (show_nat : ℕ → String) (fresh : ℕ → String) (now goal_id : String) where
  -- The fresh id of a task is numbered by its place.
  abbrev pub new_task : ℕ → String → String → String → List String → Task
  new_task i title description capability depends_on = record {
    task_id = fresh i;
    goal_id = goal_id;
    title = title;
    description = description;
    required_capability = capability;
    status = pending;
    assigned_to = none;
    assigned_to_name = none;
    depends_on = depends_on;
    result_event_id = none;
    result_content = none;
    created_at = now;
    completed_at = none;
  }

  abbrev pub first_or : List String → String → String
  first_or [] d = d
  first_or (x ∷ xs) d = x

  unfoldable pub single_task : String → List String → Task
  unfolding prefix
  single_task goal capabilities =
      new_task 0 (prefix 60 goal) goal (first_or capabilities "general") []

  abbrev pub drafted : ℕ → Draft → List String → Task
  drafted i d depends_on =
      new_task i (or_default d.title ("Task " <> show_nat (i + 1))) (or_default d.description "")
        (or_default d.required_capability "general") depends_on

  -- The first pass, from a place on.
  unfoldable pub created : ℕ → List Draft → List Task
  created i [] = []
  created i (d ∷ ds) = drafted i d [] ∷ created (i + 1) ds

  abbrev pub id_at : ℕ → List Task → Option String
  id_at n [] = none
  id_at zero (t ∷ ts) = some t.task_id
  id_at (suc n) (t ∷ ts) = id_at n ts

  -- Indices of tasks, to their ids; any other entry is passed over.
  unfoldable pub resolve : List Task → List (Option ℕ) → List String
  resolve all [] = []
  resolve all (none ∷ js) = resolve all js
  resolve all (some j ∷ js) =
      let rest = resolve all js in elim (id_at j all) [ none ↦ rest | some id ↦ id ∷ rest ]

  -- The second pass.
  unfoldable pub linked : List Task → ℕ → List Draft → List Task
  unfolding resolve
  linked all i [] = []
  linked all i (d ∷ ds) = drafted i d (resolve all d.depends_on) ∷ linked all (i + 1) ds

  -- Without a language model, where asking it or reading its answer raises, and for an empty answer
  -- the plan is the goal itself.
  unfoldable pub decompose : Option (Option (List Draft)) → String → List String → List Task
  unfolding single_task linked created
  decompose none goal capabilities = single_task goal capabilities ∷ []
  decompose (some none) goal capabilities = single_task goal capabilities ∷ []
  decompose (some (some [])) goal capabilities = single_task goal capabilities ∷ []
  decompose (some (some (d ∷ ds))) goal capabilities = linked (created 0 (d ∷ ds)) 0 (d ∷ ds)
