-- ===== src/Tests/Coordinator.antt =====
-- Executions of walrusos/runtime/coordinator.py on concrete plans.
use walrus_os.Base.{
  ℕ, zero, suc, ◌≤◌, All, length, false, String, ◌≡◌, refl, true, none, some, List, [], ◌∷◌, ◌==◌,
  all_of, map, if◌then◌else◌,
}
use walrus_os.Coordinator.{
  Agent, match_agent, Task, Outcome, execute, rounds, round, block, new_ids, new_events, pending,
  done, failed, blocked, finished, missing, is_ended, is_pending,
}
use walrus_os.Base.{any_of}
use walrus_os.Runtime.Registry.{Registration, Registry, find_by_capability, list_all}
use walrus_os.Coordinator.Match.{fits, Fitting, first_agent, match_agent_lem}
use walrus_os.Coordinator.Decompose.{Draft, decompose}
use walrus_os.Coordinator.Planned.{execute-decompose}
use walrus_os.Coordinator.Ends.{waiting, all_known, execute_ends}
use walrus_os.Coordinator.Order.{Within, Founded, done_ids, execute_lem}

abbrev task : String → List String → Task
task id deps = record {
  task_id = id;
  goal_id = "g";
  title = id;
  description = "";
  required_capability = "general";
  status = pending;
  assigned_to = some "a";
  assigned_to_name = some "Ada";
  depends_on = deps;
  result_event_id = none;
  result_content = none;
  created_at = "2026";
  completed_at = none;
}

-- The second depends on the first, the fourth on the third, whose agent is missing.
abbrev plan : List Task
plan = task "t2" ("t1" ∷ []) ∷ task "t1" [] ∷ task "t3" [] ∷ task "t4" ("t3" ∷ []) ∷ []

abbrev run : List Task → Task → Outcome
run ts t = if t.task_id == "t3" then missing else finished "text" t.task_id "2026"

statuses : map (λ t. t.status) (execute run plan).tasks ≡ done ∷ done ∷ failed ∷ blocked ∷ []
unfolding execute rounds round block
statuses = refl

order : (execute run plan).events ≡ "t1" ∷ "t2" ∷ []
unfolding execute rounds round new_events new_ids
order = refl

execute_ends_example :
    (waiting (execute run plan).tasks ≡ 0)
    × (all_known plan ≡ true → all_of (λ t. is_ended t.status) (execute run plan).tasks ≡ true)
execute_ends_example = execute_ends run plan

execute_lem_example : Founded (done_ids (execute run plan).tasks) (execute run plan).tasks
execute_lem_example = execute_lem run plan refl

abbrev coder : String → Registration
coder id = record {
  agent_id = id;
  agent_name = id;
  framework = "custom";
  workspace_id = "w";
  capabilities = record { name = "general"; languages = []; description = "" } ∷ [];
  tools_exposed = [];
  max_concurrent_tasks = 1;
}

abbrev registry : Registry
registry = ("a", coder "a") ∷ ("b", coder "b") ∷ []

abbrev present : List Agent
present =
    record { agent_id = "c"; agent_name = "c" } ∷ record { agent_id = "b"; agent_name = "b" } ∷ []

chosen :
    match_agent (task "t1" []) registry present ≡ some (record { agent_id = "b"; agent_name = "b" })
unfolding match_agent find_by_capability
chosen = refl

match_agent_lem_example :
    (any_of (fits "general" present) (list_all registry) ≡ true
      → (a : Agent) × (match_agent (task "t1" []) registry present ≡ some a)
        × Fitting "general" present (list_all registry) a)
    × (any_of (fits "general" present) (list_all registry) ≡ false
        → match_agent (task "t1" []) registry present ≡ first_agent present)
match_agent_lem_example = match_agent_lem (task "t1" []) registry present

-- The second task waits for the first, and names a task that there is not.
abbrev answer : List Draft
answer =
    record {
      title = some "read";
      description = none;
      required_capability = some "research";
      depends_on = [];
    }
    ∷ record {
      title = none;
      description = some "write it up";
      required_capability = none;
      depends_on = some 0 ∷ some 7 ∷ none ∷ [];
    }
    ∷ []

abbrev fresh_id : ℕ → String
fresh_id zero = "t0"
fresh_id (suc n) = "t1"

abbrev planned : List Task
planned = decompose (λ n. "2") fresh_id "2026" "g" (some (some answer)) "learn" []

second_depends : map (λ t. t.depends_on) planned ≡ [] ∷ ("t0" ∷ []) ∷ []
unfolding decompose
second_depends = refl

execute-decompose_example :
    (1 ≤ length planned)
    × (all_of (λ t. is_pending t.status) planned ≡ true)
    × All (λ t. Within t.depends_on (map (λ t. t.task_id) planned)) planned
    × (all_of (λ t. is_ended t.status) (execute run planned).tasks ≡ true)
    × Founded (done_ids (execute run planned).tasks) (execute run planned).tasks
execute-decompose_example =
    execute-decompose (λ n. "2") fresh_id "2026" "g" run (some (some answer)) "learn" []
