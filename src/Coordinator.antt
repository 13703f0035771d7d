-- ===== src/Coordinator.antt =====
-- walrusos/runtime/coordinator.py: `Coordinator.match_agent` and `execute`. What a task's run does
-- with the agent, the language model and the stream is a parameter.
pub mod Decompose
pub mod Ends
pub mod Match
pub mod Order
pub mod Planned
use walrus_os.Runtime.Registry.{Registration, Registry, find_by_capability}
use walrus_os.Base.{
  ℕ, zero, suc, ◌*◌, String, Bool, true, false, ◌&&◌, Option, none, some, List, [], ◌∷◌, ◌++◌, ◌==◌,
  all_of, any_of, keep_if, contains_text, leb, length, map, if◌then◌else◌,
}

pub data TaskStatus : Type 0 where
  pending assigned in_progress done failed blocked : TaskStatus

pub record Task : Type 0 where
  pub task_id : String
  pub goal_id : String
  pub title : String
  pub description : String
  pub required_capability : String
  pub status : TaskStatus
  pub assigned_to : Option String
  pub assigned_to_name : Option String
  pub depends_on : List String
  pub result_event_id : Option String
  pub result_content : Option String
  pub created_at : String
  pub completed_at : Option String

-- An agent as the registry or the presence store knows it.
pub record Agent : Type 0 where
  pub agent_id : String
  pub agent_name : String

abbrev pub agent_of : Registration → Agent
agent_of r = record { agent_id = r.agent_id; agent_name = r.agent_name }

abbrev pub is_online : List Agent → Registration → Bool
is_online agents r = any_of (λ a. a.agent_id == r.agent_id) agents

abbrev pub choose : List Registration → List Agent → Option Agent
choose [] [] = none
choose [] (a ∷ agents) = some a
choose (r ∷ candidates) agents = some (agent_of r)

-- The first online agent with the capability, or else the first that is online.
unfoldable pub match_agent : Task → Registry → List Agent → Option Agent
match_agent t registry online_agents =
    choose (keep_if (is_online online_agents) (find_by_capability t.required_capability registry))
      online_agents

-- How a run of a task ends: there is no such agent, it raises, or it writes an event. Nothing in the
-- program cancels a run, and a run that is cancelled from outside is not modelled.
pub data Outcome : Type 0 where
  missing raised : Outcome
  finished : (content event_id now : String) → Outcome

abbrev pub is_pending : TaskStatus → Bool
is_pending pending = true
is_pending _ = false

abbrev pub is_done : TaskStatus → Bool
is_done done = true
is_done _ = false

-- `status in ("done", "failed", "blocked")`
abbrev pub is_ended : TaskStatus → Bool
is_ended done = true
is_ended failed = true
is_ended blocked = true
is_ended _ = false

abbrev pub is_ready : List String → Task → Bool
is_ready completed t =
    is_pending t.status && all_of (λ dep. contains_text dep completed) t.depends_on

abbrev pub apply_outcome : Outcome → Task → Task
apply_outcome missing t = record t { status = failed }
apply_outcome raised t = record t { status = failed }
apply_outcome (finished content event_id now) t = record t {
  status = done;
  result_content = some content;
  result_event_id = some event_id;
  completed_at = some now;
}

-- The tasks that are pending when no task is ready
unfoldable pub block : List Task → List Task
block [] = []
block (t ∷ ts) =
    let rest = block ts in
    if is_pending t.status then record t { status = blocked } ∷ rest else t ∷ rest

pub record Run : Type 0 where
  pub tasks : List Task
  pub completed : List String
  pub events : List String

-- `max(len(plan.tasks) * 3, 6)`
abbrev pub max_iterations : List Task → ℕ
max_iterations tasks = if leb 6 (length tasks * 3) then length tasks * 3 else 6

-- The id and the event of a task that is done
abbrev pub ids_of : Outcome → Task → List String
ids_of (finished content event_id now) t = t.task_id ∷ []
ids_of _ t = []

abbrev pub events_of : Outcome → List String
events_of (finished content event_id now) = event_id ∷ []
events_of _ = []

module _ (run : List Task → Task → Outcome) where
  -- A ready task is run with the plan as it is when the round starts; the others stay.
  abbrev pub after_round : List String → List Task → Task → Task
  after_round completed plan t = if is_ready completed t then apply_outcome (run plan t) t else t

  unfoldable pub new_ids : List String → List Task → List Task → List String
  new_ids completed plan [] = []
  new_ids completed plan (t ∷ ts) =
      let rest = new_ids completed plan ts in
      if is_ready completed t then ids_of (run plan t) t ++ rest else rest

  unfoldable pub new_events : List String → List Task → List Task → List String
  new_events completed plan [] = []
  new_events completed plan (t ∷ ts) =
      let rest = new_events completed plan ts in
      if is_ready completed t then events_of (run plan t) ++ rest else rest

  unfoldable pub round : Run → Run
  unfolding new_ids new_events
  round r = record {
    tasks = map (after_round r.completed r.tasks) r.tasks;
    completed = r.completed ++ new_ids r.completed r.tasks r.tasks;
    events = r.events ++ new_events r.completed r.tasks r.tasks;
  }

  -- The loop, with the number of rounds left.
  unfoldable pub rounds : ℕ → Run → Run
  unfolding round block
  rounds zero r = r
  rounds (suc n) r =
      let rest = rounds n (round r) in
      if any_of (is_ready r.completed) r.tasks
      then if all_of (λ t. is_ended t.status) (round r).tasks then round r else rest
      else record r { tasks = block r.tasks }

  unfoldable pub execute : List Task → Run
  unfolding rounds
  execute tasks =
      rounds (max_iterations tasks) (record { tasks = tasks; completed = []; events = [] })
