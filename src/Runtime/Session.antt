-- ===== src/Runtime/Session.antt =====
-- walrusos/core/models/session.py: `AgentSession`. A time is a number of microseconds.
pub mod Log
use walrus_os.Base.{
  ℕ, ◌-◌, ◌/◌, String, Bool, Option, none, List, [], ◌∷◌, ◌++◌, ltb, length, drop, if◌then◌else◌,
}
use walrus_os.Model.Value.{Payload}

pub record SessionActivity : Type 0 where
  pub timestamp : ℕ
  pub action : String
  pub detail : String
  pub metadata : Payload

pub record Session : Type 0 where
  pub session_id : String
  pub agent_id : String
  pub agent_name : String
  pub workspace_id : String
  pub framework : String
  pub started_at : ℕ
  pub ended_at : Option ℕ
  pub last_heartbeat : ℕ
  pub status : String
  pub current_task_id : Option String
  pub current_task_label : Option String
  pub current_file : Option String
  pub current_memory_query : Option String
  pub memory_reads : ℕ
  pub memory_writes : ℕ
  pub artifacts_published : ℕ
  pub tasks_completed : ℕ
  pub activity_log : List SessionActivity

-- A session with the defaults of the model; the id is that of `uuid4`.
abbrev pub new_session : String → String → String → String → String → ℕ → Session
new_session session_id agent_id agent_name workspace_id framework now = record {
  session_id = session_id;
  agent_id = agent_id;
  agent_name = agent_name;
  workspace_id = workspace_id;
  framework = framework;
  started_at = now;
  ended_at = none;
  last_heartbeat = now;
  status = "online";
  current_task_id = none;
  current_task_label = none;
  current_file = none;
  current_memory_query = none;
  memory_reads = 0;
  memory_writes = 0;
  artifacts_published = 0;
  tasks_completed = 0;
  activity_log = [];
}

-- `log[-20:]` of a log that is longer
unfoldable pub trim : List SessionActivity → List SessionActivity
trim log = if ltb 20 (length log) then drop (length log - 20) log else log

-- `log`; the activity and the heartbeat each read the clock.
unfoldable pub log : String → String → Payload → ℕ → ℕ → Session → Session
unfolding trim
log action detail metadata created now s = record s {
  activity_log = trim (
      s.activity_log
      ++ record { timestamp = created; action = action; detail = detail; metadata = metadata }
        ∷ []);
  last_heartbeat = now;
}

-- `last_seen_seconds > 30`
unfoldable pub is_stale : ℕ → Session → Bool
is_stale now s = ltb 30 ((now - s.last_heartbeat) / 1000000)
