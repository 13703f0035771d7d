-- ===== src/Runtime/Presence.antt =====
-- walrusos/runtime/presence.py: `PresenceStore`. A callback is its name; whether a call of it raises
-- is a parameter. Counters and their changes are natural numbers.
pub mod Broadcast
use walrus_os.Base.{
  ℕ, ◌+◌, String, Bool, Option, none, some, List, [], ◌∷◌, ◌++◌, ◌==◌, keep_if, map, or_default,
  if◌then◌else◌,
}
use walrus_os.Base.Dict.{Dict, lookup, insert, pop, values}
use walrus_os.Base.Result.{Result, ok, err, key_error}
use walrus_os.Runtime.Session.{Session, new_session}

-- What a subscriber receives: the kind of the message, and the session as it is dumped.
pub record Message : Type 0 where
  pub kind : String
  pub session : Session

pub record Store : Type 0 where
  pub sessions : Dict Session
  pub subscribers : List String

-- The optional arguments of a heartbeat, and its changes.
pub record Beat : Type 0 where
  pub status : Option String
  pub current_task_id : Option String
  pub current_task_label : Option String
  pub current_file : Option String
  pub current_memory_query : Option String
  pub memory_reads_delta : ℕ
  pub memory_writes_delta : ℕ
  pub artifacts_delta : ℕ
  pub tasks_delta : ℕ

-- `list.remove(cb)`: the first one, and a `ValueError` that is caught if there is none
unfoldable pub remove : String → List String → List String
remove cb [] = []
remove cb (x ∷ xs) = let rest = remove cb xs in if x == cb then xs else x ∷ rest

unfoldable pub remove_all : List String → List String → List String
unfolding remove
remove_all [] xs = xs
remove_all (cb ∷ dead) xs = remove_all dead (remove cb xs)

-- `if session_id: session.session_id = session_id`, else the id of `uuid4`
abbrev pub chosen_id : Option String → String → String
chosen_id none fresh = fresh
chosen_id (some given) fresh = if given == "" then fresh else given

abbrev pub given {ℓ} : {A : Type ℓ} → Option A → Option A → Option A
given none old = old
given (some x) old = some x

unfoldable pub beat : Beat → ℕ → Session → Session
beat b now s = record s {
  last_heartbeat = now;
  status = or_default b.status s.status;
  current_task_id = given b.current_task_id s.current_task_id;
  current_task_label = given b.current_task_label s.current_task_label;
  current_file = given b.current_file s.current_file;
  current_memory_query = given b.current_memory_query s.current_memory_query;
  memory_reads = s.memory_reads + b.memory_reads_delta;
  memory_writes = s.memory_writes + b.memory_writes_delta;
  artifacts_published = s.artifacts_published + b.artifacts_delta;
  tasks_completed = s.tasks_completed + b.tasks_delta;
}

module _ (raises : String → Message → Bool) where
  -- The callbacks that are called are all subscribers; those that raised are removed.
  unfoldable pub broadcast : Message → Store → List (String × Message) × Store
  unfolding remove_all
  broadcast message s = (
    map (λ cb. (cb, message)) s.subscribers,
    record s {
      subscribers = remove_all (keep_if (λ cb. raises cb message) s.subscribers) s.subscribers;
    },
  )

  unfoldable pub register :
      String
      → String
      → String
      → String
      → Option String
      → String
      → ℕ
      → Store
      → Session × List (String × Message) × Store
  unfolding broadcast
  register agent_id agent_name workspace_id framework session_id fresh now s =
      let session =
        new_session (chosen_id session_id fresh) agent_id agent_name workspace_id framework now in
      let sent =
        broadcast (record { kind = "agent_joined"; session = session })
          (record s { sessions = insert agent_id session s.sessions }) in
      (session, sent.0, sent.1)

  unfoldable pub heartbeat :
      String → Beat → ℕ → Store → Result Session × List (String × Message) × Store
  unfolding broadcast beat
  heartbeat agent_id b now s = elim (lookup agent_id s.sessions) [
    | none ↦ (err key_error, [], s)
    | some old ↦
        let session = beat b now old in
        let sent =
          broadcast (record { kind = "agent_heartbeat"; session = session })
            (record s { sessions = insert agent_id session s.sessions }) in
        (ok session, sent.0, sent.1)
  ]

  unfoldable pub unregister : String → ℕ → Store → List (String × Message) × Store
  unfolding broadcast
  unregister agent_id now s = elim (lookup agent_id s.sessions) [
    | none ↦ ([], record s { sessions = pop agent_id s.sessions })
    | some old ↦
        broadcast
          (record {
            kind = "agent_left";
            session = record old { ended_at = some now; status = "offline" };
          })
          (record s { sessions = pop agent_id s.sessions })
  ]

unfoldable pub list_sessions : Option String → Store → List Session
list_sessions none s = values s.sessions
list_sessions (some w) s =
    if w == "" then values s.sessions else keep_if (λ x. x.workspace_id == w) (values s.sessions)

unfoldable pub get_session : String → Store → Option Session
get_session agent_id s = lookup agent_id s.sessions

unfoldable pub subscribe : String → Store → Store
subscribe callback s = record s { subscribers = s.subscribers ++ callback ∷ [] }

unfoldable pub unsubscribe : String → Store → Store
unfolding remove
unsubscribe callback s = record s { subscribers = remove callback s.subscribers }
