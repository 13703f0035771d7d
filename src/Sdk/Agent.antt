-- ===== src/Sdk/Agent.antt =====
-- `AgentClient` of walrusos/sdk/agent.py over the event store: registration, status and writing.
use walrus_os.Base.{
  ℕ, ◌+◌, ◌/◌, ◌%◌, String, Bool, true, false, not, ◌&&◌, ◌||◌, Option, none, some, List, [], ◌∷◌,
  ◌++◌, ◌==◌, leb, eqb, any_of, or_default, if◌then◌else◌,
}
use walrus_os.Base.Dict.{insert}
use walrus_os.Base.Result.{Result, ok, err, runtime_error, permission_error, attribute_error, ◌>>◌}
use walrus_os.Model.Value.{Payload, Value, str, strs, obj}
use walrus_os.Model.Event.{
  ProtocolEvent, EventType, agent_registered, agent_paused, agent_resumed, agent_terminated,
  memory_appended,
}
use walrus_os.Model.Identity.{
  AgentIdentity, AgentStatus, active, paused, terminated, compute_trust_root,
}
use walrus_os.Adapters.Ledger.{StoredEvent, get_events_for_agent, get_event}
use walrus_os.Projection.Agent.{replay_agent}
use walrus_os.EventStore
use walrus_os.EventStore.{EventStore, Env, Args, or_none}
use walrus_os.Memory.Branch.{register_ledger}
use walrus_os.Sqlite.Tables.{CapabilityRow}
use walrus_os.Sqlite.Identities.{status_name}

-- A client with the event store that it shares; `pending` are the appends that a status change has
-- scheduled, and `outbox` is what was handed to the event mesh.
pub record AgentClient : Type 0 where
  pub agent_name : String
  pub owner_wallet : String
  pub workspace_id : String
  pub agent_id : String
  pub identity : Option AgentIdentity
  pub pending : List Args
  pub store : EventStore
  pub outbox : List StoredEvent

-- The libraries of the event store, and the optional methods of a ledger, which the client looks
-- for by `hasattr`: the Sui objects of streams, their capabilities, and the signature with the
-- agent's private key, which is empty where the key is missing or signing fails.
pub record Host : Type 0 where
  pub env : Env
  pub sui_object : Option (String → Option String)
  pub capabilities : Option (String → List CapabilityRow)
  pub sign : Option (Payload → String)
  pub has_mesh : Bool

-- The times of the blob and of the event, for each append before the write.
abbrev pub Clock : Type 0
Clock = ℕ → String × String

abbrev pub append_at :
    Host → String × String → Args → EventStore → Result ProtocolEvent × EventStore
append_at h times a s = EventStore.append h.env a (times.0) (times.1) s

abbrev pub replayed : Host → AgentClient → Option AgentIdentity
replayed h c = replay_agent h.env.sha256 (get_events_for_agent c.agent_id c.store.ledger)

-- `asyncio.gather(..., return_exceptions=True)` in the order of the schedule
unfoldable pub run_pending : Host → Clock → ℕ → List Args → EventStore → EventStore
run_pending h clock i [] s = s
run_pending h clock i (a ∷ rest) s = run_pending h clock (i + 1) rest (append_at h (clock i) a s).1

unfoldable pub registration_args : Host → AgentClient → String → Args
registration_args h c pub_hex = record {
  event_type = agent_registered;
  workspace_id = c.workspace_id;
  wallet = c.owner_wallet;
  payload =
      ("agent_name", str c.agent_name)
      ∷ ("public_key", str pub_hex)
      ∷ (
        "trust_root",
        str (compute_trust_root h.env.sha256 c.owner_wallet c.workspace_id c.agent_name),
      )
      ∷ ("metadata", obj [])
      ∷ [];
  agent_id = some c.agent_id;
  signature = "";
}

-- The identity from the log, or after a registration with a new key pair, whose public key is the
-- argument.
unfoldable pub register_new : Host → Clock → String → AgentClient → AgentClient
unfolding registration_args
register_new h clock pub_hex c =
    let c' : AgentClient = record c {
      store = (append_at h (clock 0) (registration_args h c pub_hex) c.store).1;
    } in
    elim (replayed h c) [
      | some a ↦ record c { identity = some a }
      | none ↦ record c' { identity = replayed h c' }
    ]

unfoldable pub ensure_initialized : Host → Clock → String → AgentClient → AgentClient
unfolding run_pending register_new
ensure_initialized h clock pub_hex c = elim c.pending [
  | a ∷ rest ↦
      let c' : AgentClient = record c {
        store = run_pending h clock 0 (a ∷ rest) c.store;
        pending = [];
      } in
      record c' { identity = replayed h c' }
  | [] ↦ elim c.identity [ some a ↦ c | none ↦ register_new h clock pub_hex c ]
]

-- A stream client, as far as a write needs it.
pub record Handle : Type 0 where
  pub stream_id : String
  pub initialized : Bool

pub record Write : Type 0 where
  pub payload : Payload
  pub memory_type : String
  pub tags : List String
  pub importance : Value
  pub summary : Option String
  pub project : Option String

abbrev pub update : Payload → Payload → Payload
update [] p = p
update ((k, v) ∷ es) p = update es (insert k v p)

-- The fields that the client adds, in its order.
unfoldable pub internal_fields : AgentClient → AgentIdentity → Handle → Write → Payload
internal_fields c a s w =
    ("author", str c.agent_name)
    ∷ ("agent_id", str a.agent_id)
    ∷ ("trust_root", str a.trust_root)
    ∷ ("public_key", str a.public_key)
    ∷ ("workspace_id", str a.workspace_id)
    ∷ ("stream_id", str s.stream_id)
    ∷ ("class_type", str w.memory_type)
    ∷ ("memory_type", str w.memory_type)
    ∷ ("tags", strs w.tags)
    ∷ ("importance", w.importance)
    ∷ ("summary", or_none w.summary)
    ∷ ("project", or_none w.project)
    ∷ []

-- `{**payload, ...}`: a later key replaces an earlier one.
unfoldable pub enriched : AgentClient → AgentIdentity → Handle → Write → Payload
unfolding internal_fields
enriched c a s w = update (internal_fields c a s w) w.payload

abbrev pub is_terminated : AgentStatus → Bool
is_terminated terminated = true
is_terminated _ = false

abbrev pub is_paused : AgentStatus → Bool
is_paused paused = true
is_paused _ = false

abbrev pub is_active : AgentStatus → Bool
is_active active = true
is_active _ = false

unfoldable pub check_status : AgentStatus → Result {0} Unit
check_status terminated = err runtime_error
check_status paused = err runtime_error
check_status active = ok tt

-- `cap.verb_bitmask & 2`
abbrev pub has_write : CapabilityRow → Bool
has_write cap = eqb (cap.verb_bitmask / 2 % 2) 1

-- Zero stands for no end.
abbrev pub is_unexpired : ℕ → CapabilityRow → Bool
is_unexpired epoch cap = eqb cap.valid_until_epoch 0 || leb epoch cap.valid_until_epoch

unfoldable pub grants_write : ℕ → List CapabilityRow → Bool
grants_write epoch caps = any_of (λ cap. is_unexpired epoch cap && has_write cap) caps

abbrev pub object_of : Option (String → Option String) → String → Option String
object_of none stream_id = none
object_of (some f) stream_id = f stream_id

-- A stream without a Sui object needs no capability; nor does an empty object id.
unfoldable pub check_capability : Host → ℕ → AgentStatus → String → Result {0} Unit
unfolding grants_write
check_capability h epoch status stream_id = elim h.capabilities [
  | none ↦ ok tt
  | some caps_of ↦
      let object = or_default (object_of h.sui_object stream_id) "" in
      if not (is_active status)
      then err runtime_error
      else if object == ""
      then ok tt
      else if grants_write epoch (caps_of object)
      then ok tt
      else err permission_error
]

abbrev pub signature_of : Option (Payload → String) → Payload → String
signature_of none p = ""
signature_of (some sign) p = sign p

unfoldable pub write_args : Host → AgentClient → Payload → Args
write_args h c p = record {
  event_type = memory_appended;
  workspace_id = c.workspace_id;
  wallet = c.owner_wallet;
  payload = p;
  agent_id = some c.agent_id;
  signature = signature_of h.sign p;
}

-- `stream._ensure_initialized`, on the in-memory ledger
abbrev pub opened : Handle → AgentClient → AgentClient
opened s c = if s.initialized then c else record c {
  store = record (c.store) { ledger = register_ledger s.stream_id c.store.ledger };
}

-- What is handed to the event mesh after an append.
abbrev pub posted : Host → ProtocolEvent → AgentClient → AgentClient
posted h e c = elim (get_event e.event_id c.store.ledger) [
  | none ↦ c
  | some x ↦ if h.has_mesh then record c { outbox = c.outbox ++ x ∷ [] } else c
]

-- The append and what follows it.
unfoldable pub commit_write :
    Host
    → String × String
    → AgentIdentity
    → Handle
    → Write
    → AgentClient
    → Result ProtocolEvent × AgentClient
unfolding enriched write_args
commit_write h now a s w c =
    let r = append_at h now (write_args h c (enriched c a s w)) c.store in
    let c' : AgentClient = record c { store = r.1 } in
    elim r.0 [
      | err x ↦ (err x, c')
      | ok e ↦ (ok e, posted h e (record c' { identity = replayed h c' }))
    ]

-- The guards, in their order, and the append.
unfoldable pub guarded_write :
    Host → String × String → ℕ → Handle → Write → AgentClient → Result ProtocolEvent × AgentClient
unfolding check_status check_capability commit_write
guarded_write h now epoch s w c = elim c.identity [
  | none ↦ (err attribute_error, c)
  | some a ↦ elim (check_status a.status >> check_capability h epoch a.status s.stream_id) [
    | err x ↦ (err x, c)
    | ok u ↦ commit_write h now a s w c
  ]
]

-- `_write_event`; `now` has the times of the write, and `epoch` is the day of the clock.
unfoldable pub write_event :
    Host
    → Clock
    → String × String
    → String
    → ℕ
    → Handle
    → Write
    → AgentClient
    → Result ProtocolEvent × AgentClient
unfolding ensure_initialized guarded_write
write_event h clock now pub_hex epoch s w c =
    guarded_write h now epoch s w (opened s (ensure_initialized h clock pub_hex c))

abbrev pub status_event : AgentStatus → EventType
status_event paused = agent_paused
status_event active = agent_resumed
status_event terminated = agent_terminated

unfoldable pub status_args : AgentStatus → AgentClient → Args
status_args status c = record {
  event_type = status_event status;
  workspace_id = c.workspace_id;
  wallet = c.owner_wallet;
  payload = ("status", str (status_name status)) ∷ [];
  agent_id = some c.agent_id;
  signature = "";
}

-- `_set_status` in a running loop, over a ledger without `update_agent_status`.
unfoldable pub set_status : AgentStatus → AgentClient → Result AgentClient
unfolding status_args
set_status status c = elim c.identity [
  | none ↦ err attribute_error
  | some a ↦ ok (record c {
    identity = some (record a { status = status });
    pending = c.pending ++ status_args status c ∷ [];
  })
]

abbrev pub pause : AgentClient → Result AgentClient
pause = set_status paused

abbrev pub resume : AgentClient → Result AgentClient
resume = set_status active

abbrev pub terminate : AgentClient → Result AgentClient
terminate = set_status terminated
