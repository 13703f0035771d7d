-- ===== src/EventStore.antt =====
-- `EventStoreEngine.append` of walrusos/engine/event_store.py, over the in-memory adapters.
pub mod Recorded
pub mod Chain
use walrus_os.Base.{String, ◌<>◌, Option, none, some, List, [], ◌∷◌, ◌==◌, if◌then◌else◌}
use walrus_os.Base.Result.{Result, ok, err, attribute_error}
use walrus_os.Model.Value.{
  Payload, Value, str, num, strs, null, get, get_or, truthy, text_values, raw,
}
use walrus_os.Model.Event.{ProtocolEvent, MemoryEvent, EventType, is_memory_appended}
use walrus_os.Adapters.Storage.{Storage, store_blob}
use walrus_os.Adapters.Ledger.{Ledger, memory, append_event, append_protocol_event}
use walrus_os.Adapters.Vector.{Vector, upsert}
use walrus_os.Recovery.Engine.{join}

pub record EventStore : Type 0 where
  pub ledger : Ledger
  pub storage : Storage
  pub vector : Vector

-- The keyword arguments of the memory event, before the model validates them.
pub record Draft : Type 0 where
  pub id : String
  pub stream_id : String
  pub parent_id : Value
  pub epoch : Value
  pub memory_type : Value
  pub tags : Value
  pub importance : Value
  pub summary : Value
  pub project : Value
  pub content_blob_id : String
  pub agent_id : Option String
  pub event_hash : Option String
  pub signature : String
  pub public_key : Value

-- The libraries: SHA-256, JSON, the parsing of a UUID (`none` is a `ValueError`), the validation of
-- a memory event (`none` again), the tokenizer; and two optional methods of a ledger, the second of
-- which may raise.
pub record Env : Type 0 where
  pub sha256 : String → String
  pub dumps : Payload → String
  pub parse_uuid : String → Option String
  pub validate : Draft → Option MemoryEvent
  pub tokenize : String → List String
  pub latest_event_hash : Option (String → Option String)
  pub anchor : Option (ProtocolEvent → Result (Option String))

-- `_compute_event_hash`: an empty previous hash counts as none.
unfoldable pub compute_event_hash : Env → String → Option String → String
compute_event_hash env bytes none = env.sha256 bytes
compute_event_hash env bytes (some previous) =
    if previous == "" then env.sha256 bytes else env.sha256 (previous <> ":" <> bytes)

abbrev pub previous_hash_of : Env → String → Option String
previous_hash_of env workspace_id = elim env.latest_event_hash [
  | none ↦ none
  | some latest ↦ latest workspace_id
]

pub record Args : Type 0 where
  pub event_type : EventType
  pub workspace_id : String
  pub wallet : String
  pub payload : Payload
  pub agent_id : Option String
  pub signature : String

unfoldable pub make_event : Env → Args → String → String → ProtocolEvent
unfolding compute_event_hash
make_event env a blob_id now = record {
  event_id = compute_event_hash env (env.dumps a.payload) (previous_hash_of env a.workspace_id);
  event_type = a.event_type;
  workspace_id = a.workspace_id;
  agent_id = a.agent_id;
  wallet = a.wallet;
  blob_id = some blob_id;
  blob_hash = some (env.sha256 (env.dumps a.payload));
  parent_event = none;
  previous_hash = previous_hash_of env a.workspace_id;
  signature = a.signature;
  timestamp = now;
  transaction_digest = none;
  payload = a.payload;
}

-- An anchoring that raises, or that returns no digest, leaves the event as it is.
abbrev pub with_digest : ProtocolEvent → Result (Option String) → ProtocolEvent
with_digest e (err x) = e
with_digest e (ok none) = e
with_digest e (ok (some digest)) =
    if digest == "" then e else record e { transaction_digest = some digest }

unfoldable pub anchored : Env → ProtocolEvent → ProtocolEvent
anchored env e = elim env.anchor [ none ↦ e | some anchor ↦ with_digest e (anchor e) ]

-- `payload.get(k) or d`
abbrev pub or_value : Value → Value → Value
or_value v d = if truthy v then v else d

unfoldable pub draft : Args → ProtocolEvent → String → String → Draft
draft a e stream_id blob_id = record {
  id = e.event_id;
  stream_id = stream_id;
  parent_id = or_value (get "parent_id" a.payload) (str "genesis");
  epoch = or_value (get "epoch" a.payload) (num 0);
  memory_type = get_or "memory_type" (str "observation") a.payload;
  tags = or_value (get "tags" a.payload) (strs []);
  importance = get_or "importance" (raw "0.5") a.payload;
  summary = get "summary" a.payload;
  project = get "project" a.payload;
  content_blob_id = blob_id;
  agent_id = a.agent_id;
  event_hash = e.previous_hash;
  signature = a.signature;
  public_key = get "public_key" a.payload;
}

-- What `append_event` makes of the memory event; its `ValueError` is caught.
abbrev pub put_memory : String → MemoryEvent → Ledger → Ledger
put_memory stream_id m l = elim (append_event stream_id (memory m) l) [ err x ↦ l | ok l' ↦ l' ]

-- The block under `try`.
unfoldable pub record_memory : Env → Args → ProtocolEvent → String → String → Ledger → Ledger
unfolding draft
record_memory env a e blob_id text l = elim (env.parse_uuid text) [
  | none ↦ l
  | some stream_id ↦ elim (env.validate (draft a e stream_id blob_id)) [
    | none ↦ l
    | some m ↦ put_memory stream_id m l
  ]
]

-- A stream id that is no text has no method that the parser needs, and this is not caught.
abbrev pub record_stream : Env → Args → ProtocolEvent → String → Value → Ledger → Result Ledger
record_stream env a e blob_id (str text) l =
    ok (if text == "" then l else record_memory env a e blob_id text l)
record_stream env a e blob_id v l = if truthy v then err attribute_error else ok l

abbrev pub or_none : Option String → Value
or_none none = null
or_none (some s) = str s

unfoldable pub index_texts : Env → Args → ProtocolEvent → Vector → Vector
unfolding text_values
index_texts env a e v = elim (text_values a.payload) [
  | [] ↦ v
  | t ∷ ts ↦
      upsert env.tokenize e.event_id (join " " (t ∷ ts))
        (("workspace_id", str a.workspace_id) ∷ ("agent_id", or_none a.agent_id) ∷ []) v
]

-- The steps that only a `MemoryAppended` event has; the index is written before the stream.
unfoldable pub remember :
    Env → Args → ProtocolEvent → String → EventStore → Result ProtocolEvent × EventStore
unfolding index_texts record_memory
remember env a e blob_id s =
    let s' : EventStore = record s { vector = index_texts env a e s.vector } in
    elim (record_stream env a e blob_id (get "stream_id" a.payload) s.ledger) [
      | err x ↦ (err x, s')
      | ok l ↦ (ok e, record s' { ledger = l })
    ]

-- `append`; `now` is the time of the event, `stored` that of the blob.
unfoldable pub append :
    Env → Args → String → String → EventStore → Result ProtocolEvent × EventStore
unfolding make_event anchored remember
append env a stored now s =
    let (blob_id, storage) =
      store_blob env.sha256 (env.dumps a.payload) "application/json" stored s.storage in
    let e = anchored env (make_event env a blob_id now) in
    let s' : EventStore = record s {
      storage = storage;
      ledger = append_protocol_event e s.ledger;
    } in
    if is_memory_appended a.event_type then remember env a e blob_id s' else (ok e, s')
