-- ===== src/Recovery/Engine.antt =====
-- The loop of `recover`: validation, hydration, verification, and the two writes.
use walrus_os.Base.{
  ℕ, ◌+◌, String, ◌<>◌, Bool, true, false, not, ◌&&◌, ◌||◌, Option, none, some, List, [], ◌∷◌, ◌==◌,
  or_default, if◌then◌else◌,
}
use walrus_os.Base.Result.{Result, ok, err, or_raise, value_error, type_error, ◌>>=◌, ◌>>◌}
use walrus_os.Model.Value.{Payload, Value, null, str, get, get_or, truthy, as_text, text_values}
use walrus_os.Model.Event.{ProtocolEvent, EventType, event_type_of, is_memory_appended}
use walrus_os.Model.Crypto.{Primitives, canonicalize_payload, hash_payload}
use walrus_os.Projection.Agent.{is_text}
use walrus_os.Replay.BlobId.{valid_blob_id}
use walrus_os.Replay.Engine.{is_signed, signed_by}
use walrus_os.Sqlite.Tables.{Database, Json}
use walrus_os.Sqlite.Protocol.{append_protocol_event}

-- A header of an anchored event is a dict.
abbrev pub Header : Type 0
Header = Payload

-- What the recovery calls: the storage's `retrieve_blob` and the decoding of JSON, which are `none`
-- where they raise (JSON that is no dict is `some none`); the text that the database makes of a
-- value in a text column, `none` where it raises; and the JSON of the ledger.
pub record Env : Type 0 where
  pub fetch : String → Option String
  pub loads : String → Option (Option Payload)
  pub column : Value → Option String
  pub json : Json

-- A document that is handed to the vector index.
pub record Document : Type 0 where
  pub doc_id : String
  pub text : String
  pub workspace_id : String
  pub agent_id : Option String

-- What the loop changes: the local SQLite ledger, the documents indexed so far, and the count.
pub record State : Type 0 where
  pub ledger : Database
  pub indexed : List Document
  pub recovered : ℕ

unfoldable pub join : String → List String → String
join sep [] = ""
join sep (s ∷ []) = s
join sep (s ∷ t ∷ ts) = s <> sep <> join sep (t ∷ ts)

abbrev pub lost : Payload
lost = ("_status", str "PayloadLost") ∷ []

-- `payload_dict.get("_status") == "PayloadLost"`
abbrev pub is_lost : Payload → Bool
is_lost p = is_text "PayloadLost" (get "_status" p)

-- A field that the model of the event declares as `str`, and one that it declares as optional; a
-- value of another type does not validate.
abbrev pub text_field : Value → Result String
text_field (str s) = ok s
text_field _ = err value_error

abbrev pub optional_field : Value → Result (Option String)
optional_field null = ok none
optional_field (str s) = ok (some s)
optional_field _ = err value_error

-- `EventType(header.get("event_type", "MemoryAppended"))`
abbrev pub type_field : Value → Result EventType
type_field v = text_field v >>= λ s. or_raise (event_type_of s) value_error

-- The timestamp of the payload, which is assigned with no validation if it counts as true, as the
-- database stores it.
unfoldable pub timestamp_of : (Value → Option String) → Payload → Option String
timestamp_of column p =
    let v = get "timestamp" p in
    if truthy v then elim (as_text v) [ some s ↦ some s | none ↦ column v ] else some ""

-- The event of a header; a payload that is no dict, here `none`, does not validate.
unfoldable pub event_of :
    (Value → Option String) → Header → Option String → Option Payload → Result ProtocolEvent
unfolding timestamp_of
event_of column h blob_id payload = do
  event_type ← type_field (get_or "event_type" (str "MemoryAppended") h)
  event_id ← text_field (get "event_id" h)
  workspace_id ← text_field (get_or "workspace_id" (str "") h)
  agent_id ← optional_field (get_or "agent_id" (str "") h)
  wallet ← text_field (get_or "wallet" (str "") h)
  blob_hash ← optional_field (get "blob_hash" h)
  parent_event ← optional_field (get "parent_event" h)
  previous_hash ← optional_field (get "previous_hash" h)
  signature ← text_field (get_or "signature" (str "") h)
  p ← or_raise payload value_error
  ok (record {
    event_id = event_id;
    event_type = event_type;
    workspace_id = workspace_id;
    agent_id = agent_id;
    wallet = wallet;
    blob_id = blob_id;
    blob_hash = blob_hash;
    parent_event = parent_event;
    previous_hash = previous_hash;
    signature = signature;
    timestamp = or_default (timestamp_of column p) "";
    transaction_digest = none;
    payload = p;
  })

-- The payload of a blob, or that of a lost one where the storage or the decoding raises; `none` is
-- JSON that is no dict.
unfoldable pub load_blob : Env → String → Option Payload
load_blob env blob_id = elim (env.fetch blob_id) [
  | none ↦ some lost
  | some bytes ↦ if bytes == "" then some lost else or_default (env.loads bytes) (some lost)
]

unfoldable pub hydrate : Env → Option String → Option Payload
unfolding load_blob
hydrate env none = some lost
hydrate env (some blob_id) =
    if blob_id == "" || blob_id == "null" then some lost else load_blob env blob_id

module _ (c : Primitives) where
  -- Step 3, `false` for an event that is dropped: a failed check or any exception.
  unfoldable pub verified : ProtocolEvent → Bool
  unfolding canonicalize_payload hash_payload signed_by
  verified e =
      if not (is_lost e.payload) && is_signed e
      then elim (canonicalize_payload c e.payload) [
        | none ↦ false
        | some bytes ↦
            if truthy (get "public_key" e.payload)
            then signed_by c (get "public_key" e.payload) (hash_payload c bytes) e.signature
            else true
      ]
      else true

-- Step 5
unfoldable pub reindex : ProtocolEvent → List Document → List Document
reindex e docs = elim (text_values e.payload) [
  | [] ↦ docs
  | t ∷ ts ↦
      if is_memory_appended e.event_type && not (is_lost e.payload)
      then (record {
        doc_id = e.event_id;
        text = join " " (t ∷ ts);
        workspace_id = e.workspace_id;
        agent_id = e.agent_id;
      })
        ∷ docs
      else docs
]

-- Steps 4 and 5 for an event that passed. The ledger raises if the database cannot store the
-- timestamp, or has an event with the id; then the state is left as it is.
unfoldable pub write : Env → ProtocolEvent → State → Result State
unfolding reindex timestamp_of append_protocol_event
write env e s =
    or_raise (timestamp_of env.column e.payload) type_error
    >> append_protocol_event env.json e s.ledger
    >>= λ l. ok (record { ledger = l; indexed = reindex e s.indexed; recovered = s.recovered + 1 })

abbrev pub write_accepted : Env → Option ProtocolEvent → State → Result State
write_accepted env none s = ok s
write_accepted env (some e) s = write env e s

module _ (c : Primitives) (env : Env) where
  -- One header: the event to write, none if it is dropped, or an exception that ends the recovery.
  unfoldable pub accept : Header → Result (Option ProtocolEvent)
  unfolding hydrate event_of verified
  accept h = optional_field (get "blob_id" h) >>= λ blob_id.
      if valid_blob_id blob_id
      then (event_of env.column h blob_id (hydrate env blob_id) >>= λ e.
          ok (if verified c e then some e else none))
      else ok none

  -- The loop. An exception leaves what was written before it.
  unfoldable pub recover_from : List Header → State → Result (Unit {0}) × State
  recover_from [] s = (ok tt, s)
  recover_from (h ∷ hs) s = elim (accept h >>= λ e. write_accepted env e s) [
    | err x ↦ (err x, s)
    | ok s' ↦ recover_from hs s'
  ]

  unfoldable pub recover : List Header → Database → Result (Unit {0}) × State
  unfolding recover_from
  recover headers l = recover_from headers (record { ledger = l; indexed = []; recovered = 0 })
