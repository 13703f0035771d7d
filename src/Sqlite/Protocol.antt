-- ===== src/Sqlite/Protocol.antt =====
-- `SQLiteLedger`: the protocol events, and `get_event`, which looks among the memory events first.
use walrus_os.Base.{String, Option, none, some, List, [], ◌∷◌, ◌==◌, Bool, keep_if, if◌then◌else◌}
use walrus_os.Base.Dict.{lookup, values}
use walrus_os.Base.Result.{Result, ok, or_raise, json_error, value_error, all_ok, ◌>>=◌}
use walrus_os.Model.Event.{ProtocolEvent, type_name, event_type_of}
use walrus_os.Adapters.Ledger.{StoredEvent, memory, protocol}
use walrus_os.Sqlite.Tables.{Database, ProtocolRow, Json, add_row}
use walrus_os.Sqlite.Streams.{to_memory_event}

unfoldable pub protocol_row : Json → ProtocolEvent → ProtocolRow
protocol_row json e = record {
  event_id = e.event_id;
  event_type = type_name e.event_type;
  workspace_id = e.workspace_id;
  agent_id = e.agent_id;
  wallet = e.wallet;
  blob_id = e.blob_id;
  blob_hash = e.blob_hash;
  parent_event = e.parent_event;
  previous_hash = e.previous_hash;
  signature = e.signature;
  timestamp = e.timestamp;
  transaction_digest = e.transaction_digest;
  payload_json = json.dumps_payload e.payload;
}

unfoldable pub append_protocol_event : Json → ProtocolEvent → Database → Result Database
unfolding protocol_row add_row
append_protocol_event json e d =
    add_row e.event_id (protocol_row json e) d.protocol_events >>= λ rows.
    ok (record d { protocol_events = rows })

-- `EventType(...)` and `json.loads` may raise.
unfoldable pub to_protocol_event : Json → ProtocolRow → Result ProtocolEvent
to_protocol_event json r = or_raise (event_type_of r.event_type) value_error >>= λ ty.
    or_raise (json.loads_payload r.payload_json) json_error >>= λ payload. ok (record {
      event_id = r.event_id;
      event_type = ty;
      workspace_id = r.workspace_id;
      agent_id = r.agent_id;
      wallet = r.wallet;
      blob_id = r.blob_id;
      blob_hash = r.blob_hash;
      parent_event = r.parent_event;
      previous_hash = r.previous_hash;
      signature = r.signature;
      timestamp = r.timestamp;
      transaction_digest = r.transaction_digest;
      payload = payload;
    })

-- A null column is equal to nothing.
abbrev pub is_column : Option String → String → Bool
is_column none s = Bool.false
is_column (some t) s = t == s

-- The order of the database on texts, by which it sorts the timestamps.
module _ (before : String → String → Bool) where
  -- ORDER BY timestamp; rows that tie keep their order.
  unfoldable pub place_time : ProtocolRow → List ProtocolRow → List ProtocolRow
  place_time x [] = x ∷ []
  place_time x (y ∷ ys) =
      let rest = place_time x ys in if before y.timestamp x.timestamp then y ∷ rest else x ∷ y ∷ ys

  unfoldable pub by_time : List ProtocolRow → List ProtocolRow
  unfolding place_time
  by_time [] = []
  by_time (x ∷ xs) = place_time x (by_time xs)

  unfoldable pub get_events_for_agent : Json → String → Database → Result (List ProtocolEvent)
  unfolding by_time to_protocol_event all_ok
  get_events_for_agent json agent_id d =
      all_ok (to_protocol_event json)
        (by_time (keep_if (λ r. is_column r.agent_id agent_id) (values d.protocol_events)))

  unfoldable pub get_events_for_workspace : Json → String → Database → Result (List ProtocolEvent)
  unfolding by_time to_protocol_event all_ok
  get_events_for_workspace json workspace_id d =
      all_ok (to_protocol_event json)
        (by_time (keep_if (λ r. r.workspace_id == workspace_id) (values d.protocol_events)))

  -- ORDER BY timestamp DESC, LIMIT 1: the first of the rows that no other is later than.
  unfoldable pub last_row : List ProtocolRow → Option ProtocolRow
  last_row [] = none
  last_row (x ∷ xs) = elim (last_row xs) [
    | none ↦ some x
    | some y ↦ some (if before x.timestamp y.timestamp then y else x)
  ]

  unfoldable pub get_latest_event_hash : String → Database → Option String
  unfolding last_row
  get_latest_event_hash workspace_id d =
      elim (last_row (keep_if (λ r. r.workspace_id == workspace_id) (values d.protocol_events))) [
        | none ↦ none
        | some r ↦ some r.event_id
      ]

unfoldable pub get_protocol : Json → String → Database → Result (Option StoredEvent)
unfolding to_protocol_event
get_protocol json event_id d = elim (lookup event_id d.protocol_events) [
  | none ↦ ok none
  | some r ↦ to_protocol_event json r >>= λ e. ok (some (protocol e))
]

unfoldable pub get_event : Json → String → Database → Result (Option StoredEvent)
unfolding to_memory_event get_protocol
get_event json event_id d = elim (lookup event_id d.memory_events) [
  | some r ↦ to_memory_event json r >>= λ e. ok (some (memory e))
  | none ↦ get_protocol json event_id d
]
