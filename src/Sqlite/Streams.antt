-- ===== src/Sqlite/Streams.antt =====
-- `SQLiteLedger`: the memory streams and their events.
use walrus_os.Base.{
  ℕ, String, Bool, Option, none, some, List, [], ◌∷◌, ◌==◌, keep_if, if◌then◌else◌,
}
use walrus_os.Base.Dict.{Dict, lookup, insert, pop, values}
use walrus_os.Base.Result.{Result, ok, err, or_raise, json_error, value_error, all_ok, ◌>>=◌}
use walrus_os.Model.Event.{MemoryEvent, is_memory_type}
use walrus_os.Sqlite.Tables.{Database, StreamRow, EventRow, Json, add_row, order_by}

-- A row with the defaults of its columns.
abbrev pub new_stream : String → String → String → StreamRow
new_stream stream_id agent_id now = record {
  stream_id = stream_id;
  agent_id = agent_id;
  head_event_id = "genesis";
  epoch_counter = 0;
  created_at = now;
}

-- `uuid.uuid4()` is the second argument.
unfoldable pub create_stream : String → String → String → Database → Result (String × Database)
unfolding add_row
create_stream agent_id stream_id now d =
    add_row stream_id (new_stream stream_id agent_id now) d.memory_streams >>= λ rows.
    ok (stream_id, record d { memory_streams = rows })

unfoldable pub register_stream : String → String → String → Database → Database
register_stream stream_id agent_id now d = elim (lookup stream_id d.memory_streams) [
  | some row ↦ d
  | none ↦ record d {
    memory_streams = insert stream_id (new_stream stream_id agent_id now) d.memory_streams;
  }
]

-- The rows of a table that a select names are deleted one by one, by their keys.
unfoldable pub delete_where : (EventRow → Bool) → Dict EventRow → Dict EventRow
delete_where p [] = []
delete_where p ((k, r) ∷ d) = let rest = delete_where p d in if p r then rest else (k, r) ∷ rest

unfoldable pub delete_stream : String → Database → Database
unfolding delete_where
delete_stream stream_id d = record d {
  memory_events = delete_where (λ r. r.stream_id == stream_id) d.memory_events;
  memory_streams = pop stream_id d.memory_streams;
}

abbrev pub dumps_nonempty : (List String → String) → List String → Option String
dumps_nonempty dumps [] = none
dumps_nonempty dumps (x ∷ xs) = some (dumps (x ∷ xs))

abbrev pub dumps_optional : (List String → String) → Option (List String) → Option String
dumps_optional dumps none = none
dumps_optional dumps (some xs) = dumps_nonempty dumps xs

unfoldable pub event_row : Json → String → String → MemoryEvent → EventRow
event_row json now stream_id e = record {
  id = e.id;
  stream_id = stream_id;
  parent_id = e.parent_id;
  epoch = e.epoch;
  memory_type = e.memory_type;
  tags = dumps_nonempty json.dumps_list e.tags;
  importance = e.importance;
  summary = e.summary;
  embedding = dumps_optional json.dumps_floats e.embedding;
  project = e.project;
  content_blob_id = e.content_blob_id;
  agent_id = e.agent_id;
  event_hash = e.event_hash;
  signature = e.signature;
  public_key = e.public_key;
  created_at = now;
}

-- The row of the stream, which is made if it is missing.
unfoldable pub stream_row : String → String → Dict StreamRow → StreamRow
stream_row stream_id now rows = elim (lookup stream_id rows) [
  | some row ↦ row
  | none ↦ new_stream stream_id "unknown" now
]

-- One transaction: a repeated id leaves the stream's row as it was too.
unfoldable pub append_event : Json → String → String → MemoryEvent → Database → Result Database
unfolding add_row event_row stream_row
append_event json now stream_id e d =
    add_row e.id (event_row json now stream_id e) d.memory_events >>= λ rows.
    let row : StreamRow = record (stream_row stream_id now d.memory_streams) {
      head_event_id = e.id;
      epoch_counter = e.epoch;
    } in
    ok (record d { memory_events = rows; memory_streams = insert stream_id row d.memory_streams })

-- `json.loads(t) if t else []`, and the same with `None`
abbrev pub loads_or_empty : (String → Option (List String)) → Option String → Result (List String)
loads_or_empty loads none = ok []
loads_or_empty loads (some t) = if t == "" then ok [] else or_raise (loads t) json_error

abbrev pub loads_or_none :
    (String → Option (List String)) → Option String → Result (Option (List String))
loads_or_none loads none = ok none
loads_or_none loads (some t) =
    if t == "" then ok none else (or_raise (loads t) json_error >>= λ xs. ok (some xs))

-- `MemoryEvent(...)` of a row; the model refuses a memory type that it does not know.
unfoldable pub to_memory_event : Json → EventRow → Result MemoryEvent
to_memory_event json r = loads_or_empty json.loads_list r.tags >>= λ tags.
    loads_or_none json.loads_floats r.embedding >>= λ embedding.
    let e : MemoryEvent = record {
      id = r.id;
      stream_id = r.stream_id;
      parent_id = r.parent_id;
      epoch = r.epoch;
      memory_type = r.memory_type;
      tags = tags;
      importance = r.importance;
      summary = r.summary;
      embedding = embedding;
      project = r.project;
      content_blob_id = r.content_blob_id;
      attributions = [];
      agent_id = r.agent_id;
      event_hash = r.event_hash;
      signature = r.signature;
      public_key = r.public_key;
    } in
    if is_memory_type r.memory_type then ok e else err value_error

abbrev pub shown_head : Option StreamRow → Option String
shown_head none = none
shown_head (some row) = if row.head_event_id == "genesis" then none else some row.head_event_id

unfoldable pub get_head : String → Database → Option String
get_head stream_id d = shown_head (lookup stream_id d.memory_streams)

unfoldable pub list_events : Json → String → Database → Result (List MemoryEvent)
unfolding order_by to_memory_event all_ok
list_events json stream_id d =
    all_ok (to_memory_event json)
      (order_by (λ r. r.epoch) (keep_if (λ r. r.stream_id == stream_id) (values d.memory_events)))

abbrev pub shown_counter : Option StreamRow → ℕ
shown_counter none = 0
shown_counter (some row) = row.epoch_counter

unfoldable pub get_epoch_counter : String → Database → ℕ
get_epoch_counter stream_id d = shown_counter (lookup stream_id d.memory_streams)
