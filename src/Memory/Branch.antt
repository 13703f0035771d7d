-- ===== src/Memory/Branch.antt =====
-- Streams: `register_stream`, `create_stream`, `delete_stream`, `fork` and `merge`.
pub mod Fork
pub mod Delete
pub mod Merge
use walrus_os.Base.{ℕ, String, ◌<>◌, none, some, List, [], ◌∷◌, or_default, if◌then◌else◌}
use walrus_os.Base.Dict.{insert, pop, has_key}
use walrus_os.Base.Result.{Result, ok, err, key_error}
use walrus_os.Model.Value.{Payload, str, num}
use walrus_os.Model.Event.{MemoryEvent}
use walrus_os.Adapters.Storage.{Storage, store_blob, delete_blob}
use walrus_os.Adapters.Ledger.{
  Ledger, StoredEvent, memory, protocol, stored_id, get_event, get_head, list_events, append_event,
}
use walrus_os.Adapters.Ledger
use walrus_os.Adapters.Vector
use walrus_os.Adapters.Vector.{Vector}
use walrus_os.Memory.State.{Engine, Action, Env, Fresh, next_epoch}
use walrus_os.Memory.Append.{append, plain, event_id}

-- The in-memory ledger has no `register_stream`, so the fallback runs.
unfoldable pub register_ledger : String → Ledger → Ledger
register_ledger stream_id l =
    if has_key stream_id l.streams
    then l
    else record l { streams = insert stream_id "genesis" l.streams }

unfoldable pub register_stream : String → Engine → Engine
unfolding register_ledger
register_stream stream_id s = record s { ledger = register_ledger stream_id s.ledger }

-- The new id is that of `uuid4`.
unfoldable pub create_stream : String → Engine → String × Engine
create_stream new_id s =
    let (stream_id, l) = Ledger.create_stream new_id s.ledger in
    (stream_id, record s { ledger = l })

abbrev pub blob_ids : StoredEvent → List String
blob_ids (memory e) = e.content_blob_id ∷ []
blob_ids (protocol e) = elim e.blob_id [ none ↦ [] | some b ↦ b ∷ [] ]

unfoldable pub delete_blobs : List String → Storage → Storage
delete_blobs [] s = s
delete_blobs (b ∷ bs) s = delete_blobs bs (delete_blob b s)

-- The blobs and the vectors of the events, none of which raises in these adapters.
unfoldable pub delete_content : List StoredEvent → Engine → Engine
unfolding delete_blobs
delete_content [] s = s
delete_content (e ∷ es) s = delete_content es (record s {
  storage = delete_blobs (blob_ids e) s.storage;
  vector = Vector.delete (stored_id e) s.vector;
})

unfoldable pub forget : String → Engine → Engine
forget stream_id s = record s {
  ledger = Ledger.delete_stream stream_id s.ledger;
  epochs = pop stream_id s.epochs;
}

unfoldable pub delete_stream : String → Engine → Engine
unfolding delete_content forget
delete_stream stream_id s = forget stream_id (delete_content (list_events stream_id s.ledger) s)

-- `getattr(event, "epoch", 0)`
abbrev pub epoch_of : StoredEvent → ℕ
epoch_of (memory e) = e.epoch
epoch_of (protocol e) = 0

unfoldable pub fork_payload : String → String → StoredEvent → Payload
fork_payload stream_id from_event_id e =
    ("system", str "fork")
    ∷ ("forked_from", str stream_id)
    ∷ ("fork_event_id", str from_event_id)
    ∷ ("fork_epoch", num (epoch_of e))
    ∷ []

abbrev pub as_result : {A B : Type 0} → B → Result A → Result B
as_result b (ok a) = ok b
as_result b (err x) = err x

unfoldable pub fork : Env → String → String → String → Fresh → Action String
unfolding create_stream fork_payload
fork env stream_id from_event_id new_id f s = elim (get_event from_event_id s.ledger) [
  | none ↦ (err key_error, s)
  | some e ↦
      let (new_stream, s') = create_stream new_id s in
      let (r, s'') =
        append env (plain new_stream "system" (fork_payload stream_id from_event_id e)) f s' in
      (as_result new_stream r, s'')
]

unfoldable pub merge_payload : String → String → String → Payload
merge_payload source source_head target_head =
    ("system", str "merge")
    ∷ ("source_stream", str source)
    ∷ ("source_head", str source_head)
    ∷ ("target_head", str target_head)
    ∷ []

-- The argument `class_type` is no field of the model, so the memory type is its default.
unfoldable pub merge_event : Env → String → String → String → ℕ → Fresh → MemoryEvent
unfolding event_id
merge_event env target parents blob epoch f = record {
  id = event_id env parents blob f;
  stream_id = target;
  parent_id = parents;
  epoch = epoch;
  memory_type = "observation";
  tags = [];
  importance = "0.5";
  summary = none;
  embedding = none;
  project = none;
  content_blob_id = blob;
  attributions = [];
  agent_id = none;
  event_hash = none;
  signature = none;
  public_key = none;
}

abbrev pub put_event : String → MemoryEvent → Action MemoryEvent
put_event stream_id e s = elim (append_event stream_id (memory e) s.ledger) [
  | err x ↦ (err x, s)
  | ok l ↦ (ok e, record s { ledger = l })
]

unfoldable pub merge : Env → String → String → Fresh → Action MemoryEvent
unfolding merge_event merge_payload
merge env target source f s =
    let target_head = or_default (get_head target s.ledger) "genesis" in
    let source_head = or_default (get_head source s.ledger) "genesis" in
    let bytes = env.dumps (merge_payload source source_head target_head) in
    let (blob, storage) = store_blob env.sha256 bytes "application/json" f.now s.storage in
    let (epoch, epochs) = next_epoch env target s.epochs in
    put_event target (merge_event env target (target_head <> "," <> source_head) blob epoch f)
      (record s { storage = storage; epochs = epochs })
