-- ===== src/Memory/Restore.antt =====
-- Checkpoints and snapshots: `checkpoint`, `resume`, `snapshot`, `restore_snapshot`.
pub mod Epoch
pub mod Forgets
use walrus_os.Base.{ℕ, ◌+◌, String, ◌||◌, none, some, List, [], ◌∷◌, or_default, if◌then◌else◌}
use walrus_os.Base.Dict.{lookup, insert, pop}
use walrus_os.Base.Result.{Result, ok, err, value_error, ◌>>=◌}
use walrus_os.Model.Value.{Payload, Value, str, num, get, get_or}
use walrus_os.Projection.Agent.{is_text}
use walrus_os.Adapters.Storage.{store_blob, retrieve_blob}
use walrus_os.Adapters.Ledger.{StoredEvent, memory, protocol, get_head}
use walrus_os.Memory.State.{Engine, Action, Env, Fresh, Snapshot, EventData}
use walrus_os.Memory.Append.{append, plain}
use walrus_os.Memory.Read.{timeline, load}
use walrus_os.Memory.Branch.{create_stream}

abbrev pub checkpoint_payload : String → String → ℕ → String → Payload
checkpoint_payload stream_id head epoch ts =
    ("type", str "checkpoint")
    ∷ ("stream_id", str stream_id)
    ∷ ("head", str head)
    ∷ ("epoch", num epoch)
    ∷ ("ts", str ts)
    ∷ []

unfoldable pub checkpoint : Env → String → Fresh → Engine → String × Engine
checkpoint env stream_id f s =
    let head = or_default (get_head stream_id s.ledger) "genesis" in
    let epoch = or_default (lookup stream_id s.epochs) 0 in
    let bytes = env.dumps (checkpoint_payload stream_id head epoch f.ts) in
    let (blob, storage) = store_blob env.sha256 bytes "application/json" f.now s.storage in
    (blob, record s { storage = storage })

-- `data.get("epoch", 0)` as a counter: a number, in the blobs that the engine writes
abbrev pub as_epoch : Value → ℕ
as_epoch (num n) = n
as_epoch _ = 0

unfoldable pub resume_from : String → Payload → Engine → Result Engine
resume_from stream_id saved s =
    let kind = get "type" saved in
    if is_text "checkpoint" kind || is_text "snapshot" kind
    then ok
        (record s { epochs = insert stream_id (as_epoch (get_or "epoch" (num 0) saved)) s.epochs })
    else err value_error

unfoldable pub resume : Env → String → String → Engine → Result Engine
unfolding resume_from load
resume env stream_id blob s = load env blob s >>= λ saved. resume_from stream_id saved s

-- One entry of a snapshot; no event has a field `class_type`, so it is always the default.
unfoldable pub event_data : StoredEvent → Payload → ℕ → EventData
event_data (memory e) p i = record {
  id = e.id;
  parent_id = some e.parent_id;
  epoch = e.epoch;
  class_type = "episodic";
  content_blob_id = some e.content_blob_id;
  payload = p;
}
event_data (protocol e) p i = record {
  id = e.event_id;
  parent_id = e.parent_event;
  epoch = i;
  class_type = "episodic";
  content_blob_id = e.blob_id;
  payload = p;
}

unfoldable pub events_data : ℕ → List (StoredEvent × Payload) → List EventData
unfolding event_data
events_data i [] = []
events_data i ((e, p) ∷ tl) = event_data e p i ∷ events_data (i + 1) tl

unfoldable pub snapshot_of : Env → String → Fresh → Engine → Snapshot
unfolding events_data
snapshot_of env stream_id f s = record {
  stream_id = stream_id;
  events = events_data 1 (timeline env stream_id s);
  ts = f.ts;
}

unfoldable pub snapshot : Env → String → Fresh → Engine → String × Engine
unfolding snapshot_of
snapshot env stream_id f s =
    let bytes = env.dumps_snapshot (snapshot_of env stream_id f s) in
    let (blob, storage) = store_blob env.sha256 bytes "application/json" f.now s.storage in
    (blob, record s { storage = storage })

unfoldable pub restored_payload : String → Payload → Payload
restored_payload blob p = insert "_restored_from_snapshot" (str blob) (pop "_signature" p)

-- The loop of `restore_snapshot`; each append draws its own clock and nonce.
unfoldable pub restore_events :
    Env → String → String → (ℕ → Fresh) → ℕ → List EventData → Action String
unfolding restored_payload
restore_events env blob stream_id f i [] s = (ok stream_id, s)
restore_events env blob stream_id f i (d ∷ ds) s =
    let (r, s') =
      append env (plain stream_id d.class_type (restored_payload blob d.payload)) (f i) s in
    elim r [ err x ↦ (err x, s') | ok e ↦ restore_events env blob stream_id f (i + 1) ds s' ]

unfoldable pub restore_snapshot : Env → String → String → (ℕ → Fresh) → Action String
unfolding restore_events create_stream
restore_snapshot env blob new_id f s = elim (retrieve_blob blob s.storage) [
  | err x ↦ (err x, s)
  | ok raw ↦ elim (env.loads_snapshot raw) [
    | none ↦ (err value_error, s)
    | some saved ↦
        let (stream_id, s') = create_stream new_id s in
        restore_events env blob stream_id f 0 saved.events s'
  ]
]
