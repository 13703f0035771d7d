-- ===== src/EventStore/Chain.antt =====
-- `EventStoreEngine.append` of walrusos/engine/event_store.py over the ledger of
-- walrusos/adapters/sqlite_ledger.py: the hash chain of a workspace.
pub mod Rows
pub mod Written
pub mod Sound
use walrus_os.Base.{
  All, String, ◌<>◌, ◌≡◌, Bool, true, Option, none, some, List, [], ◌∷◌, ◌==◌, keep_if,
}
use walrus_os.Base.Dict.{values}
use walrus_os.Base.Result.{Result, ok, err}
use walrus_os.Model.Event.{ProtocolEvent}
use walrus_os.Adapters.Storage.{Storage, store_blob}
use walrus_os.Sqlite.Tables.{Database, ProtocolRow, Json}
use walrus_os.Sqlite.Protocol.{append_protocol_event, get_latest_event_hash}
use walrus_os.EventStore.{Env, Args, anchored, make_event}

-- A call of `append`, with the time of its blob and that of its event.
pub record Call : Type 0 where
  pub args : Args
  pub stored : String
  pub now : String

-- The storage and the database of an event store.
pub record Node : Type 0 where
  pub storage : Storage
  pub database : Database

-- The libraries with the methods of the database: its query for the latest hash, and the JSON that
-- it stores, which is that of the blob.
abbrev pub on_database : Env → Json → (String → String → Bool) → Database → Env
on_database env json before d = record env {
  dumps = json.dumps_payload;
  latest_event_hash = some (λ w. get_latest_event_hash before w d);
}

abbrev pub rows_of : String → Database → List ProtocolRow
rows_of w d = keep_if (λ r. r.workspace_id == w) (values d.protocol_events)

-- The events of the calls that have written one.
abbrev pub collect : Result ProtocolEvent → List ProtocolEvent → List ProtocolEvent
collect (ok e) es = e ∷ es
collect (err x) es = es

module _ (env : Env) (json : Json) (before : String → String → Bool) where
  -- The event of a call, after its anchoring.
  unfoldable pub next_event : Call → Database → ProtocolEvent
  unfolding anchored make_event
  next_event c d =
      let libs : Env = on_database env json before d in
      anchored libs (make_event libs c.args (env.sha256 (json.dumps_payload c.args.payload)) c.now)

  -- `append` up to the row of the event, with the event that it has written, or the exception of an
  -- id that is taken; what it does after that changes other tables and the index.
  unfoldable pub log_event : Call → Node → Result ProtocolEvent × Node
  unfolding next_event append_protocol_event
  log_event c n =
      let bytes = json.dumps_payload c.args.payload in
      let storage = (store_blob env.sha256 bytes "application/json" c.stored n.storage).1 in
      let e = next_event c n.database in
      elim (append_protocol_event json e n.database) [
        | err x ↦ (err x, record n { storage = storage })
        | ok d ↦ (ok e, record { storage = storage; database = d })
      ]

  -- A run of calls, and the events that they have written.
  unfoldable pub log_all : List Call → Node → List ProtocolEvent × Node
  unfolding log_event
  log_all [] n = ([], n)
  log_all (c ∷ cs) n =
      let (r, n') = log_event c n in let (es, last) = log_all cs n' in (collect r es, last)

-- Each call is earlier than all that follow it.
abbrev pub Rises : (String → String → Bool) → List Call → Type 0
Rises before [] = Unit
Rises before (c ∷ cs) = All (λ d. before c.now d.now ≡ true) cs × Rises before cs

-- What the id of an event hashes: its JSON, after the id of the event before it and a colon.
abbrev pub material : Option String → String → String
material none json = json
material (some previous) json = previous <> ":" <> json

-- Each row names the row before it and hashes its own JSON with that row's id.
abbrev pub Linked : (String → String) → Option String → List ProtocolRow → Type 0
Linked sha256 previous [] = Unit
Linked sha256 previous (r ∷ rs) =
    (r.previous_hash ≡ previous)
    × (r.event_id ≡ sha256 (material previous r.payload_json))
    × (r.blob_hash ≡ some (sha256 r.payload_json))
    × Linked sha256 (some r.event_id) rs
