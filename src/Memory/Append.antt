-- ===== src/Memory/Append.antt =====
-- `MemoryEngine.append`
pub mod Committed
use walrus_os.Base.{
  leb, eqb, ◌||◌, all_of, ℕ, String, ◌<>◌, Bool, true, ◌&&◌, Option, none, some, List, [], ◌∷◌,
  ◌==◌, or_default, if◌then◌else◌,
}
use walrus_os.Base.Dict.{insert}
use walrus_os.Base.Result.{ok, err, value_error, permission_error}
use walrus_os.Model.Value.{Payload, str, num, obj, meta}
use walrus_os.Model.Event.{MemoryEvent, is_memory_type}
use walrus_os.Adapters.Storage.{store_blob}
use walrus_os.Adapters.Ledger.{memory, append_event, get_head}
use walrus_os.Adapters.Vector.{Vector, upsert}
use walrus_os.Replay.BlobId.{codes}
use walrus_os.Recovery.Engine.{join}
use walrus_os.Memory.State.{Engine, Action, Env, Fresh, next_epoch}

pub record SignatureBlock : Type 0 where
  pub event_hash : String
  pub signature : String
  pub public_key : String

-- The arguments of a call.
pub record Args : Type 0 where
  pub stream_id : String
  pub memory_type : String
  pub payload : Payload
  pub agent_id : Option String
  pub signature_block : Option SignatureBlock
  pub workspace_id : Option String
  pub tags : Option (List String)
  pub importance : String
  pub summary : Option String
  pub embedding : Option (List String)
  pub project : Option String

-- A call with the defaults for all but the first three.
abbrev pub plain : String → String → Payload → Args
plain stream_id memory_type payload = record {
  stream_id = stream_id;
  memory_type = memory_type;
  payload = payload;
  agent_id = none;
  signature_block = none;
  workspace_id = none;
  tags = none;
  importance = "0.5";
  summary = none;
  embedding = none;
  project = none;
}

-- Step 1, the check of CVE-WOS-005. It looks for a method `get_stream_workspace` of the ledger,
-- which no ledger of the repository has.
unfoldable pub belongs : Env → Args → Bool
belongs env a = elim a.workspace_id [
  | none ↦ true
  | some w ↦ elim env.stream_workspace [
    | none ↦ true
    | some f ↦ elim (f a.stream_id) [ none ↦ true | some sw ↦ sw == w ]
  ]
]

abbrev pub with_signature : Option SignatureBlock → Payload → Payload
with_signature none p = p
with_signature (some b) p =
    insert "_signature"
      (obj (
        ("event_hash", b.event_hash)
        ∷ ("signature", b.signature)
        ∷ ("public_key", b.public_key)
        ∷ []))
      p

-- The payload as it is stored, with its signature and its metadata.
unfoldable pub stored_payload : Args → Payload
stored_payload a =
    insert "_meta"
      (meta (record {
        tags = or_default a.tags [];
        importance = a.importance;
        summary = a.summary;
        project = a.project;
        memory_type = a.memory_type;
      }))
      (with_signature a.signature_block a.payload)

unfoldable pub event_id : Env → String → String → Fresh → String
event_id env parent blob f = env.sha256 (parent <> ":" <> blob <> ":" <> f.ts <> ":" <> f.nonce)

abbrev pub id_of : Option SignatureBlock → String → String
id_of none computed = computed
id_of (some b) computed = b.event_hash

abbrev pub hash_of : Option SignatureBlock → Option String
hash_of none = none
hash_of (some b) = some b.event_hash

abbrev pub signature_of : Option SignatureBlock → Option String
signature_of none = none
signature_of (some b) = some b.signature

abbrev pub key_of : Option SignatureBlock → Option String
key_of none = none
key_of (some b) = some b.public_key

unfoldable pub make_event : Env → Args → Fresh → String → String → ℕ → MemoryEvent
unfolding event_id
make_event env a f parent blob epoch = record {
  id = id_of a.signature_block (event_id env parent blob f);
  stream_id = a.stream_id;
  parent_id = parent;
  epoch = epoch;
  memory_type = a.memory_type;
  tags = or_default a.tags [];
  importance = a.importance;
  summary = a.summary;
  embedding = a.embedding;
  project = a.project;
  content_blob_id = blob;
  attributions = [];
  agent_id = a.agent_id;
  event_hash = hash_of a.signature_block;
  signature = signature_of a.signature_block;
  public_key = key_of a.signature_block;
}

-- The texts of the values that are texts or numbers.
unfoldable pub shown : Env → Payload → List String
shown env [] = []
shown env ((k, v) ∷ p) =
    let rest = shown env p in elim (env.show v) [ none ↦ rest | some s ↦ s ∷ rest ]

-- `not text.strip()`: every character is one that Python counts as white space.
abbrev pub is_space : ℕ → Bool
is_space c =
    leb 9 c && leb c 13
    || leb 28 c && leb c 32
    || eqb c 133
    || eqb c 160
    || eqb c 5760
    || leb 8192 c && leb c 8202
    || eqb c 8232
    || eqb c 8233
    || eqb c 8239
    || eqb c 8287
    || eqb c 12288

abbrev pub is_blank : String → Bool
is_blank text = all_of is_space (codes text)

unfoldable pub indexed : Env → String → String → Payload → Vector → Vector
indexed env id text metadata v = if is_blank text then v else upsert env.tokenize id text metadata v

-- Step 6
unfoldable pub index_event : Env → Args → MemoryEvent → Engine → Engine
unfolding shown indexed
index_event env a e s = record s {
  vector =
      indexed env e.id (join " " (shown env (stored_payload a)))
        (("stream_id", str a.stream_id)
          ∷ ("epoch", num e.epoch)
          ∷ ("agent_id", str (or_default a.agent_id ""))
          ∷ [])
        s.vector;
}

-- Step 5 and 6: the model validates its memory type, and then the ledger takes the event.
unfoldable pub commit : Env → Args → MemoryEvent → Action MemoryEvent
commit env a e s =
    if is_memory_type a.memory_type
    then elim (append_event a.stream_id (memory e) s.ledger) [
      | err x ↦ (err x, s)
      | ok l ↦ (ok e, index_event env a e (record s { ledger = l }))
    ]
    else (err value_error, s)

-- The state when the event is made: the blob is stored and the epoch is taken.
unfoldable pub prepare : Env → Args → Fresh → Engine → MemoryEvent × Engine
prepare env a f s =
    let parent = or_default (get_head a.stream_id s.ledger) "genesis" in
    let (blob, storage) =
      store_blob env.sha256 (env.dumps (stored_payload a)) "application/json" f.now s.storage in
    let (epoch, epochs) = next_epoch env a.stream_id s.epochs in
    (make_event env a f parent blob epoch, record s { storage = storage; epochs = epochs })

unfoldable pub append : Env → Args → Fresh → Action MemoryEvent
append env a f s =
    if belongs env a
    then (let (e, s') = prepare env a f s in commit env a e s')
    else (err permission_error, s)
