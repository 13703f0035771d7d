-- ===== src/Tests/Sqlite.antt =====
-- The SQLite ledger of walrusos/adapters/sqlite_ledger.py on concrete data, with a JSON of lists
-- that reads back what it writes.
use walrus_os.Base.{
  ℕ, ◌<◌, String, ◌<>◌, ◌≡◌, refl, ap, ◌∙◌, true, false, none, some, List, [], ◌∷◌, arith, All, map,
}
use text.Mathlib.TextLemmas.{nil-append, cons-append, cons-ne-nil}
use walrus_os.Base.Dict.{lookup}
use walrus_os.Base.Result.{ok, err, value_error, Error}
use walrus_os.Model.Value.{str, obj}
use walrus_os.Model.Event.{MemoryEvent, ProtocolEvent, is_memory_type}
use walrus_os.Model.Identity.{AgentIdentity, active, new_reputation}
use walrus_os.Adapters.Ledger
use walrus_os.Adapters.Ledger.{Ledger, memory}
use walrus_os.Memory.State.{Env, next_epoch}
use walrus_os.Sqlite.Tables.{Database, Json, empty}
use walrus_os.Sqlite.Rows.{persisted}
use walrus_os.Sqlite.Order.{rising}
use walrus_os.Sqlite.Agree.{Complete, ledgers_agree}
use walrus_os.Sqlite.InMemory.{run_memory}
use walrus_os.Sqlite.Log.{Op, register, append, delete, events_of, replay, all_allowed}
use walrus_os.Sqlite.Streams.{list_events, get_head, get_epoch_counter}
use walrus_os.Sqlite.Refine.{run, run_refines, Shows}
use walrus_os.Model.Value.{as_text}
use walrus_os.Tests.Json.{json, json-Faithful}
use walrus_os.Tests.Data.{hash, write}
use walrus_os.Sqlite.Stored.{
  Sealed, next_epoch-restart, load_agent_private_key-store_agent_private_key,
}
use walrus_os.Sqlite.Protocol.{get_events_for_agent}
use walrus_os.Sqlite.Replayed.{append_all, record_all, replays_agree}
use walrus_os.Sqlite.Kept.{get_agent_identity-create_agent_identity, update_agent_status_unknown}
use walrus_os.Sqlite.Identities.{
  Cipher, identity_row, create_agent_identity, get_agent_identity, increment_agent_counters,
  update_agent_status, list_agent_identities, store_agent_private_key, load_agent_private_key,
  status_of,
}

abbrev event : String → String → ℕ → List String → MemoryEvent
event id parent epoch tags = record {
  id = id;
  stream_id = "s1";
  parent_id = parent;
  epoch = epoch;
  memory_type = "episodic";
  tags = tags;
  importance = "0.5";
  summary = none;
  embedding = none;
  project = none;
  content_blob_id = "b";
  attributions = [];
  agent_id = some "a1";
  event_hash = none;
  signature = none;
  public_key = none;
}

abbrev first : MemoryEvent
first = event "e1" "genesis" 1 ("x" ∷ [])

abbrev second : MemoryEvent
second = event "e2" "e1" 2 []

abbrev ops : List Op
ops =
    register "s1" "a1" "2026"
    ∷ append "s1" first "2026"
    ∷ append "s2" (record first { id = "e3"; stream_id = "s2" }) "2026"
    ∷ append "s1" second "2027"
    ∷ delete "s2"
    ∷ []

allowed : all_allowed ops [] ≡ true
unfolding all_allowed is_memory_type
allowed = refl

run_refines_example : (d : Database) × (run json ops empty ≡ ok d) × Shows json d (replay ops [])
run_refines_example = run_refines json json-Faithful ops allowed

up : (sid : String) → rising (λ e. e.epoch) 0 (events_of sid (replay ops [])) ≡ true
unfolding events_of replay
up sid = ground arith

whole : Complete (replay ops [])
unfolding replay persisted
whole = (refl, (refl, tt))

ledgers_agree_example :
    (d : Database) × (l : Ledger) × (run json ops empty ≡ ok d)
    × (run_memory ops Ledger.empty ≡ ok l)
    × ((sid : String)
        → (es : List MemoryEvent) × (list_events json sid d ≡ ok es)
          × (Ledger.list_events sid l ≡ map memory es)
          × (get_head sid d ≡ Ledger.get_head sid l))
ledgers_agree_example = ledgers_agree json json-Faithful ops allowed up whole

abbrev env : Env
env = record {
  sha256 = hash;
  dumps = λ p. "json";
  loads = λ t. some [];
  dumps_snapshot = λ x. "snapshot";
  loads_snapshot = λ t. none;
  show = as_text;
  tokenize = λ t. t ∷ [];
  epoch_counter = some (λ s. get_epoch_counter s run_refines_example.0);
  stream_workspace = none;
}

next_epoch-restart_example :
    All (λ e. e.epoch < (next_epoch env "s1" []).0) (events_of "s1" (replay ops []))
next_epoch-restart_example =
    next_epoch-restart json json-Faithful ops env run_refines_example.0 "s1" allowed
      run_refines_example.1 refl (up "s1")

abbrev log : List ProtocolEvent
log = write ∷ record write { event_id = "e9"; timestamp = "2027" } ∷ []

abbrev one_payload : Json
one_payload = record json { loads_payload = λ t. some write.payload }

replays_agree_example :
    (d : Database) × (append_all one_payload log empty ≡ ok d)
    × (get_events_for_agent (λ a b. false) one_payload "a1" d
        ≡ ok (Ledger.get_events_for_agent "a1" (record_all log Ledger.empty)))
replays_agree_example =
    replays_agree one_payload (λ a b. false) "a1" log (refl, (refl, tt)) (λ p. cons-ne-nil "a" _ p)
      refl refl

abbrev ada : AgentIdentity
ada = record {
  agent_id = "a1";
  workspace_id = "w";
  agent_name = "Ada";
  owner_wallet = "0x1";
  public_key = "k";
  trust_root = "r";
  created_at = "2026";
  status = active;
  capabilities = str "read" ∷ [];
  execution_counter = 1;
  memory_counter = 0;
  artifact_counter = 0;
  reputation = new_reputation;
  metadata = obj [];
  sui_object_id = none;
}

get_agent_identity-create_agent_identity_example :
    let d = create_agent_identity json "2026" ada empty in
    (get_agent_identity json "2027" "a1" d
      ≡ ok (some (record ada { created_at = "2027"; reputation = new_reputation })))
    × (create_agent_identity json "2026" (record ada { agent_name = "Eve" }) d ≡ d)
    × (get_agent_identity json "2027" "a1" (increment_agent_counters "a1" 1 1 0 "2027" d)
        ≡ ok (
            some (record ada {
              created_at = "2027";
              reputation = new_reputation;
              execution_counter = 2;
              memory_counter = 1;
            })))
unfolding lookup
get_agent_identity-create_agent_identity_example =
    get_agent_identity-create_agent_identity json ada refl refl "2026" "2027"
      (record ada { agent_name = "Eve" }) 1 1 0 empty refl refl refl

abbrev with_ada : Database
with_ada = record empty { agent_identities = ("a1", identity_row json "2026" ada) ∷ [] }

update_agent_status_unknown_example :
    (d : Database) × (update_agent_status "a1" "asleep" "2027" with_ada ≡ ok d)
    × (get_agent_identity json "2028" "a1" d ≡ err value_error)
    × ((e : Error) × (list_agent_identities json "2028" none d ≡ err e))
unfolding lookup status_of identity_row
update_agent_status_unknown_example =
    update_agent_status_unknown json "a1" "asleep" "2027" "2028" (identity_row json "2026" ada)
      with_ada (str "read" ∷ []) (obj []) refl refl refl refl

abbrev split : String → String × String
split String.[] = ("", "")
split (String.◌∷◌ c s) = (String.◌∷◌ c "", s)

abbrev plain : Cipher
plain = record {
  derive = λ password salt. password;
  encrypt = λ key nonce t. t;
  decrypt = λ key nonce t. some t;
  b64encode = λ t. t;
  b64decode = λ t. some t;
  split = split;
}

split_back : (t : String) → split ("n" <> t) ≡ ("n", t)
split_back t = ap split (cons-append "n" "" t) ∙ ap (λ r. ("n", r)) (nil-append t)

plain-Sealed : Sealed plain "n"
plain-Sealed = record {
  base64_back = λ t. refl;
  split_back = split_back;
  decrypt_back = λ key t. refl;
}

load_agent_private_key-store_agent_private_key_example :
    let d = store_agent_private_key plain "salt" "n" "2026" "a1" "secret" "pw" empty in
    (load_agent_private_key plain "a1" "pw" d ≡ ok (some "secret"))
    × ((salt nonce now key password : String)
        → store_agent_private_key plain salt nonce now "a1" key password d ≡ d)
unfolding lookup
load_agent_private_key-store_agent_private_key_example =
    load_agent_private_key-store_agent_private_key plain "salt" "n" "2026" "a1" "secret" "pw" empty
      plain-Sealed refl
