-- ===== src/Tests/EventStore.antt =====
-- The event store of walrusos/engine/event_store.py on concrete data.
use walrus_os.Base.{
  ◌≢◌, ◌≡◌, refl, none, some, List, String, Bool, ◌==◌, ◌&&◌, keep_if, map, [], ◌∷◌, ◌++◌, arith,
  eq_iff,
}
use walrus_os.Base.Dict.{lookup, insert}
use walrus_os.Model.Value.{str}
use walrus_os.Model.Event.{memory_appended}
use walrus_os.Adapters.Storage
use walrus_os.Adapters.Ledger
use walrus_os.Adapters.Ledger.{get_events_for_agent, get_events_for_workspace}
use walrus_os.Adapters.Vector
use walrus_os.Projection.Agent.{replay_agent, apply_agent_event, keep_state}
use walrus_os.EventStore.{EventStore, Env, Args, compute_event_hash, make_event, anchored}
use walrus_os.EventStore.Recorded.{recorded, after, replay_agent-append}
use text.Mathlib.TextLemmas.{cons-ne-nil, append-eq-nil_iff}
use walrus_os.Model.Event.{ProtocolEvent}
use walrus_os.Sqlite.Tables.{Json, empty, add_row}
use walrus_os.Sqlite.Protocol.{protocol_row, append_protocol_event, last_row, get_latest_event_hash}
use walrus_os.EventStore.Chain.{Call, Node, log_all, log_event, next_event, rows_of, Linked}
use walrus_os.EventStore.Chain.Sound.{log_all-Linked}
use walrus_os.Tests.Json
use walrus_os.Tests.Data.{hash}

abbrev env : Env
env = record {
  sha256 = hash;
  dumps = λ p. "json";
  parse_uuid = λ t. some t;
  validate = λ d. none;
  tokenize = λ t. t ∷ [];
  latest_event_hash = some (λ w. some "head");
  anchor = none;
}

-- Every payload is written as one text.
abbrev json : Json
json = record Json.json { dumps_payload = λ p. "json" }

abbrev call : Args
call = record {
  event_type = memory_appended;
  workspace_id = "w";
  wallet = "0x1";
  payload = ("text", str "hello") ∷ ("stream_id", str "s") ∷ [];
  agent_id = some "a1";
  signature = "";
}

abbrev store : EventStore
store = record { ledger = Ledger.empty; storage = Storage.empty; vector = Vector.empty }

replay_agent-append_example :
    let s' = after env call "t1" "2026" store in
    let e = recorded env call "t1" "2026" store in
    (get_events_for_agent "a1" s'.ledger ≡ get_events_for_agent "a1" store.ledger ++ e ∷ [])
    × (get_events_for_workspace "w" s'.ledger ≡ get_events_for_workspace "w" store.ledger ++ e ∷ [])
    × (let state = replay_agent hash (get_events_for_agent "a1" store.ledger) in
        replay_agent hash (get_events_for_agent "a1" s'.ledger)
        ≡ keep_state hash state (apply_agent_event hash state e))
replay_agent-append_example =
    replay_agent-append env call "t1" "2026" store hash "a1" refl
      (λ p. absurd (ground (arith, eq_iff "a1" ""))) (λ p. absurd (ground (arith, eq_iff "w" "")))

-- Two calls at rising times, with one payload.
abbrev calls : List Call
calls =
    record { args = call; stored = "t1"; now = "2026" }
    ∷ record { args = call; stored = "t2"; now = "2027" }
    ∷ []

abbrev in_order : String → String → Bool
in_order s t = s == "2026" && t == "2027"

abbrev after_calls : List ProtocolEvent × Node
after_calls = log_all env json in_order calls (record { storage = Storage.empty; database = empty })

chained_ids :
    map (λ r. r.event_id) (rows_of "w" after_calls.1.database) ≡ "#json" ∷ "##json:json" ∷ []
unfolding log_all log_event next_event anchored make_event compute_event_hash lookup insert add_row
    append_protocol_event protocol_row get_latest_event_hash last_row
chained_ids = refl

hash-nonempty : (t : String) → hash t ≢ ""
hash-nonempty t p = cons-ne-nil "#" _ ((append-eq-nil_iff.0 p).0)

log_all-Linked_example :
    (rows_of "w" after_calls.1.database
      ≡ map (protocol_row json) (keep_if (λ e. e.workspace_id == "w") after_calls.0))
    × Linked hash none (rows_of "w" after_calls.1.database)
log_all-Linked_example =
    log_all-Linked env json in_order calls "w" Storage.empty hash-nonempty ((refl, tt), (tt, tt))
