-- ===== src/Tests/Sdk.antt =====
-- An agent client of walrusos/sdk/agent.py on concrete data.
use walrus_os.Base.{◌≡◌, refl, true, false, none, some, [], ◌∷◌}
use text.Mathlib.TextLemmas.{cons-ne-nil}
use walrus_os.Base.Dict.{lookup, insert}
use walrus_os.Model.Value.{str, raw, obj, get}
use walrus_os.Model.Identity.{AgentIdentity, active, default_capabilities, new_reputation}
use walrus_os.Adapters.Storage
use walrus_os.Adapters.Ledger
use walrus_os.Adapters.Vector
use walrus_os.EventStore.{Env, EventStore, append}
use walrus_os.Sqlite.Tables.{CapabilityRow}
use walrus_os.Sdk.Agent.{
  AgentClient, Host, Clock, Handle, Write, ensure_initialized, opened, write_event,
}
use walrus_os.Sdk.Written.{Grant, write_event-Granted}
use walrus_os.Tests.Data.{hash, registration}

abbrev env : Env
env = record {
  sha256 = hash;
  dumps = λ p. "json";
  parse_uuid = λ t. some t;
  validate = λ d. none;
  tokenize = λ t. t ∷ [];
  latest_event_hash = none;
  anchor = none;
}

abbrev capability : CapabilityRow
capability = record {
  sui_object_id = "0xc";
  target_stream_id = "0x5";
  verb_bitmask = 6;
  valid_until_epoch = 20;
  created_at = "2026";
}

abbrev host : Host
host = record {
  env = env;
  sui_object = some (λ s. some "0x5");
  capabilities = some (λ o. capability ∷ []);
  sign = none;
  has_mesh = true;
}

abbrev clock : Clock
clock i = ("2026", "2027")

abbrev store : EventStore
store = record {
  ledger = Ledger.append_protocol_event registration Ledger.empty;
  storage = Storage.empty;
  vector = Vector.empty;
}

abbrev blank : AgentClient
blank = record {
  agent_name = "Ada";
  owner_wallet = "0x1";
  workspace_id = "w";
  agent_id = "a1";
  identity = none;
  pending = [];
  store = store;
  outbox = [];
}

abbrev ada : AgentIdentity
ada = record {
  agent_id = "a1";
  workspace_id = "w";
  agent_name = "Ada";
  owner_wallet = "0x1";
  public_key = "k";
  trust_root = "r";
  created_at = "2026";
  status = active;
  capabilities = default_capabilities;
  execution_counter = 0;
  memory_counter = 0;
  artifact_counter = 0;
  reputation = new_reputation;
  metadata = obj [];
  sui_object_id = none;
}

abbrev known : AgentClient
known = record blank { identity = some ada }

abbrev handle : Handle
handle = record { stream_id = "s"; initialized = false }

abbrev note : Write
note = record {
  payload = ("text", str "hello") ∷ ("tags", str "mine") ∷ [];
  memory_type = "fact";
  tags = [];
  importance = raw "0.5";
  summary = none;
  project = none;
}

abbrev opened_client : AgentClient
opened_client = opened handle (ensure_initialized host clock "pk" known)

write_event-Granted_example :
    ((a : AgentIdentity) × (opened_client.identity ≡ some a) × (a.status ≡ active))
    × Grant 10 (capability ∷ [])
unfolding write_event append get lookup insert
write_event-Granted_example =
    write_event-Granted host clock ("2026", "2027") "pk" 10 handle note known (λ o. capability ∷ [])
      "0x5" _ _ refl refl (λ p. cons-ne-nil "0" _ p) refl
