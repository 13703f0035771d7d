-- ===== src/Sqlite/Identities.antt =====
-- `SQLiteLedger`: agent identities and the wrapped private keys of agents.
use walrus_os.Base.{
  ℕ, ◌+◌, String, ◌<>◌, Bool, true, Option, none, some, List, [], ◌∷◌, ◌==◌, ◌&&◌, keep_if, all_of,
  is_some, if◌then◌else◌,
}
use walrus_os.Base.Dict.{lookup, insert, values}
use walrus_os.Base.Result.{
  Result, ok, err, or_raise, json_error, value_error, key_error, crypto_error, all_ok, ◌>>=◌,
}
use walrus_os.Model.Value.{as_text}
use walrus_os.Model.Identity.{
  AgentIdentity, AgentStatus, active, paused, terminated, new_reputation,
}
use walrus_os.Sqlite.Tables.{Database, IdentityRow, KeyRow, Json}

abbrev pub status_name : AgentStatus → String
status_name active = "active"
status_name paused = "paused"
status_name terminated = "terminated"

-- `AgentStatus(text)`, which the model's validation calls
unfoldable pub status_of : String → Option AgentStatus
status_of t =
    if t == "active"
    then some active
    else if t == "paused"
    then some paused
    else if t == "terminated"
    then some terminated
    else none

-- The columns that the call does not fill have their defaults.
unfoldable pub identity_row : Json → String → AgentIdentity → IdentityRow
identity_row json now a = record {
  agent_id = a.agent_id;
  workspace_id = a.workspace_id;
  agent_name = a.agent_name;
  owner_wallet = a.owner_wallet;
  public_key = a.public_key;
  trust_root = a.trust_root;
  status = status_name a.status;
  capabilities_json = json.dumps_values a.capabilities;
  execution_counter = a.execution_counter;
  memory_counter = a.memory_counter;
  artifact_counter = a.artifact_counter;
  reputation_json = "{}";
  metadata_json = json.dumps_value a.metadata;
  sui_object_id = a.sui_object_id;
  created_at = now;
  updated_at = now;
}

unfoldable pub create_agent_identity : Json → String → AgentIdentity → Database → Database
unfolding identity_row
create_agent_identity json now a d = elim (lookup a.agent_id d.agent_identities) [
  | some row ↦ d
  | none ↦ record d {
    agent_identities = insert a.agent_id (identity_row json now a) d.agent_identities;
  }
]

-- `AgentIdentity(...)` of a row, which refuses a capability that is no text: the reputation and the
-- time of creation are the model's defaults.
unfoldable pub record_to_identity : Json → String → IdentityRow → Result AgentIdentity
unfolding status_of
record_to_identity json now r =
    or_raise (json.loads_values r.capabilities_json) json_error >>= λ capabilities.
    or_raise (json.loads_value r.metadata_json) json_error >>= λ metadata.
    or_raise (status_of r.status) value_error >>= λ status.
    let a : AgentIdentity = record {
      agent_id = r.agent_id;
      workspace_id = r.workspace_id;
      agent_name = r.agent_name;
      owner_wallet = r.owner_wallet;
      public_key = r.public_key;
      trust_root = r.trust_root;
      created_at = now;
      status = status;
      capabilities = capabilities;
      execution_counter = r.execution_counter;
      memory_counter = r.memory_counter;
      artifact_counter = r.artifact_counter;
      reputation = new_reputation;
      metadata = metadata;
      sui_object_id = r.sui_object_id;
    } in
    if all_of (λ c. is_some (as_text c)) capabilities then ok a else err value_error

abbrev pub read_identity : Json → String → Option IdentityRow → Result (Option AgentIdentity)
read_identity json now none = ok none
read_identity json now (some r) = record_to_identity json now r >>= λ a. ok (some a)

unfoldable pub get_agent_identity :
    Json → String → String → Database → Result (Option AgentIdentity)
unfolding record_to_identity
get_agent_identity json now agent_id d = read_identity json now (lookup agent_id d.agent_identities)

abbrev pub first {ℓ} : {A : Type ℓ} → List A → Option A
first [] = none
first (x ∷ xs) = some x

unfoldable pub get_agent_identity_by_name :
    Json → String → String → String → Database → Result (Option AgentIdentity)
unfolding record_to_identity
get_agent_identity_by_name json now workspace_id agent_name d = read_identity json now (
    first (
      keep_if (λ r. (r.workspace_id == workspace_id) && (r.agent_name == agent_name))
        (values d.agent_identities)))

abbrev pub of_workspace : Option String → IdentityRow → Bool
of_workspace none r = true
of_workspace (some w) r = r.workspace_id == w

unfoldable pub list_agent_identities :
    Json → String → Option String → Database → Result (List AgentIdentity)
unfolding record_to_identity all_ok
list_agent_identities json now workspace_id d =
    all_ok (record_to_identity json now)
      (keep_if (of_workspace workspace_id) (values d.agent_identities))

abbrev pub update_row : String → IdentityRow → Database → Database
update_row agent_id r d = record d { agent_identities = insert agent_id r d.agent_identities }

unfoldable pub update_agent_status : String → String → String → Database → Result Database
update_agent_status agent_id status now d =
    or_raise (lookup agent_id d.agent_identities) key_error >>= λ r.
    ok (update_row agent_id (record r { status = status; updated_at = now }) d)

unfoldable pub increment_agent_counters : String → ℕ → ℕ → ℕ → String → Database → Database
increment_agent_counters agent_id execution memory artifact now d =
    elim (lookup agent_id d.agent_identities) [
      | none ↦ d
      | some r ↦
          update_row agent_id
            (record r {
              execution_counter = r.execution_counter + execution;
              memory_counter = r.memory_counter + memory;
              artifact_counter = r.artifact_counter + artifact;
              updated_at = now;
            })
            d
    ]

unfoldable pub set_agent_sui_object : String → String → String → Database → Result Database
set_agent_sui_object agent_id sui_object_id now d =
    or_raise (lookup agent_id d.agent_identities) key_error >>= λ r.
    ok (update_row agent_id (record r { sui_object_id = some sui_object_id; updated_at = now }) d)

-- The cipher: a key of a password and a salt, authenticated encryption under a nonce, and Base64;
-- bytes are text here. `split` takes the first twelve bytes off.
pub record Cipher : Type 0 where
  pub derive : String → String → String
  pub encrypt : String → String → String → String
  pub decrypt : String → String → String → Option String
  pub b64encode : String → String
  pub b64decode : String → Option String
  pub split : String → String × String

-- The salt and the nonce are those of `os.urandom`.
unfoldable pub store_agent_private_key :
    Cipher → String → String → String → String → String → String → Database → Database
store_agent_private_key c salt nonce now agent_id private_key password d =
    elim (lookup agent_id d.agent_keys) [
      | some row ↦ d
      | none ↦
          let row : KeyRow = record {
            agent_id = agent_id;
            wrapped_key =
                c.b64encode (nonce <> c.encrypt (c.derive password salt) nonce private_key);
            kek_salt = c.b64encode salt;
            created_at = now;
          } in
          record d { agent_keys = insert agent_id row d.agent_keys }
    ]

abbrev pub unwrap : Cipher → String → String → String → Result String
unwrap c password salt wrapped =
    let (nonce, ct) = c.split wrapped in
    or_raise (c.decrypt (c.derive password salt) nonce ct) crypto_error

abbrev pub unwrap_row : Cipher → String → Option KeyRow → Result (Option String)
unwrap_row c password none = ok none
unwrap_row c password (some row) = or_raise (c.b64decode row.kek_salt) value_error >>= λ salt.
    or_raise (c.b64decode row.wrapped_key) value_error >>= λ wrapped.
    unwrap c password salt wrapped >>= λ key. ok (some key)

unfoldable pub load_agent_private_key : Cipher → String → String → Database → Result (Option String)
load_agent_private_key c agent_id password d = unwrap_row c password (lookup agent_id d.agent_keys)
