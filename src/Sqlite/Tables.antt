-- ===== src/Sqlite/Tables.antt =====
-- The rows of walrusos/adapters/sqlite_ledger.py, the database, and what its queries are made of.
use walrus_os.Base.{ℕ, String, Option, none, some, List, [], ◌∷◌, leb, if◌then◌else◌, ◌≡◌, arith}
use walrus_os.Base.Dict.{Dict, lookup, insert}
use walrus_os.Base.Result.{Result, ok, err, integrity_error}
use walrus_os.Model.Value.{Payload, Value}

pub record StreamRow : Type 0 where
  pub stream_id : String
  pub agent_id : String
  pub head_event_id : String
  pub epoch_counter : ℕ
  pub created_at : String

pub record ProtocolRow : Type 0 where
  pub event_id : String
  pub event_type : String
  pub workspace_id : String
  pub agent_id : Option String
  pub wallet : String
  pub blob_id : Option String
  pub blob_hash : Option String
  pub parent_event : Option String
  pub previous_hash : Option String
  pub signature : String
  pub timestamp : String
  pub transaction_digest : Option String
  pub payload_json : String

-- A float is its decimal text.
pub record EventRow : Type 0 where
  pub id : String
  pub stream_id : String
  pub parent_id : String
  pub epoch : ℕ
  pub memory_type : String
  pub tags : Option String
  pub importance : String
  pub summary : Option String
  pub embedding : Option String
  pub project : Option String
  pub content_blob_id : String
  pub agent_id : Option String
  pub event_hash : Option String
  pub signature : Option String
  pub public_key : Option String
  pub created_at : String

pub record TaskRow : Type 0 where
  pub task_id : String
  pub workspace_id : String
  pub title : String
  pub description : String
  pub created_by : String
  pub assigned_to : Option String
  pub status : String
  pub priority : ℕ
  pub parent_task_id : Option String
  pub subtask_ids : String
  pub memory_refs : String
  pub artifact_refs : String
  pub tags : String
  pub created_at : String
  pub updated_at : String
  pub completed_at : Option String
  pub notes : String

pub record WorkspaceRow : Type 0 where
  pub workspace_id : String
  pub sui_object_id : String
  pub name : String
  pub owner_wallet : String
  pub created_at : String

pub record CapabilityRow : Type 0 where
  pub sui_object_id : String
  pub target_stream_id : String
  pub verb_bitmask : ℕ
  pub valid_until_epoch : ℕ
  pub created_at : String

pub record SuiObjectRow : Type 0 where
  pub stream_id : String
  pub sui_object_id : String
  pub created_at : String

pub record ManifestRow : Type 0 where
  pub manifest_blob_id : String
  pub chunk_ids_json : String
  pub original_size : ℕ
  pub mime_type : String
  pub created_at : String

pub record IdentityRow : Type 0 where
  pub agent_id : String
  pub workspace_id : String
  pub agent_name : String
  pub owner_wallet : String
  pub public_key : String
  pub trust_root : String
  pub status : String
  pub capabilities_json : String
  pub execution_counter : ℕ
  pub memory_counter : ℕ
  pub artifact_counter : ℕ
  pub reputation_json : String
  pub metadata_json : String
  pub sui_object_id : Option String
  pub created_at : String
  pub updated_at : String

pub record KeyRow : Type 0 where
  pub agent_id : String
  pub wrapped_key : String
  pub kek_salt : String
  pub created_at : String

pub record Database : Type 0 where
  pub memory_streams : Dict StreamRow
  pub protocol_events : Dict ProtocolRow
  pub memory_events : Dict EventRow
  pub tasks : Dict TaskRow
  pub workspaces : Dict WorkspaceRow
  pub capabilities : Dict CapabilityRow
  pub sui_stream_objects : Dict SuiObjectRow
  pub blob_manifests : Dict ManifestRow
  pub agent_identities : Dict IdentityRow
  pub agent_keys : Dict KeyRow

-- `create_all` on a new file
abbrev pub empty : Database
empty = record {
  memory_streams = [];
  protocol_events = [];
  memory_events = [];
  tasks = [];
  workspaces = [];
  capabilities = [];
  sui_stream_objects = [];
  blob_manifests = [];
  agent_identities = [];
  agent_keys = [];
}

-- `json.dumps` and `json.loads` at the types that the rows hold, each with what it does on a list
-- or on a dict; `loads` raises on any other text.
pub record Json : Type 0 where
  pub dumps_list : List String → String
  pub loads_list : String → Option (List String)
  pub dumps_floats : List String → String
  pub loads_floats : String → Option (List String)
  pub dumps_values : List Value → String
  pub loads_values : String → Option (List Value)
  pub dumps_value : Value → String
  pub loads_value : String → Option Value
  pub dumps_payload : Payload → String
  pub loads_payload : String → Option Payload

module _ {ℓ} {V : Type ℓ} where
  -- `session.add(row); session.commit()` of a new row: the primary key is checked.
  unfoldable pub add_row : String → V → Dict V → Result (Dict V)
  add_row k v d = elim (lookup k d) [ some w ↦ err integrity_error | none ↦ ok (insert k v d) ]

  -- ORDER BY a number, ascending; rows that tie keep their order.
  unfoldable pub place : (V → ℕ) → V → List V → List V
  place key x [] = x ∷ []
  place key x (y ∷ ys) =
      let rest = place key x ys in if leb (key x) (key y) then x ∷ y ∷ ys else y ∷ rest

  unfoldable pub order_by : (V → ℕ) → List V → List V
  unfolding place
  order_by key [] = []
  order_by key (x ∷ xs) = place key x (order_by key xs)

  pub add_row_new :
      (k : String) (v : V) (d : Dict V) → lookup k d ≡ none → add_row k v d ≡ ok (insert k v d)
  unfolding add_row
  add_row_new k v d h = ground arith

  pub add_row_taken :
      (k : String) (v w : V) (d : Dict V)
      → lookup k d ≡ some w
      → add_row k v d ≡ err integrity_error
  unfolding add_row
  add_row_taken k v w d h = ground arith
