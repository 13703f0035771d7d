-- ===== src/Sqlite/Mappings.antt =====
-- `SQLiteLedger`: Sui objects of streams, manifests of chunked blobs, workspaces and capabilities.
use walrus_os.Base.{ℕ, String, Option, none, some, List, [], ◌∷◌, ◌==◌, keep_if}
use walrus_os.Base.Dict.{Dict, lookup, insert, pop, values}
use walrus_os.Base.Result.{Result, ok, or_raise, json_error, ◌>>=◌}
use walrus_os.Sqlite.Tables.{Database, SuiObjectRow, ManifestRow, WorkspaceRow, CapabilityRow, Json}

-- `{r.stream_id: r.sui_object_id for r in records}`
unfoldable pub sui_mapping : List SuiObjectRow → Dict String → Dict String
sui_mapping [] d = d
sui_mapping (r ∷ rs) d = sui_mapping rs (insert r.stream_id r.sui_object_id d)

unfoldable pub get_sui_stream_objects : Database → Dict String
unfolding sui_mapping
get_sui_stream_objects d = sui_mapping (values d.sui_stream_objects) []

unfoldable pub save_sui_stream_object : String → String → String → Database → Database
save_sui_stream_object stream_id sui_object_id now d =
    let row : SuiObjectRow = elim (lookup stream_id d.sui_stream_objects) [
      | none ↦ record { stream_id = stream_id; sui_object_id = sui_object_id; created_at = now }
      | some r ↦ record r { sui_object_id = sui_object_id }
    ] in
    record d { sui_stream_objects = insert stream_id row d.sui_stream_objects }

unfoldable pub delete_sui_stream_object : String → Database → Database
delete_sui_stream_object stream_id d = record d {
  sui_stream_objects = pop stream_id d.sui_stream_objects;
}

unfoldable pub save_blob_manifest :
    Json → String → List String → ℕ → String → String → Database → Database
save_blob_manifest json manifest_blob_id chunk_ids original_size mime_type now d =
    elim (lookup manifest_blob_id d.blob_manifests) [
      | some r ↦ d
      | none ↦
          let row : ManifestRow = record {
            manifest_blob_id = manifest_blob_id;
            chunk_ids_json = json.dumps_list chunk_ids;
            original_size = original_size;
            mime_type = mime_type;
            created_at = now;
          } in
          record d { blob_manifests = insert manifest_blob_id row d.blob_manifests }
    ]

unfoldable pub get_blob_manifest : Json → String → Database → Result (Option (List String))
get_blob_manifest json manifest_blob_id d = elim (lookup manifest_blob_id d.blob_manifests) [
  | none ↦ ok none
  | some r ↦ or_raise (json.loads_list r.chunk_ids_json) json_error >>= λ ids. ok (some ids)
]

unfoldable pub save_workspace : String → String → String → String → String → Database → Database
save_workspace workspace_id sui_object_id name owner_wallet now d =
    let row : WorkspaceRow = elim (lookup workspace_id d.workspaces) [
      | none ↦ record {
        workspace_id = workspace_id;
        sui_object_id = sui_object_id;
        name = name;
        owner_wallet = owner_wallet;
        created_at = now;
      }
      | some r ↦ record r { sui_object_id = sui_object_id }
    ] in
    record d { workspaces = insert workspace_id row d.workspaces }

unfoldable pub get_workspace_sui_object : String → Database → Option String
get_workspace_sui_object workspace_id d = elim (lookup workspace_id d.workspaces) [
  | none ↦ none
  | some r ↦ some r.sui_object_id
]

-- A capability that is there keeps its target and the epoch that it is valid until.
unfoldable pub saved_capability :
    String → String → ℕ → ℕ → String → Option CapabilityRow → CapabilityRow
saved_capability sui_object_id target_stream_id verb_bitmask valid_until_epoch now none = record {
  sui_object_id = sui_object_id;
  target_stream_id = target_stream_id;
  verb_bitmask = verb_bitmask;
  valid_until_epoch = valid_until_epoch;
  created_at = now;
}
saved_capability sui_object_id target_stream_id verb_bitmask valid_until_epoch now (some r) =
    record r { verb_bitmask = verb_bitmask }

unfoldable pub save_capability : String → String → ℕ → ℕ → String → Database → Database
unfolding saved_capability
save_capability sui_object_id target_stream_id verb_bitmask valid_until_epoch now d = record d {
  capabilities =
      insert sui_object_id
        (saved_capability sui_object_id target_stream_id verb_bitmask valid_until_epoch now
          (lookup sui_object_id d.capabilities))
        d.capabilities;
}

unfoldable pub get_capabilities_for_stream : String → Database → List CapabilityRow
get_capabilities_for_stream target_stream_id d =
    keep_if (λ r. r.target_stream_id == target_stream_id) (values d.capabilities)
