-- ===== src/Tests/Recovery.antt =====
-- Recoveries of walrusos/engine/recovery.py on concrete headers.
use walrus_os.Base.{String, ◌≡◌, Option, none, some, [], ◌∷◌, All, length, refl}
use walrus_os.Model.Value.{Payload, str, get, get_or, truthy}
use walrus_os.Recovery.Engine.{
  Header, Env, recover, recover_from, accept, event_of, verified, write, hydrate, load_blob,
  timestamp_of,
}
use walrus_os.Recovery.Sound.{Restored, accepted, start, recover-Restored}
use walrus_os.Base.Result.{ok}
use walrus_os.Model.Event.{ProtocolEvent, memory_appended, event_type_of}
use walrus_os.Base.Dict.{lookup, insert}
use walrus_os.Replay.BlobId.{valid_blob_id}
use walrus_os.Sqlite.Tables.{empty, add_row}
use walrus_os.Sqlite.Protocol.{append_protocol_event}
use walrus_os.Sqlite.Replayed.{append_all}
use walrus_os.Tests.Json.{json}
use walrus_os.Tests.Data.{toy}

-- A blob that says of itself that it is lost.
abbrev fetch : String → Option String
fetch b = some b

abbrev loads : String → Option (Option Payload)
loads t = some (some (("_status", str "PayloadLost") ∷ ("public_key", str "k") ∷ []))

abbrev env : Env
env = record { fetch = fetch; loads = loads; column = λ v. none; json = json }

abbrev header : Header
header =
    ("event_id", str "e9")
    ∷ ("event_type", str "MemoryAppended")
    ∷ ("workspace_id", str "w")
    ∷ ("agent_id", str "a1")
    ∷ ("wallet", str "0x1")
    ∷ ("blob_id", str "blob_9")
    ∷ ("signature", str "forged")
    ∷ []

recover-Restored_example :
    let s = (recover toy env (header ∷ header ∷ []) empty).1 in
    let es = accepted toy env (header ∷ header ∷ []) (start toy env empty) in
    (append_all json es empty ≡ ok s.ledger) × (s.recovered ≡ length es) × All (Restored toy) es
recover-Restored_example = recover-Restored toy env (header ∷ header ∷ []) empty

-- The second header has the id of the first, and its write raises.
recovered_once : (recover toy env (header ∷ header ∷ []) empty).1.recovered ≡ 1
unfolding recover recover_from accept event_of verified write append_protocol_event add_row lookup
    insert get get_or hydrate load_blob valid_blob_id truthy timestamp_of event_type_of
recovered_once = refl

-- What the header makes, with the signature that no key has made.
abbrev forged : ProtocolEvent
forged = record {
  event_id = "e9";
  event_type = memory_appended;
  workspace_id = "w";
  agent_id = some "a1";
  wallet = "0x1";
  blob_id = some "blob_9";
  blob_hash = none;
  parent_event = none;
  previous_hash = none;
  signature = "forged";
  timestamp = "";
  transaction_digest = none;
  payload = ("_status", str "PayloadLost") ∷ ("public_key", str "k") ∷ [];
}
