-- ===== src/Tests/Data.antt =====
-- Toy primitives and events of walrusos/core/models/events.py that the tests share.
use walrus_os.Base.{String, ◌<>◌, Bool, false, Option, none, some, [], ◌∷◌, ◌==◌}
use walrus_os.Model.Value.{str, Payload}
use walrus_os.Model.Event.{
  EventType, ProtocolEvent, agent_registered, capability_granted, capability_revoked,
  memory_appended, agent_paused, workspace_created, workspace_deleted,
}
use walrus_os.Model.Crypto.{Primitives}

abbrev pub hash : String → String
hash s = "#" <> s

-- A key signs a hash by writing itself before it.
abbrev pub toy : Primitives
toy = record {
  Key = String;
  canonical_json = λ p. some "json";
  sha256 = hash;
  from_hex = λ s. some s;
  b64decode = λ s. some s;
  public_key_from_bytes = λ s. some s;
  verify = λ key sig h. sig == key <> h;
  sign = λ key h. some (key <> h);
}

abbrev pub never_later : String → String → Option Bool
never_later a b = some false

abbrev pub event : String → EventType → Payload → ProtocolEvent
event id ty p = record {
  event_id = id;
  event_type = ty;
  workspace_id = "w";
  agent_id = some "a1";
  wallet = "0x1";
  blob_id = some "blob_1";
  blob_hash = none;
  parent_event = none;
  previous_hash = none;
  signature = "k#json";
  timestamp = "2026";
  transaction_digest = none;
  payload = p;
}

abbrev pub registration : ProtocolEvent
registration =
    event "e0" agent_registered
      (("agent_name", str "Ada") ∷ ("public_key", str "k") ∷ ("trust_root", str "r") ∷ [])

abbrev pub pause : ProtocolEvent
pause = event "e1" agent_paused (("public_key", str "k") ∷ [])

abbrev pub write : ProtocolEvent
write = event "e2" memory_appended (("public_key", str "k") ∷ ("text", str "hello") ∷ [])

abbrev pub about : String → Payload
about cap = ("capability", str cap) ∷ ("target_agent_id", str "a1") ∷ ("public_key", str "k") ∷ []

abbrev pub grant_read : ProtocolEvent
grant_read = event "e3" capability_granted (about "read")

abbrev pub grant_write : ProtocolEvent
grant_write = event "e4" capability_granted (about "write")

abbrev pub revoke_read : ProtocolEvent
revoke_read = event "e5" capability_revoked (about "read")

abbrev pub forged : ProtocolEvent
forged = record write { event_id = "e6"; signature = "other" }

abbrev pub creation : ProtocolEvent
creation = event "e7" workspace_created (("name", str "lab") ∷ [])

abbrev pub deletion : ProtocolEvent
deletion = event "e8" workspace_deleted []
