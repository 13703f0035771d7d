-- ===== src/Model/Event.antt =====
-- walrusos/core/models/events.py and the MemoryEvent of walrusos/core/models/memory.py
use walrus_os.Base.{String, ◌≡◌, refl, ℕ, Bool, true, false, Option, none, some, List}
use walrus_os.Model.Value.{Payload, Value, get}
use walrus_os.Base.{◌==◌, if◌then◌else◌}

pub data EventType : Type 0 where
  workspace_created workspace_deleted : EventType
  agent_registered agent_paused agent_resumed agent_terminated : EventType
  capability_granted capability_revoked : EventType
  memory_appended memory_forked memory_merged : EventType
  artifact_uploaded artifact_deleted : EventType
  validation_passed validation_failed : EventType
  recovery_started recovery_finished replay_started replay_finished : EventType

-- The value of each member, which is what headers and rows carry.
unfoldable pub type_name : EventType → String
type_name workspace_created = "WorkspaceCreated"
type_name workspace_deleted = "WorkspaceDeleted"
type_name agent_registered = "AgentRegistered"
type_name agent_paused = "AgentPaused"
type_name agent_resumed = "AgentResumed"
type_name agent_terminated = "AgentTerminated"
type_name capability_granted = "CapabilityGranted"
type_name capability_revoked = "CapabilityRevoked"
type_name memory_appended = "MemoryAppended"
type_name memory_forked = "MemoryForked"
type_name memory_merged = "MemoryMerged"
type_name artifact_uploaded = "ArtifactUploaded"
type_name artifact_deleted = "ArtifactDeleted"
type_name validation_passed = "ValidationPassed"
type_name validation_failed = "ValidationFailed"
type_name recovery_started = "RecoveryStarted"
type_name recovery_finished = "RecoveryFinished"
type_name replay_started = "ReplayStarted"
type_name replay_finished = "ReplayFinished"

-- `EventType(text)`, which raises for any other text
unfoldable pub event_type_of : String → Option EventType
event_type_of t =
    if t == "WorkspaceCreated"
    then some workspace_created
    else if t == "WorkspaceDeleted"
    then some workspace_deleted
    else if t == "AgentRegistered"
    then some agent_registered
    else if t == "AgentPaused"
    then some agent_paused
    else if t == "AgentResumed"
    then some agent_resumed
    else if t == "AgentTerminated"
    then some agent_terminated
    else if t == "CapabilityGranted"
    then some capability_granted
    else if t == "CapabilityRevoked"
    then some capability_revoked
    else if t == "MemoryAppended"
    then some memory_appended
    else if t == "MemoryForked"
    then some memory_forked
    else if t == "MemoryMerged"
    then some memory_merged
    else if t == "ArtifactUploaded"
    then some artifact_uploaded
    else if t == "ArtifactDeleted"
    then some artifact_deleted
    else if t == "ValidationPassed"
    then some validation_passed
    else if t == "ValidationFailed"
    then some validation_failed
    else if t == "RecoveryStarted"
    then some recovery_started
    else if t == "RecoveryFinished"
    then some recovery_finished
    else if t == "ReplayStarted"
    then some replay_started
    else if t == "ReplayFinished"
    then some replay_finished
    else none

-- Every event type is read back from its name.
pub event_type_of-type_name : (t : EventType) → event_type_of (type_name t) ≡ some t
unfolding event_type_of type_name
event_type_of-type_name workspace_created = refl
event_type_of-type_name _ = refl

-- `event.event_type == EventType.MemoryAppended`, and so for the types that the engines test
abbrev pub is_memory_appended : EventType → Bool
is_memory_appended memory_appended = true
is_memory_appended _ = false

abbrev pub is_memory_forked : EventType → Bool
is_memory_forked memory_forked = true
is_memory_forked _ = false

pub record ProtocolEvent : Type 0 where
  pub event_id : String
  pub event_type : EventType
  pub workspace_id : String
  pub agent_id : Option String
  pub wallet : String
  pub blob_id : Option String
  pub blob_hash : Option String
  pub parent_event : Option String
  pub previous_hash : Option String
  pub signature : String
  pub timestamp : String
  pub transaction_digest : Option String
  pub payload : Payload

-- The property `public_key`
unfoldable pub public_key : ProtocolEvent → Value
public_key e = get "public_key" e.payload

-- A float is its decimal text; `embedding` is passed on and never read.
pub record MemoryEvent : Type 0 where
  pub id : String
  pub stream_id : String
  pub parent_id : String
  pub epoch : ℕ
  pub memory_type : String
  pub tags : List String
  pub importance : String
  pub summary : Option String
  pub embedding : Option (List String)
  pub project : Option String
  pub content_blob_id : String
  pub attributions : List String
  pub agent_id : Option String
  pub event_hash : Option String
  pub signature : Option String
  pub public_key : Option String

-- The `Literal` of `memory_type`: any other text is refused by the model's validation.
unfoldable pub is_memory_type : String → Bool
is_memory_type t =
    if t == "semantic"
    then true
    else if t == "episodic"
    then true
    else if t == "procedural"
    then true
    else if t == "working"
    then true
    else if t == "system"
    then true
    else if t == "langgraph"
    then true
    else if t == "langgraph_write"
    then true
    else if t == "observation"
    then true
    else t == "summary"
