-- ===== src/Tests/Projection.antt =====
-- The projections of walrusos/core/projections/engine.py on concrete logs.
use walrus_os.Base.{◌≡◌, refl, some, List, [], ◌∷◌, if◌then◌else◌}
use walrus_os.Base.Result.{ok}
use walrus_os.Base.Dict.{lookup}
use walrus_os.Base.{Option}
use walrus_os.Model.Value.{Value, str, get_or}
use walrus_os.Model.Event.{ProtocolEvent}
use walrus_os.Model.Identity.{AgentIdentity, default_capabilities, new_reputation, active}
use walrus_os.Projection.Agent.{register, replay_agent, replay_known, replay_agent-registered}
use walrus_os.Projection.Counters.{Counts, replay_agent-Counts}
use walrus_os.Projection.Consistent.{IsConsistent, replay_agent-IsConsistent}
use walrus_os.Projection.TrustRoot.{chain, trust_root-replay_agent}
use walrus_os.Projection.Workspace.{replay_workspace, is_deleted, replay_workspace_lem}
use walrus_os.Tests.Data.{
  hash, registration, pause, write, grant_read, revoke_read, creation, deletion,
}

abbrev ada : AgentIdentity
ada = record {
  agent_id = "a1";
  workspace_id = "w";
  agent_name = "Ada";
  owner_wallet = "0x1";
  public_key = "k";
  trust_root = "r";
  created_at = "2026";
  status = active;
  capabilities = default_capabilities;
  execution_counter = 0;
  memory_counter = 0;
  artifact_counter = 0;
  reputation = new_reputation;
  metadata = Value.obj [];
  sui_object_id = Option.none;
}

registers : register registration ≡ ok ada
unfolding register get_or lookup
registers = refl

abbrev later_events : List ProtocolEvent
later_events = write ∷ grant_read ∷ revoke_read ∷ write ∷ registration ∷ []

rebuilt :
    replay_agent hash (pause ∷ registration ∷ later_events)
    ≡ some (replay_known hash ada later_events)
rebuilt =
    replay_agent-registered hash (pause ∷ []) registration later_events ada (refl, tt) refl
      registers

replay_agent-Counts_example :
    (b : AgentIdentity) × (replay_agent hash (pause ∷ registration ∷ later_events) ≡ some b)
    × Counts ada later_events b
replay_agent-Counts_example =
    replay_agent-Counts hash (pause ∷ []) registration later_events ada (refl, tt) refl registers

replay_agent-IsConsistent_example : IsConsistent (replay_known hash ada later_events)
replay_agent-IsConsistent_example =
    replay_agent-IsConsistent hash (pause ∷ registration ∷ later_events)
      (replay_known hash ada later_events) rebuilt

trust_root-replay_agent_example :
    (replay_known hash ada later_events).trust_root ≡ chain hash "r" later_events
trust_root-replay_agent_example =
    trust_root-replay_agent hash (pause ∷ []) registration later_events ada
      (replay_known hash ada later_events) (refl, tt) refl registers rebuilt

-- The root after two events, each hashed onto the one before.
root_after_two : chain hash "r" (write ∷ pause ∷ []) ≡ "##r:e2:e1"
unfolding chain
root_after_two = refl

replay_workspace_lem_example :
    replay_workspace (creation ∷ pause ∷ deletion ∷ write ∷ [])
    ≡ some (record {
      workspace_id = "w";
      name = get_or "name" (str "") creation.payload;
      owner_wallet = "0x1";
      created_at = "2026";
      status = if is_deleted (pause ∷ deletion ∷ write ∷ []) then "deleted" else "active";
    })
replay_workspace_lem_example = replay_workspace_lem creation (pause ∷ deletion ∷ write ∷ []) refl
