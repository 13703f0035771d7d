-- ===== src/Sdk/Status.antt =====
-- Changes of an agent's status: what the next use of the client finds.
use walrus_os.Base.{Option}
use walrus_os.Model.Identity.{AgentIdentity}
use walrus_os.Projection.Agent.{replay_agent}
use walrus_os.Adapters.Ledger.{get_events_for_agent}
use walrus_os.EventStore.{EventStore}
use walrus_os.Sdk.Agent.{AgentClient, Host}

module _ (h : Host) (c : AgentClient) where
  abbrev log_of : EventStore → Option AgentIdentity
  log_of s = replay_agent h.env.sha256 (get_events_for_agent c.agent_id s.ledger)
