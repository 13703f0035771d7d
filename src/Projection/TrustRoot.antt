-- ===== src/Projection/TrustRoot.antt =====
-- The trust root of a replayed agent is the hash chain of the events that it took.
use walrus_os.Base.{
  String, ◌<>◌, ◌≡◌, refl, true, false, List, [], ◌∷◌, ◌++◌, some, All, arith, if◌then◌else◌,
}
use walrus_os.Base.Result.{ok}
use walrus_os.Model.Event.{
  EventType, ProtocolEvent, memory_appended, agent_paused, agent_resumed, agent_terminated,
}
use walrus_os.Model.Identity.{
  AgentIdentity, AgentStatus, active, paused, terminated, roll_trust_root,
}
use walrus_os.Projection.Agent.{
  update, is_registration, register, step_known, replay_known, replay_agent,
  replay_agent-registered,
}

module _ (sha256 : String → String) where
  -- The chain, from a root, over the ids of all events but registrations.
  unfoldable pub chain : String → List ProtocolEvent → String
  chain root [] = root
  chain root (e ∷ es) =
      chain (if is_registration e.event_type then root else sha256 (root <> ":" <> e.event_id)) es

  step-trust_root :
      (t : EventType) (e : ProtocolEvent) (a : AgentIdentity)
      → (if is_registration t
          then a
          else roll_trust_root sha256 e.event_id (update t e a)).trust_root
        ≡ (if is_registration t then a.trust_root else sha256 (a.trust_root <> ":" <> e.event_id))
  unfolding update roll_trust_root
  step-trust_root memory_appended e a = refl
  step-trust_root _ e a = ground arith

  replay_known-chain :
      (a : AgentIdentity) (es : List ProtocolEvent)
      → (replay_known sha256 a es).trust_root ≡ chain a.trust_root es
  unfolding replay_known chain step_known
  replay_known-chain a [] = refl
  replay_known-chain a (e ∷ es) =
      rw (← step-trust_root e.event_type e a) (replay_known-chain (step_known sha256 a e) es)

  -- The replayed agent carries the hash chain from its registered root over the ids of all later
  -- events that are no registrations, in their order.
  pub trust_root-replay_agent :
      (before : List ProtocolEvent) (r : ProtocolEvent) (es : List ProtocolEvent)
      (a b : AgentIdentity)
      → All (λ e. is_registration e.event_type ≡ false) before
      → is_registration r.event_type ≡ true
      → register r ≡ ok a
      → replay_agent sha256 (before ++ r ∷ es) ≡ some b
      → b.trust_root ≡ chain a.trust_root es
  trust_root-replay_agent before r es a b early first registered p = ground (
    arith,
    replay_agent-registered sha256 before r es a early first registered,
    replay_known-chain a es,
  )

  -- The lifecycle as the last lifecycle event of the log leaves it.
  abbrev pub status_after : AgentStatus → EventType → AgentStatus
  status_after s agent_paused = paused
  status_after s agent_resumed = active
  status_after s agent_terminated = terminated
  status_after s _ = s
