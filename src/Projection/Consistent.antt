-- ===== src/Projection/Consistent.antt =====
-- What is true of every identity that a replay rebuilds, whatever the log.
use walrus_os.Base.{
  ◌+◌, ◌≤◌, String, ◌≡◌, refl, List, [], ◌∷◌, some, none, arith, length, length-append, Bool-cases,
  inl, inr, Option,
}
use walrus_os.Base.Result.{ok, Result-cases}
use walrus_os.Model.Value.{value_eq, get}
use walrus_os.Model.Event.{
  EventType, ProtocolEvent, capability_granted, capability_revoked, memory_appended,
}
use walrus_os.Model.Identity.{AgentIdentity, default_capabilities, roll_trust_root}
use walrus_os.Projection.Agent.{
  update, holds, register, text_field, dict_field, is_registration, step_known, replay_known,
  replay_agent, replay_from, apply_agent_event, keep_state-known, keep_state,
}
use walrus_os.Projection.Capabilities.{Distinct, Distinct-append, Distinct-remove, length-remove}

-- The counters agree with the reputation, the capabilities are listed once each, and their number
-- is the four of a new agent, plus the grants, less the revocations.
pub record IsConsistent (a : AgentIdentity) : Type 0 where
  pub writes : a.memory_counter ≡ a.reputation.memory_writes
  pub executions : a.execution_counter ≡ a.memory_counter
  pub uploads : a.artifact_counter ≡ a.reputation.artifact_uploads
  pub signatures :
      a.reputation.successful_signatures
      ≡ a.reputation.memory_writes + a.reputation.artifact_uploads
  pub rejected : a.reputation.failed_verifications ≤ a.reputation.validation_failures
  pub balance :
      length a.capabilities + a.reputation.capability_revocations
      ≡ 4 + a.reputation.capability_grants
  pub distinct : Distinct a.capabilities

update-IsConsistent :
    (t : EventType) (e : ProtocolEvent) (a : AgentIdentity)
    → IsConsistent a
    → IsConsistent (update t e a)
unfolding update
update-IsConsistent capability_granted e a h = ground (
  arith,
  Distinct-append (get "capability" e.payload) a.capabilities,
  length-append a.capabilities (get "capability" e.payload ∷ []),
)
update-IsConsistent capability_revoked e a h = ground (
  arith,
  Distinct-remove (get "capability" e.payload) a.capabilities,
  length-remove (get "capability" e.payload) a.capabilities,
)
update-IsConsistent memory_appended e a h = ground arith
update-IsConsistent _ e a h = ground arith

default_capabilities-Distinct : Distinct default_capabilities
unfolding holds value_eq
default_capabilities-Distinct = (refl, (refl, (refl, (refl, tt))))

register-IsConsistent : (e : ProtocolEvent) (a : AgentIdentity) → register e ≡ ok a → IsConsistent a
unfolding register text_field dict_field
register-IsConsistent e a h = ground (arith, default_capabilities-Distinct)

module _ (sha256 : String → String) where
  step_known-IsConsistent :
      (a : AgentIdentity) (e : ProtocolEvent)
      → IsConsistent a
      → IsConsistent (step_known sha256 a e)
  unfolding step_known roll_trust_root
  step_known-IsConsistent a e h = elim (Bool-cases (is_registration e.event_type)) [
    | inl p ↦ rw p h
    | inr p ↦ rw p (
        let u = update-IsConsistent e.event_type e a h in
        record {
          writes = u.writes;
          executions = u.executions;
          uploads = u.uploads;
          signatures = u.signatures;
          rejected = u.rejected;
          balance = u.balance;
          distinct = u.distinct;
        })
  ]

  replay_known-IsConsistent :
      (a : AgentIdentity) (es : List ProtocolEvent)
      → IsConsistent a
      → IsConsistent (replay_known sha256 a es)
  unfolding replay_known
  replay_known-IsConsistent a [] h = h
  replay_known-IsConsistent a (e ∷ es) h =
      replay_known-IsConsistent (step_known sha256 a e) es (step_known-IsConsistent a e h)

  abbrev EachConsistent : Option AgentIdentity → Type 0
  EachConsistent none = Unit
  EachConsistent (some a) = IsConsistent a

  apply_agent_event-IsConsistent :
      (state : Option AgentIdentity) (e : ProtocolEvent)
      → EachConsistent state
      → EachConsistent (keep_state sha256 state (apply_agent_event sha256 state e))
  unfolding apply_agent_event
  apply_agent_event-IsConsistent none e h = elim (Bool-cases (is_registration e.event_type)) [
    | inl p ↦ elim (Result-cases (register e)) [
      | inl (a, q) ↦ rw (p, q) (register-IsConsistent e a q)
      | inr (c, q) ↦ rw (p, q) tt
    ]
    | inr p ↦ rw p tt
  ]
  apply_agent_event-IsConsistent (some a) e h =
      rw (keep_state-known sha256 a e) (step_known-IsConsistent a e h)

  replay_from-IsConsistent :
      (state : Option AgentIdentity) (es : List ProtocolEvent)
      → EachConsistent state
      → EachConsistent (replay_from sha256 state es)
  unfolding replay_from
  replay_from-IsConsistent state [] h = h
  replay_from-IsConsistent state (e ∷ es) h =
      replay_from-IsConsistent (keep_state sha256 state (apply_agent_event sha256 state e)) es
        (apply_agent_event-IsConsistent state e h)

  -- Whatever the log, the identity that a replay rebuilds is consistent.
  pub replay_agent-IsConsistent :
      (es : List ProtocolEvent) (a : AgentIdentity)
      → replay_agent sha256 es ≡ some a
      → IsConsistent a
  unfolding replay_agent
  replay_agent-IsConsistent es a p = let h = replay_from-IsConsistent none es tt in rw p at h
