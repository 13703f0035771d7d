-- ===== src/Projection/Counters.antt =====
-- The counters of a replayed agent count the events of the log.
use walrus_os.Base.{
  ℕ, some, All, ◌++◌, ◌+◌, String, ◌≡◌, Bool, true, false, List, [], ◌∷◌, arith, if◌then◌else◌,
}
use walrus_os.Model.Event.{
  EventType, ProtocolEvent, memory_appended, artifact_uploaded, validation_passed,
  validation_failed,
}
use walrus_os.Model.Identity.{AgentIdentity, roll_trust_root}
use walrus_os.Base.Result.{ok}
use walrus_os.Projection.Agent.{
  update, is_registration, register, step_known, replay_known, replay_agent,
  replay_agent-registered,
}

abbrev pub is_append : EventType → Bool
is_append memory_appended = true
is_append _ = false

abbrev pub is_upload : EventType → Bool
is_upload artifact_uploaded = true
is_upload _ = false

abbrev pub is_approval : EventType → Bool
is_approval validation_passed = true
is_approval _ = false

abbrev pub is_failure : EventType → Bool
is_failure validation_failed = true
is_failure _ = false

-- How many events of a log are of a kind.
unfoldable pub count_of : (EventType → Bool) → List ProtocolEvent → ℕ
count_of p [] = 0
count_of p (e ∷ es) = (if p e.event_type then 1 else 0) + count_of p es

-- `b` is `a` with its counters raised by the events of the log.
pub record Counts (a : AgentIdentity) (es : List ProtocolEvent) (b : AgentIdentity) : Type 0 where
  pub memory : b.memory_counter ≡ a.memory_counter + count_of is_append es
  pub executions : b.execution_counter ≡ a.execution_counter + count_of is_append es
  pub artifacts : b.artifact_counter ≡ a.artifact_counter + count_of is_upload es
  pub approvals :
      b.reputation.validation_approvals
      ≡ a.reputation.validation_approvals + count_of is_approval es
  pub failures :
      b.reputation.validation_failures ≡ a.reputation.validation_failures + count_of is_failure es

module _ (sha256 : String → String) where
  -- One event, by its type.
  step-Counts :
      (t : EventType) (e : ProtocolEvent) (a : AgentIdentity)
      → let b =
          (if is_registration t then a else roll_trust_root sha256 e.event_id (update t e a)) in
        (b.memory_counter ≡ a.memory_counter + (if is_append t then 1 else 0))
        × (b.execution_counter ≡ a.execution_counter + (if is_append t then 1 else 0))
        × (b.artifact_counter ≡ a.artifact_counter + (if is_upload t then 1 else 0))
        × (b.reputation.validation_approvals
            ≡ a.reputation.validation_approvals + (if is_approval t then 1 else 0))
        × (b.reputation.validation_failures
            ≡ a.reputation.validation_failures + (if is_failure t then 1 else 0))
  unfolding update roll_trust_root
  step-Counts memory_appended e a = ground arith
  step-Counts _ e a = ground arith

  step_known-Counts :
      (a : AgentIdentity) (e : ProtocolEvent) → Counts a (e ∷ []) (step_known sha256 a e)
  unfolding step_known count_of
  step_known-Counts a e = omega (arith, step-Counts e.event_type e a)

  replay_known-Counts :
      (a : AgentIdentity) (es : List ProtocolEvent) → Counts a es (replay_known sha256 a es)
  unfolding replay_known count_of
  replay_known-Counts a [] = omega arith
  replay_known-Counts a (e ∷ es) =
      omega (arith, step_known-Counts a e, replay_known-Counts (step_known sha256 a e) es)

  -- An agent whose first registration in the log is accepted is rebuilt by the replay, and its
  -- counters are exactly the numbers of the later events of each kind.
  pub replay_agent-Counts :
      (before : List ProtocolEvent) (r : ProtocolEvent) (es : List ProtocolEvent)
      (a : AgentIdentity)
      → All (λ e. is_registration e.event_type ≡ false) before
      → is_registration r.event_type ≡ true
      → register r ≡ ok a
      → (b : AgentIdentity) × (replay_agent sha256 (before ++ r ∷ es) ≡ some b) × Counts a es b
  replay_agent-Counts before r es a early first registered = (
    replay_known sha256 a es,
    replay_agent-registered sha256 before r es a early first registered,
    replay_known-Counts a es,
  )
