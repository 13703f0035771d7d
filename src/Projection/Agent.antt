-- ===== src/Projection/Agent.antt =====
-- `ProjectionEngine.apply_agent_event` and `EventStoreEngine.replay_agent`.
use walrus_os.Base.{
  ◌+◌, String, Bool, true, false, not, ◌&&◌, Option, none, some, List, [], ◌∷◌, ◌++◌, ◌==◌,
  or_default, if◌then◌else◌, ◌≡◌, refl, ◌∙◌, inl, inr, Bool-cases, All,
}
use text.Mathlib.Text.{starts_with}
use walrus_os.Base.Result.{Result, ok, err, ◌>>=◌, value_error}
use walrus_os.Model.Value.{Value, str, obj, meta, raw, truthy, value_eq, get, get_or}
use walrus_os.Model.Event.{
  EventType, ProtocolEvent, agent_registered, agent_paused, agent_resumed, agent_terminated,
  capability_granted, capability_revoked, memory_appended, artifact_uploaded, validation_passed,
  validation_failed,
}
use walrus_os.Model.Identity.{
  AgentIdentity, active, paused, terminated, new_reputation, default_capabilities, roll_trust_root,
}

-- `cap in caps`
unfoldable pub holds : Value → List Value → Bool
holds cap [] = false
holds cap (x ∷ caps) = let rest = holds cap caps in if value_eq x cap then true else rest

-- `caps.remove(cap)`: the first one that is equal
unfoldable pub remove : Value → List Value → List Value
remove cap [] = []
remove cap (x ∷ caps) = if value_eq x cap then caps else x ∷ remove cap caps

-- The validation of a `str` field of the model, whose `ValidationError` is a `ValueError`.
unfoldable pub text_field : Value → Result String
text_field (str s) = ok s
text_field _ = err value_error

-- The same for a `Dict[str, Any]` field.
unfoldable pub dict_field : Value → Result Value
dict_field (obj d) = ok (obj d)
dict_field (meta m) = ok (meta m)
dict_field (raw t) = if starts_with t "{" then ok (raw t) else err value_error
dict_field _ = err value_error

-- The identity that a registration makes.
unfoldable pub register : ProtocolEvent → Result AgentIdentity
unfolding text_field dict_field
register e = do
  name ← text_field (get_or "agent_name" (str "") e.payload)
  key ← text_field (get_or "public_key" (str "") e.payload)
  root ← text_field (get_or "trust_root" (str "") e.payload)
  metadata ← dict_field (get_or "metadata" (obj []) e.payload)
  ok (record {
    agent_id = or_default e.agent_id "";
    workspace_id = e.workspace_id;
    agent_name = name;
    owner_wallet = e.wallet;
    public_key = key;
    trust_root = root;
    created_at = e.timestamp;
    status = active;
    capabilities = default_capabilities;
    execution_counter = 0;
    memory_counter = 0;
    artifact_counter = 0;
    reputation = new_reputation;
    metadata = metadata;
    sui_object_id = none;
  })

abbrev pub is_text : String → Value → Bool
is_text s (str t) = t == s
is_text s _ = false

-- The ladder of `elif`s on the event's type.
unfoldable pub update : EventType → ProtocolEvent → AgentIdentity → AgentIdentity
update agent_paused e a = record a { status = paused }
update agent_resumed e a = record a { status = active }
update agent_terminated e a = record a { status = terminated }
update memory_appended e a = record a {
  memory_counter = a.memory_counter + 1;
  execution_counter = a.execution_counter + 1;
  reputation = record (a.reputation) {
    memory_writes = a.reputation.memory_writes + 1;
    successful_signatures = a.reputation.successful_signatures + 1;
  };
}
update artifact_uploaded e a = record a {
  artifact_counter = a.artifact_counter + 1;
  reputation = record (a.reputation) {
    artifact_uploads = a.reputation.artifact_uploads + 1;
    successful_signatures = a.reputation.successful_signatures + 1;
  };
}
update validation_passed e a = record a {
  reputation = record (a.reputation) {
    validation_approvals = a.reputation.validation_approvals + 1;
  };
}
update validation_failed e a = record a {
  reputation = record (a.reputation) {
    validation_failures = a.reputation.validation_failures + 1;
    failed_verifications =
        a.reputation.failed_verifications
        + (if is_text "bad_signature" (get "reason" e.payload) then 1 else 0);
  };
}
update capability_granted e a =
    let cap = get "capability" e.payload in
    if truthy cap && not (holds cap a.capabilities)
    then record a {
      capabilities = a.capabilities ++ cap ∷ [];
      reputation = record (a.reputation) { capability_grants = a.reputation.capability_grants + 1 };
    }
    else a
update capability_revoked e a =
    let cap = get "capability" e.payload in
    if truthy cap && holds cap a.capabilities
    then record a {
      capabilities = remove cap a.capabilities;
      reputation = record (a.reputation) {
        capability_revocations = a.reputation.capability_revocations + 1;
      };
    }
    else a
update _ e a = a

abbrev pub is_registration : EventType → Bool
is_registration agent_registered = true
is_registration _ = false

module _ (sha256 : String → String) where
  abbrev pub apply_known : Option AgentIdentity → ProtocolEvent → Result AgentIdentity
  apply_known none e = err value_error
  apply_known (some a) e = ok (roll_trust_root sha256 e.event_id (update e.event_type e a))

  abbrev pub apply_registration : Option AgentIdentity → ProtocolEvent → Result AgentIdentity
  apply_registration none e = register e
  apply_registration (some a) e = err value_error

  unfoldable pub apply_agent_event : Option AgentIdentity → ProtocolEvent → Result AgentIdentity
  apply_agent_event state e =
      if is_registration e.event_type then apply_registration state e else apply_known state e

  -- `except ValueError: pass`; every error of `apply_agent_event` is one.
  abbrev pub keep_state : Option AgentIdentity → Result AgentIdentity → Option AgentIdentity
  keep_state state (ok a) = some a
  keep_state state (err _) = state

  -- The loop of `replay_agent`. For no events it returns `None`, as the code does.
  unfoldable pub replay_from : Option AgentIdentity → List ProtocolEvent → Option AgentIdentity
  replay_from state [] = state
  replay_from state (e ∷ es) = replay_from (keep_state state (apply_agent_event state e)) es

  unfoldable pub replay_agent : List ProtocolEvent → Option AgentIdentity
  replay_agent es = replay_from none es

  -- What one event does to an agent that is registered: a second registration is ignored.
  unfoldable pub step_known : AgentIdentity → ProtocolEvent → AgentIdentity
  step_known a e =
      if is_registration e.event_type
      then a
      else roll_trust_root sha256 e.event_id (update e.event_type e a)

  unfoldable pub replay_known : AgentIdentity → List ProtocolEvent → AgentIdentity
  replay_known a [] = a
  replay_known a (e ∷ es) = replay_known (step_known a e) es

  pub keep_state-known :
      (a : AgentIdentity) (e : ProtocolEvent)
      → keep_state (some a) (apply_agent_event (some a) e) ≡ some (step_known a e)
  unfolding apply_agent_event step_known
  keep_state-known a e = elim (Bool-cases (is_registration e.event_type)) [
    | inl p ↦ rw p
    | inr p ↦ rw p
  ]

  -- From a registered agent the replay never fails, and is the plain fold.
  pub replay_from-known :
      (a : AgentIdentity) (es : List ProtocolEvent)
      → replay_from (some a) es ≡ some (replay_known a es)
  unfolding replay_from replay_known
  replay_from-known a [] = refl
  replay_from-known a (e ∷ es) = rw (keep_state-known a e) (replay_from-known (step_known a e) es)

  apply_agent_event-early :
      (e : ProtocolEvent)
      → is_registration e.event_type ≡ false
      → keep_state none (apply_agent_event none e) ≡ none
  unfolding apply_agent_event
  apply_agent_event-early e h = rw h

  apply_agent_event-first :
      (e : ProtocolEvent) (a : AgentIdentity)
      → is_registration e.event_type ≡ true
      → register e ≡ ok a
      → keep_state none (apply_agent_event none e) ≡ some a
  unfolding apply_agent_event
  apply_agent_event-first e a h p = rw (h, p)

  -- Events before the registration leave no trace.
  pub replay_from-none :
      (before es : List ProtocolEvent)
      → All (λ e. is_registration e.event_type ≡ false) before
      → replay_from none (before ++ es) ≡ replay_from none es
  unfolding replay_from
  replay_from-none [] es h = refl
  replay_from-none (e ∷ before) es h =
      rw (apply_agent_event-early e h.0, replay_from) (replay_from-none before es h.1)

  pub replay_agent-registered :
      (before : List ProtocolEvent) (r : ProtocolEvent) (es : List ProtocolEvent)
      (a : AgentIdentity)
      → All (λ e. is_registration e.event_type ≡ false) before
      → is_registration r.event_type ≡ true
      → register r ≡ ok a
      → replay_agent (before ++ r ∷ es) ≡ some (replay_known a es)
  unfolding replay_agent replay_from
  replay_agent-registered before r es a early first registered =
      replay_from-none before (r ∷ es) early
      ∙ rw (apply_agent_event-first r a first registered) (replay_from-known a es)
