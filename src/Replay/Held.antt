-- ===== src/Replay/Held.antt =====
-- The capabilities of one agent, read off the log alone, and that the tracker keeps them.
use walrus_os.Base.{String, ◌≡◌, ◌&&◌, List, [], ◌∷◌, ◌++◌, arith, eq_iff, if◌then◌else◌}
use walrus_os.Base.Dict.{lookup-insert}
use walrus_os.Base.Result.{ok}
use walrus_os.Model.Value.{Value, str, truthy, get}
use walrus_os.Model.Event.{EventType, ProtocolEvent, capability_granted, capability_revoked}
use walrus_os.Projection.Agent.{holds, remove, is_text}
use walrus_os.Replay.Tracker.{
  Tracker, track, track_type, as_key, caps_of, grant, revoke, change_for,
}

abbrev pub granted : Value → List Value → List Value
granted cap caps = caps ++ cap ∷ []

abbrev pub revoked : Value → List Value → List Value
revoked cap caps = if holds cap caps then remove cap caps else caps

-- One agent's list, if the target of the event is the agent.
abbrev pub if_target :
    String → Value → Value → (Value → List Value → List Value) → List Value → List Value
if_target agent cap target change caps =
    if truthy target && truthy cap && is_text agent target then change cap caps else caps

abbrev pub held_type : EventType → String → ProtocolEvent → List Value → List Value
held_type capability_granted agent e caps =
    if_target agent (get "capability" e.payload) (get "target_agent_id" e.payload) granted caps
held_type capability_revoked agent e caps =
    if_target agent (get "capability" e.payload) (get "target_agent_id" e.payload) revoked caps
held_type _ agent e caps = caps

unfoldable pub held_from : String → List Value → List ProtocolEvent → List Value
held_from agent caps [] = caps
held_from agent caps (e ∷ es) = held_from agent (held_type e.event_type agent e caps) es

-- What an agent holds after a log.
unfoldable pub held : String → List ProtocolEvent → List Value
held agent es = held_from agent [] es

grant-held :
    (agent : String) (cap target : Value) (t t' : Tracker)
    → change_for grant cap target t ≡ ok t'
    → caps_of agent t' ≡ if_target agent cap target granted (caps_of agent t)
unfolding as_key
grant-held agent cap (str s) t t' h =
    ground (arith, lookup-insert s agent (caps_of s t ++ cap ∷ []) t.capabilities, eq_iff s agent)
grant-held agent cap target t t' h = ground arith

revoke-held :
    (agent : String) (cap target : Value) (t t' : Tracker)
    → change_for revoke cap target t ≡ ok t'
    → caps_of agent t' ≡ if_target agent cap target revoked (caps_of agent t)
unfolding as_key holds
revoke-held agent cap (str s) t t' h =
    ground (arith, lookup-insert s agent (remove cap (caps_of s t)) t.capabilities, eq_iff s agent)
revoke-held agent cap target t t' h = ground arith

track_type-held :
    (ty : EventType) (agent : String) (e : ProtocolEvent) (t t' : Tracker)
    → track_type ty e t ≡ ok t'
    → caps_of agent t' ≡ held_type ty agent e (caps_of agent t)
track_type-held capability_granted agent e t t' h =
    grant-held agent (get "capability" e.payload) (get "target_agent_id" e.payload) t t' h
track_type-held capability_revoked agent e t t' h =
    revoke-held agent (get "capability" e.payload) (get "target_agent_id" e.payload) t t' h
track_type-held ty agent e t t' h = ground arith

pub track-held :
    (agent : String) (e : ProtocolEvent) (t t' : Tracker)
    → track e t ≡ ok t'
    → caps_of agent t' ≡ held_from agent (caps_of agent t) (e ∷ [])
unfolding track held_from
track-held agent e t t' h = track_type-held e.event_type agent e t t' h
