-- ===== src/Replay/Tracker.antt =====
-- What `replay` tracks while it walks the log: the public keys that agents registered, and the
-- capabilities that were granted and not revoked.
use walrus_os.Base.{
  String, ◌&&◌, Option, none, some, List, [], ◌∷◌, ◌++◌, ◌||◌, or_default, if◌then◌else◌,
}
use text.Mathlib.Text.{starts_with}
use walrus_os.Base.Dict.{Dict, lookup, insert, has_key}
use walrus_os.Base.Result.{Result, ok, err, type_error, ◌>>=◌}
use walrus_os.Model.Value.{Value, null, str, strs, obj, meta, raw, truthy, get, or_null}
use walrus_os.Model.Event.{
  EventType, ProtocolEvent, agent_registered, capability_granted, capability_revoked,
}
use walrus_os.Projection.Agent.{holds, remove}

-- A key `None` of `agent_keys` has a field of its own.
pub record Tracker : Type 0 where
  pub capabilities : Dict (List Value)
  pub keys : Dict Value
  pub anonymous_key : Value

abbrev pub start : Tracker
start = record { capabilities = []; keys = []; anonymous_key = null }

-- The use of a value as a dict key. A list or a dict raises; a key that is no text is never read
-- again, since agent ids are texts.
unfoldable pub as_key : Value → Result (Option String)
as_key (str s) = ok (some s)
as_key (strs _) = err type_error
as_key (obj _) = err type_error
as_key (meta _) = err type_error
as_key (raw t) = if starts_with t "{" || starts_with t "[" then err type_error else ok none
as_key _ = ok none

abbrev pub caps_of : String → Tracker → List Value
caps_of agent t = or_default (lookup agent t.capabilities) []

abbrev pub set_caps : String → List Value → Tracker → Tracker
set_caps agent caps t = record t { capabilities = insert agent caps t.capabilities }

abbrev pub grant : Value → Option String → Tracker → Tracker
grant cap none t = t
grant cap (some agent) t = set_caps agent (caps_of agent t ++ cap ∷ []) t

abbrev pub revoke : Value → Option String → Tracker → Tracker
revoke cap none t = t
revoke cap (some agent) t =
    if has_key agent t.capabilities && holds cap (caps_of agent t)
    then set_caps agent (remove cap (caps_of agent t)) t
    else t

abbrev pub set_key : Option String → Value → Tracker → Tracker
set_key none key t = record t { anonymous_key = key }
set_key (some agent) key t = record t { keys = insert agent key t.keys }

-- The key and capability statements of one round of the loop.
abbrev pub change_for :
    (Value → Option String → Tracker → Tracker) → Value → Value → Tracker → Result Tracker
change_for change cap target t =
    if truthy target && truthy cap
    then (as_key target >>= λ agent. ok (change cap agent t))
    else ok t

abbrev pub on_capability :
    (Value → Option String → Tracker → Tracker) → ProtocolEvent → Tracker → Result Tracker
on_capability change e t =
    change_for change (get "capability" e.payload) (get "target_agent_id" e.payload) t

abbrev pub track_type : EventType → ProtocolEvent → Tracker → Result Tracker
track_type agent_registered e t = ok (set_key e.agent_id (get "public_key" e.payload) t)
track_type capability_granted e t = on_capability grant e t
track_type capability_revoked e t = on_capability revoke e t
track_type _ e t = ok t

unfoldable pub track : ProtocolEvent → Tracker → Result Tracker
unfolding as_key
track e t = track_type e.event_type e t

-- `agent_keys.get(event.agent_id)`
abbrev pub key_of : Option String → Tracker → Value
key_of none t = t.anonymous_key
key_of (some agent) t = or_null (lookup agent t.keys)

-- `active_capabilities.get(event.agent_id, [])`; there is never a key `None`.
abbrev pub agent_caps : Option String → Tracker → List Value
agent_caps none t = []
agent_caps (some agent) t = caps_of agent t
