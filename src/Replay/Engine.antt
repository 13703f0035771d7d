-- ===== src/Replay/Engine.antt =====
-- `ReplayEngine.replay`: the checks of one event and the loop over the log.
use walrus_os.Base.{
  String, Bool, true, false, not, ◌&&◌, Option, none, some, List, [], ◌∷◌, ◌==◌, or_default,
  if◌then◌else◌,
}
use walrus_os.Base.Result.{Result, ok, ◌>>=◌}
use walrus_os.Model.Value.{Value, str, truthy, get, as_text}
use walrus_os.Model.Event.{ProtocolEvent, is_memory_appended, is_memory_forked}
use walrus_os.Model.Crypto.{Primitives, canonicalize_payload, hash_payload, verify_signature}
use walrus_os.Projection.Agent.{holds}
use walrus_os.Replay.BlobId.{valid_blob_id}
use walrus_os.Replay.Tracker.{Tracker, start, track, key_of, agent_caps}

-- The arguments of `replay` besides the log.
pub record Options : Type 0 where
  pub until_timestamp : Option String
  pub until_event : Option String
  pub verify_crypto : Bool
  pub verify_capabilities : Bool

abbrev pub is_empty : List Value → Bool
is_empty [] = true
is_empty (_ ∷ _) = false

-- A text argument or field that is there and not empty
abbrev pub present : Option String → Bool
present none = false
present (some s) = not (s == "")

-- `a != b` for an optional text and a text
abbrev pub differs : Option String → String → Bool
differs none b = true
differs (some a) b = not (a == b)

-- An event counts as signed if its signature is neither empty nor the mark of a migration.
abbrev pub is_signed : ProtocolEvent → Bool
is_signed e = not (e.signature == "") && not (e.signature == "v0_migration")

-- `event.payload.get("public_key") or agent_keys.get(event.agent_id)`
unfoldable pub key_for : Tracker → ProtocolEvent → Value
key_for t e =
    let own = get "public_key" e.payload in if truthy own then own else key_of e.agent_id t

-- Step 5: an agent with a list that is not empty needs the capability that the event's type asks.
unfoldable pub capability_ok : Options → Tracker → ProtocolEvent → Bool
capability_ok o t e =
    let caps = agent_caps e.agent_id t in
    if o.verify_capabilities
      && is_memory_appended e.event_type
      && not (is_empty caps)
      && not (holds (str "write") caps)
    then false
    else not (
        o.verify_capabilities
        && is_memory_forked e.event_type
        && not (is_empty caps)
        && not (holds (str "fork") caps))

module _ (c : Primitives) where
  -- A signature check with a key of any kind: a key that is no text raises inside, and is refused.
  unfoldable pub signed_by : Value → String → String → Bool
  signed_by key hash signature = elim (as_text key) [
    | none ↦ false
    | some k ↦ verify_signature c k hash signature
  ]

  -- The `try` block of step 4, on the hash of the canonical payload: `false` is a dropped event.
  unfoldable pub hash_and_signature_ok : Tracker → ProtocolEvent → String → Bool
  unfolding key_for signed_by
  hash_and_signature_ok t e hash =
      if is_memory_appended e.event_type && present e.blob_hash && differs e.blob_hash hash
      then false
      else if truthy (key_for t e)
      then signed_by (key_for t e) hash e.signature
      else true

  unfoldable pub crypto_ok : Options → Tracker → ProtocolEvent → Bool
  unfolding hash_and_signature_ok canonicalize_payload hash_payload
  crypto_ok o t e =
      if o.verify_crypto && is_signed e
      then elim (canonicalize_payload c e.payload) [
        | none ↦ false
        | some bytes ↦ hash_and_signature_ok t e (hash_payload c bytes)
      ]
      else true

  -- The steps 3 to 5 in their order.
  unfoldable pub admits : Options → Tracker → ProtocolEvent → Bool
  unfolding crypto_ok capability_ok
  admits o t e = valid_blob_id e.blob_id && crypto_ok o t e && capability_ok o t e

-- Step 1: `until_event`
unfoldable pub is_last : Options → ProtocolEvent → Bool
is_last o e = present o.until_event && (e.event_id == or_default o.until_event "")

-- `until_timestamp`, whose parsing errors are ignored: `later a b` is `isoparse(a) > isoparse(b)`,
-- and `none` if it raises.
unfoldable pub is_past : (String → String → Option Bool) → Options → ProtocolEvent → Bool
is_past later o e =
    present o.until_timestamp
    && or_default (later e.timestamp (or_default o.until_timestamp "")) false

module _ (c : Primitives) (later : String → String → Option Bool) where
  unfoldable pub replay_from : Options → Tracker → List ProtocolEvent → Result (List ProtocolEvent)
  replay_from o t [] = ok []
  replay_from o t (e ∷ es) =
      let rest =
        (track e t >>= λ t'.
        replay_from o t' es >>= λ r. ok (if admits c o t' e then e ∷ r else r)) in
      if is_last o e then ok (e ∷ []) else if is_past later o e then ok [] else rest

  unfoldable pub replay : Options → List ProtocolEvent → Result (List ProtocolEvent)
  unfolding replay_from
  replay o es = replay_from o start es
