-- ===== src/Replay/Access.antt =====
-- Writing and forking by capability: what `replay` lets through with `verify_capabilities`.
use mathlib.Core.List.{append_assoc}
use walrus_os.Base.{
  ◌≢◌, eq_iff, String, ◌≡◌, refl, sym, ◌∙◌, Bool, true, false, not, ◌&&◌, Option, some, List, [],
  ◌∷◌, ◌++◌, All, arith, ◌⊎◌, inl, inr, Bool-cases, if◌then◌else◌,
}
use walrus_os.Base.Dict.{lookup}
use walrus_os.Base.Result.{ok}
use walrus_os.Model.Value.{Value, str, get, truthy, value_eq_iff}
use walrus_os.Model.Event.{
  is_memory_appended, is_memory_forked, EventType, ProtocolEvent, memory_appended, memory_forked,
  capability_granted, capability_revoked,
}
use walrus_os.Model.Crypto.{Primitives}
use walrus_os.Projection.Agent.{holds, remove}
use walrus_os.Replay.Tracker.{Tracker, start, track, caps_of}
use walrus_os.Replay.Held.{held, held_from, held_type, track-held}
use walrus_os.Replay.Engine.{Options, admits, is_last, replay_from, replay, capability_ok, is_empty}
use walrus_os.Replay.Sound.{last, past, more, round, push}

-- The capability that an event of the type asks for.
abbrev pub Needs : EventType → List Value → Type 0
Needs memory_appended caps = (caps ≡ []) ⊎ (holds (str "write") caps ≡ true)
Needs memory_forked caps = (caps ≡ []) ⊎ (holds (str "fork") caps ≡ true)
Needs _ caps = Unit

-- At the event's place in the log its agent holds what it needs, or nothing at all.
abbrev pub Allowed : List ProtocolEvent → ProtocolEvent → Type 0
Allowed log e =
    (before : List ProtocolEvent) × (after : List ProtocolEvent) × (log ≡ before ++ e ∷ after)
    × ((agent : String) → e.agent_id ≡ some agent → Needs e.event_type (held agent before))

held_from-append :
    (agent : String) (caps : List Value) (xs ys : List ProtocolEvent)
    → held_from agent caps (xs ++ ys) ≡ held_from agent (held_from agent caps xs) ys
unfolding held_from
held_from-append agent caps [] ys = refl
held_from-append agent caps (x ∷ xs) ys =
    held_from-append agent (held_type x.event_type agent x caps) xs ys

-- An event that asks for a capability changes none.
Needs-held_type :
    (ty : EventType) (agent : String) (e : ProtocolEvent) (caps : List Value)
    → Needs ty (held_type ty agent e caps)
    → Needs ty caps
Needs-held_type memory_appended agent e caps h = h
Needs-held_type memory_forked agent e caps h = h
Needs-held_type capability_granted agent e caps h = tt
Needs-held_type _ agent e caps h = tt

capability_ok-Needs :
    (o : Options) (t : Tracker) (e : ProtocolEvent) (agent : String)
    → o.verify_capabilities ≡ true
    → e.agent_id ≡ some agent
    → capability_ok o t e ≡ true
    → Needs e.event_type (caps_of agent t)
unfolding capability_ok
capability_ok-Needs o t e agent v a h = needs e.event_type (caps_of agent t) (ground arith)
  where
    needs :
        (ty : EventType) (caps : List Value)
        → (if is_memory_appended ty && not (is_empty caps) && not (holds (str "write") caps)
            then false
            else not (is_memory_forked ty && not (is_empty caps) && not (holds (str "fork") caps)))
          ≡ true
        → Needs ty caps
    needs memory_appended caps q = ground arith
    needs memory_forked caps q = ground arith
    needs capability_granted caps q = tt
    needs _ caps q = tt

module _ (c : Primitives) (later : String → String → Option Bool) (o : Options)
    (v : o.verify_capabilities ≡ true) where
  abbrev Follows : List ProtocolEvent → Tracker → Type 0
  Follows before t = (agent : String) → caps_of agent t ≡ held agent before

  abbrev pub Outcome : List ProtocolEvent → ProtocolEvent → Type 0
  Outcome log e = (is_last o e ≡ true) ⊎ Allowed log e

  Follows-track :
      (before : List ProtocolEvent) (e : ProtocolEvent) (t t' : Tracker)
      → Follows before t
      → track e t ≡ ok t'
      → Follows (before ++ e ∷ []) t'
  unfolding held
  Follows-track before e t t' f p agent =
      track-held agent e t t' p ∙ rw (f agent) (sym (held_from-append agent [] before (e ∷ [])))

  admits-Allowed :
      (before after : List ProtocolEvent) (e : ProtocolEvent) (t t' : Tracker)
      → Follows before t
      → track e t ≡ ok t'
      → admits c o t' e ≡ true
      → Allowed (before ++ e ∷ after) e
  unfolding held held_from admits
  admits-Allowed before after e t t' f p a = (
    before,
    after,
    refl,
    λ agent q. Needs-held_type e.event_type agent e (held agent before) (
        rw (← f agent, ← track-held agent e t t' p)
          (capability_ok-Needs o t' e agent v q (ground arith))),
  )

  All-push :
      (log : List ProtocolEvent) (t : Tracker) (e : ProtocolEvent) (r : List ProtocolEvent)
      → (admits c o t e ≡ true → Outcome log e)
      → All (Outcome log) r
      → All (Outcome log) (push c later o t e r)
  All-push log t e r ok_here h = elim (Bool-cases (admits c o t e)) [
    | inl a ↦ rw a (ok_here a, h)
    | inr a ↦ rw a h
  ]

  replay_from-Allowed :
      (before es r : List ProtocolEvent) (t : Tracker)
      → Follows before t
      → replay_from c later o t es ≡ ok r
      → All (Outcome (before ++ es)) r
  unfolding replay_from
  replay_from-Allowed before [] r t f h = let e : r ≡ [] = cc in rw e tt
  replay_from-Allowed before (e ∷ es) r t f h = elim (round c later o t e es r h) [
    | last a p ↦ rw p (inl a, tt)
    | past a p ↦ rw p tt
    | more t' rest p q x ↦ rw x (
        All-push (before ++ e ∷ es) t' e rest (λ a. inr (admits-Allowed before es e t t' f p a))
          (rw append_assoc at (
            replay_from-Allowed (before ++ e ∷ []) es rest t' (Follows-track before e t t' f p) q)))
  ]

  -- With `verify_capabilities` on, each returned append or fork but the event that `until_event`
  -- names stands in the log at a place where its agent holds `write` or `fork`, or no capability.
  pub replay-Allowed : (es r : List ProtocolEvent) → replay c later o es ≡ ok r → All (Outcome es) r
  unfolding replay held held_from lookup
  replay-Allowed es r h = replay_from-Allowed [] es r start (λ agent. refl) h

-- A revocation that takes an agent's last capability opens every append and fork to it again: the
-- check lets an agent with an empty list through, though what the agent held did not allow it.
pub revoke_last-capability_ok :
    (o : Options) (t t' : Tracker) (g e : ProtocolEvent) (agent : String) (cap : Value)
    → caps_of agent t ≡ cap ∷ []
    → g.event_type ≡ capability_revoked
    → get "target_agent_id" g.payload ≡ str agent
    → get "capability" g.payload ≡ cap
    → truthy cap ≡ true
    → agent ≢ ""
    → track g t ≡ ok t'
    → e.agent_id ≡ some agent
    → capability_ok o t' e ≡ true
unfolding capability_ok held_from holds remove truthy
revoke_last-capability_ok o t t' g e agent cap one ty target same there named p who =
    let gone : caps_of agent t' ≡ [] = ground (
      arith,
      track-held agent g t t' p,
      value_eq_iff cap cap,
      eq_iff agent agent,
      eq_iff agent "",
    ) in
    ground arith
