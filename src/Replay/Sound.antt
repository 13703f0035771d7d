-- ===== src/Replay/Sound.antt =====
-- What the replay keeps: a sublist of the log, in which every event but the one that `until_event`
-- names has passed all checks.
use walrus_os.Base.{
  String, ◌≡◌, Bool, true, Option, List, [], ◌∷◌, All, arith, ◌⊎◌, inl, inr, Bool-cases,
  if◌then◌else◌,
}
use walrus_os.Base.Result.{ok, Result-cases}
use walrus_os.Model.Event.{ProtocolEvent}
use walrus_os.Model.Crypto.{Primitives}
use walrus_os.Replay.Tracker.{Tracker, start, track}
use walrus_os.Replay.Genuine.{Genuine, admits-Genuine}
use walrus_os.Replay.Engine.{Options, admits, is_last, is_past, replay_from, replay}

-- `xs` is `ys` with some events left out, in the same order.
pub data Sublist : List ProtocolEvent → List ProtocolEvent → Type 0 where
  stop : (es : List ProtocolEvent) → Sublist [] es
  keep :
      {xs ys : List ProtocolEvent} (e : ProtocolEvent) → Sublist xs ys → Sublist (e ∷ xs) (e ∷ ys)
  skip : {xs ys : List ProtocolEvent} (e : ProtocolEvent) → Sublist xs ys → Sublist xs (e ∷ ys)

module _ (c : Primitives) (later : String → String → Option Bool) (o : Options) where
  -- What one round of the loop makes of the rounds after it.
  abbrev pub push : Tracker → ProtocolEvent → List ProtocolEvent → List ProtocolEvent
  push t e r = if admits c o t e then e ∷ r else r

  -- The cases of one round.
  pub data Round (t : Tracker) (e : ProtocolEvent) (es r : List ProtocolEvent) : Type 0 where
    last : is_last o e ≡ true → r ≡ e ∷ [] → Round t e es r
    past : is_past later o e ≡ true → r ≡ [] → Round t e es r
    more :
        (t' : Tracker) (rest : List ProtocolEvent)
        → track e t ≡ ok t'
        → replay_from c later o t' es ≡ ok rest
        → r ≡ push t' e rest
        → Round t e es r

  pub round :
      (t : Tracker) (e : ProtocolEvent) (es r : List ProtocolEvent)
      → replay_from c later o t (e ∷ es) ≡ ok r
      → Round t e es r
  unfolding replay_from
  round t e es r h = elim (Bool-cases (is_last o e)) [
    | inl a ↦ last a (ground arith)
    | inr a ↦ elim (Bool-cases (is_past later o e)) [
      | inl b ↦ past b (ground arith)
      | inr b ↦ elim (Result-cases (track e t)) [
        | inr (x, p) ↦ absurd (ground arith)
        | inl (t', p) ↦ elim (Result-cases (replay_from c later o t' es)) [
          | inr (x, q) ↦ absurd (ground arith)
          | inl (rest, q) ↦ more t' rest p q (ground arith)
        ]
      ]
    ]
  ]

  Sublist-push :
      (t : Tracker) (e : ProtocolEvent) (r es : List ProtocolEvent)
      → Sublist r es
      → Sublist (push t e r) (e ∷ es)
  Sublist-push t e r es h = elim (Bool-cases (admits c o t e)) [
    | inl a ↦ rw a (keep e h)
    | inr a ↦ rw a (skip e h)
  ]

  Sublist-replay_from :
      (t : Tracker) (es r : List ProtocolEvent) → replay_from c later o t es ≡ ok r → Sublist r es
  unfolding replay_from
  Sublist-replay_from t [] r h = let e : r ≡ [] = cc in rw e (stop [])
  Sublist-replay_from t (e ∷ es) r h = elim (round t e es r h) [
    | last a p ↦ rw p (keep e (stop es))
    | past a p ↦ rw p (stop (e ∷ es))
    | more t' rest p q x ↦ rw x (Sublist-push t' e rest es (Sublist-replay_from t' es rest q))
  ]

  -- The replay returns events of the log, each at most as often, in the log's order.
  pub Sublist-replay : (es r : List ProtocolEvent) → replay c later o es ≡ ok r → Sublist r es
  unfolding replay
  Sublist-replay es r h = Sublist-replay_from start es r h

  -- An event is the one named by `until_event`, or it passed the checks under some tracked state.
  abbrev pub Admitted : ProtocolEvent → Type 0
  Admitted e = (is_last o e ≡ true) ⊎ ((t : Tracker) × (admits c o t e ≡ true))

  All-push :
      (t : Tracker) (e : ProtocolEvent) (r : List ProtocolEvent)
      → All Admitted r
      → All Admitted (push t e r)
  All-push t e r h = elim (Bool-cases (admits c o t e)) [
    | inl a ↦ rw a (inr (t, a), h)
    | inr a ↦ rw a h
  ]

  replay_from-Admitted :
      (t : Tracker) (es r : List ProtocolEvent) → replay_from c later o t es ≡ ok r → All Admitted r
  unfolding replay_from
  replay_from-Admitted t [] r h = let e : r ≡ [] = cc in rw e tt
  replay_from-Admitted t (e ∷ es) r h = elim (round t e es r h) [
    | last a p ↦ rw p (inl a, tt)
    | past a p ↦ rw p tt
    | more t' rest p q x ↦ rw x (All-push t' e rest (replay_from-Admitted t' es rest q))
  ]

  abbrev pub Outcome : ProtocolEvent → Type 0
  Outcome e = (is_last o e ≡ true) ⊎ Genuine c e

  outcomes : (es : List ProtocolEvent) → o.verify_crypto ≡ true → All Admitted es → All Outcome es
  outcomes [] v h = tt
  outcomes (e ∷ es) v h = (outcome h.0, outcomes es v h.1)
    where
      outcome : Admitted e → Outcome e
      outcome (inl a) = inl a
      outcome (inr (t, a)) = inr (admits-Genuine c o t e v a)

  -- With `verify_crypto` on, each returned event but the one that `until_event` names has a harmless
  -- blob id; if it is signed its payload has a canonical form, of which a `MemoryAppended` event's
  -- blob hash is the hash, and which the key in the payload has signed.
  pub replay-Genuine :
      (es r : List ProtocolEvent)
      → o.verify_crypto ≡ true
      → replay c later o es ≡ ok r
      → All Outcome r
  unfolding replay
  replay-Genuine es r v h = outcomes r v (replay_from-Admitted start es r h)
