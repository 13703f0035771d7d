-- ===== src/Runtime/Mesh/Leave.antt =====
-- Who is subscribed after a subscription is ended.
use walrus_os.Base.{
  String, ◌≡◌, refl, false, List, [], ◌∷◌, ◌==◌, arith, eq_iff, eq_refl, if◌then◌else◌,
  Option-cases, inl, inr, contains_text, map, ◌∙◌,
}
use walrus_os.Base.Dict.{Dict, lookup, lookup-insert, lookup-pop}
use walrus_os.Runtime.Mesh.{
  Mesh, Sub, subs_of, queue_key, without_agent, put_or_drop, unsubscribe, poll, subscribers,
}

-- Taking an agent out of a list of subscriptions.
contains_text-without_agent :
    (agent_id other : String) (subs : List Sub)
    → contains_text other (map (λ s. s.0) (without_agent agent_id subs))
      ≡ (if agent_id == other then false else contains_text other (map (λ s. s.0) subs))
contains_text-without_agent agent_id other [] = ground arith
contains_text-without_agent agent_id other ((aid, cb) ∷ subs) = ground (
  arith,
  contains_text-without_agent agent_id other subs,
  eq_iff aid agent_id,
  eq_iff aid other,
  eq_iff agent_id other,
)

subs_of-put_or_drop :
    (sid k : String) (subs : List Sub) (d : Dict (List Sub))
    → subs_of k (put_or_drop sid subs d) ≡ (if sid == k then subs else subs_of k d)
subs_of-put_or_drop sid k [] d = ground (arith, lookup-pop sid k d)
subs_of-put_or_drop sid k (s ∷ subs) d = ground (arith, lookup-insert sid k (s ∷ subs) d)

module _ (agent_id sid : String) (m : Mesh) where
  subs_of-unsubscribe :
      (k : String)
      → subs_of k (unsubscribe agent_id sid m).stream_subs ≡ (
          if sid == k
          then without_agent agent_id (subs_of k m.stream_subs)
          else subs_of k m.stream_subs)
  unfolding unsubscribe
  subs_of-unsubscribe k = elim (Option-cases (lookup sid m.stream_subs)) [
    | inl n ↦ ground (arith, eq_iff sid k)
    | inr (subs, p) ↦
        ground (
          arith,
          eq_iff sid k,
          subs_of-put_or_drop sid k (without_agent agent_id subs) m.stream_subs,
        )
  ]

  gone : (poll agent_id sid (unsubscribe agent_id sid m)).0 ≡ []
  unfolding poll unsubscribe
  gone = ground (
    arith,
    lookup-pop (queue_key agent_id sid) (queue_key agent_id sid) m.queues,
    eq_refl (queue_key agent_id sid),
  )

  -- After an agent has left a stream, it is no subscriber of it and a poll returns nothing; every
  -- other agent subscribes to what it did, and so does the agent elsewhere.
  unsubscribe_lem :
      (contains_text agent_id (subscribers sid (unsubscribe agent_id sid m)) ≡ false)
      × ((poll agent_id sid (unsubscribe agent_id sid m)).0 ≡ [])
      × ((other k : String)
          → (agent_id == other) ≡ false
          → contains_text other (subscribers k (unsubscribe agent_id sid m))
            ≡ contains_text other (subscribers k m))
      × ((k : String)
          → (sid == k) ≡ false
          → subscribers k (unsubscribe agent_id sid m) ≡ subscribers k m)
  unfolding subscribers poll
  unsubscribe_lem = (
    rw (subs_of-unsubscribe sid, eq_refl sid)
        (contains_text-without_agent agent_id agent_id (subs_of sid m.stream_subs)
          ∙ rw (eq_refl agent_id) refl),
    gone,
    λ other k ne.
        rw (subs_of-unsubscribe k)
          (ground (arith, contains_text-without_agent agent_id other (subs_of k m.stream_subs))),
    λ k ne. rw (subs_of-unsubscribe k, ne) refl,
  )
