-- ===== src/Runtime/Presence/Broadcast.antt =====
-- Who gets a message, and what each operation does to the sessions.
use walrus_os.Base.{
  ℕ, String, ◌≡◌, refl, Bool, true, false, not, none, some, List, [], ◌∷◌, ◌==◌, arith, eq_iff,
  eq_refl, keep_if, map, Bool-cases, Option-cases, inl, inr, All, ap, ◌∙◌,
}
use walrus_os.Base.Dict.{lookup, lookup-insert, lookup-pop}
use walrus_os.Base.Result.{ok, err, key_error}
use walrus_os.Runtime.Session.{Session}
use walrus_os.Runtime.Presence.{
  Message, Store, Beat, remove, remove_all, broadcast, beat, heartbeat, unregister, get_session,
}

remove-head : (x : String) (xs : List String) → remove x (x ∷ xs) ≡ xs
unfolding remove
remove-head x xs = rw (eq_refl x) refl

module _ (p : String → Bool) where
  remove_all-kept :
      (dead xs : List String) (x : String)
      → All (λ d. p d ≡ true) dead
      → p x ≡ false
      → remove_all dead (x ∷ xs) ≡ x ∷ remove_all dead xs
  unfolding remove_all remove
  remove_all-kept [] xs x h n = refl
  remove_all-kept (d ∷ dead) xs x h n = elim (Bool-cases (x == d)) [
    | inl e ↦ absurd (ground (arith, h.0, ap p ((eq_iff x d).0 e)))
    | inr e ↦ rw e (remove_all-kept dead (remove d xs) x h.1 n)
  ]

  All-keep_if : (xs : List String) → All (λ d. p d ≡ true) (keep_if p xs)
  All-keep_if [] = tt
  All-keep_if (x ∷ xs) = elim (Bool-cases (p x)) [
    | inl e ↦ rw e (e, All-keep_if xs)
    | inr e ↦ rw e (All-keep_if xs)
  ]

  remove_all-keep_if :
      (xs : List String) → remove_all (keep_if p xs) xs ≡ keep_if (λ x. not (p x)) xs
  unfolding remove_all remove
  remove_all-keep_if [] = refl
  remove_all-keep_if (x ∷ xs) = elim (Bool-cases (p x)) [
    | inl e ↦ rw e (ap (remove_all (keep_if p xs)) (remove-head x xs) ∙ remove_all-keep_if xs)
    | inr e ↦ rw e (
        remove_all-kept (keep_if p xs) xs x (All-keep_if xs) e
        ∙ ap (λ r. x ∷ r) (remove_all-keep_if xs))
  ]

module _ (raises : String → Message → Bool) where
  -- A broadcast reaches every subscriber, also after one that raises, once for each subscription and
  -- in order; those that raised are subscribers no more, and the others stay. No session changes.
  broadcast_lem :
      (m : Message) (s : Store)
      → ((broadcast raises m s).0 ≡ map (λ cb. (cb, m)) s.subscribers)
        × ((broadcast raises m s).1.subscribers ≡ keep_if (λ cb. not (raises cb m)) s.subscribers)
        × ((broadcast raises m s).1.sessions ≡ s.sessions)
  unfolding broadcast
  broadcast_lem m s = (refl, remove_all-keep_if (λ cb. raises cb m) s.subscribers, refl)

  -- A heartbeat of an agent without a session raises and changes nothing, and sends nothing; of one
  -- with a session it updates that session by what the call gives, and no other.
  pub heartbeat_lem :
      (agent_id other : String) (b : Beat) (now : ℕ) (s : Store)
      → (lookup agent_id s.sessions ≡ none
          → heartbeat raises agent_id b now s ≡ (err key_error, [], s))
        × ((old : Session)
            → lookup agent_id s.sessions ≡ some old
            → let (r, sent, s') = heartbeat raises agent_id b now s in
              (r ≡ ok (beat b now old))
              × (get_session agent_id s' ≡ some (beat b now old))
              × ((agent_id == other) ≡ false → get_session other s' ≡ get_session other s))
  unfolding heartbeat broadcast get_session
  heartbeat_lem agent_id other b now s = (
    λ absent. rw (heartbeat, absent) refl,
    λ old there.
        rw (heartbeat, there)
          (
            refl,
            ground (
              arith,
              eq_refl agent_id,
              lookup-insert agent_id agent_id (beat b now old) s.sessions,
            ),
            λ ne. ground (arith, lookup-insert agent_id other (beat b now old) s.sessions),
          ),
  )

  -- After an agent has been unregistered it has no session, and the sessions of the others are as
  -- before; the subscribers hear of it only if there was a session.
  pub unregister_lem :
      (agent_id other : String) (now : ℕ) (s : Store)
      → let (sent, s') = unregister raises agent_id now s in
        (get_session agent_id s' ≡ none)
        × ((agent_id == other) ≡ false → get_session other s' ≡ get_session other s)
        × (get_session agent_id s ≡ none → sent ≡ [])
  unfolding unregister broadcast get_session
  unregister_lem agent_id other now s = elim (Option-cases (lookup agent_id s.sessions)) [
    | inl absent ↦ ground (
      arith,
      eq_refl agent_id,
      lookup-pop agent_id agent_id s.sessions,
      lookup-pop agent_id other s.sessions,
    )
    | inr (old, there) ↦ ground (
      arith,
      eq_refl agent_id,
      lookup-pop agent_id agent_id s.sessions,
      lookup-pop agent_id other s.sessions,
    )
  ]
