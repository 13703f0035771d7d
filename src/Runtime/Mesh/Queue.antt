-- ===== src/Runtime/Mesh/Queue.antt =====
-- `EventMesh.publish_event` and `poll`: the queues of subscriptions without a callback.
use walrus_os.Base.{
  ℕ, zero, suc, ◌+◌, String, ◌≡◌, refl, Bool, true, false, Option, none, some, List, [], ◌∷◌, ◌++◌,
  ◌==◌, All, arith, eq_iff, eq_refl, if◌then◌else◌, Option-cases, inl, inr, sym, ◌∙◌, ap,
}
use walrus_os.Base.Dict.{Dict, lookup, lookup-insert}
use walrus_os.Model.Event.{MemoryEvent}
use walrus_os.Runtime.Mesh.{
  Mesh, Sub, subs_of, queue_key, put_event, notify, publish_event, poll, subscribe,
}

-- How many subscriptions of the list have the queue of the key.
abbrev pub listens : String → String → Sub → ℕ
listens key sid (agent_id, none) = if queue_key agent_id sid == key then 1 else 0
listens key sid (agent_id, some callback) = 0

abbrev pub listeners : String → String → List Sub → ℕ
listeners key sid [] = 0
listeners key sid (s ∷ subs) = listens key sid s + listeners key sid subs

abbrev pub copies : ℕ → MemoryEvent → List MemoryEvent
copies zero e = []
copies (suc n) e = e ∷ copies n e

abbrev pub extended : List MemoryEvent → Option (List MemoryEvent) → Option (List MemoryEvent)
extended es none = none
extended es (some q) = some (q ++ es)

append_assoc : (xs ys zs : List MemoryEvent) → (xs ++ ys) ++ zs ≡ xs ++ (ys ++ zs)
append_assoc [] ys zs = refl
append_assoc (x ∷ xs) ys zs = ap (λ r. x ∷ r) (append_assoc xs ys zs)

append_nil : (xs : List MemoryEvent) → xs ++ [] ≡ xs
append_nil [] = refl
append_nil (x ∷ xs) = ap (λ r. x ∷ r) (append_nil xs)

extended_nil : (o : Option (List MemoryEvent)) → extended [] o ≡ o
extended_nil none = refl
extended_nil (some q) = ap some (append_nil q)

extended_twice :
    (xs ys : List MemoryEvent) (o : Option (List MemoryEvent))
    → extended ys (extended xs o) ≡ extended (xs ++ ys) o
extended_twice xs ys none = refl
extended_twice xs ys (some q) = ap some (append_assoc q xs ys)

lookup-put_event :
    (e : MemoryEvent) (k key : String) (queues : Dict (List MemoryEvent))
    → lookup key (put_event e k queues)
      ≡ extended (if k == key then e ∷ [] else []) (lookup key queues)
lookup-put_event e k key queues = elim (Option-cases (lookup k queues)) [
  | inl n ↦ ground (arith, eq_iff k key, extended_nil (lookup key queues))
  | inr (q, p) ↦ ground (
    arith,
    eq_iff k key,
    extended_nil (lookup key queues),
    lookup-insert k key (q ++ e ∷ []) queues,
  )
]

copies-one :
    (b : Bool) (n : ℕ) (e : MemoryEvent)
    → (if b then e ∷ [] else []) ++ copies n e ≡ copies ((if b then 1 else 0) + n) e
copies-one true n e = let same : suc n ≡ 1 + n = omega arith in ap (λ k. copies k e) same
copies-one false n e = let same : n ≡ 0 + n = omega arith in ap (λ k. copies k e) same

-- Publishing puts as many copies in a queue as there are subscriptions with it.
notify-queue :
    (e : MemoryEvent) (sid key : String) (subs : List Sub) (queues : Dict (List MemoryEvent))
    → lookup key (notify e sid subs queues).1
      ≡ extended (copies (listeners key sid subs) e) (lookup key queues)
unfolding notify
notify-queue e sid key [] queues = sym (extended_nil (lookup key queues))
notify-queue e sid key ((agent_id, some callback) ∷ subs) queues =
    ground (arith, notify-queue e sid key subs queues)
notify-queue e sid key ((agent_id, none) ∷ subs) queues =
    notify-queue e sid key subs (put_event e (queue_key agent_id sid) queues)
    ∙ ap (extended (copies (listeners key sid subs) e))
        (lookup-put_event e (queue_key agent_id sid) key queues)
    ∙ extended_twice (if queue_key agent_id sid == key then e ∷ [] else [])
        (copies (listeners key sid subs) e) (lookup key queues)
    ∙ ap (λ es. extended es (lookup key queues))
        (copies-one (queue_key agent_id sid == key) (listeners key sid subs) e)

-- `publish_event` for each event in turn.
abbrev pub publish_all : List MemoryEvent → Mesh → Mesh
publish_all [] m = m
publish_all (e ∷ es) m = publish_all es (publish_event e m).1

module _ (agent_id sid : String) where
  abbrev key : String
  key = queue_key agent_id sid

  -- The agent is listed `n` times with a queue, which holds the events.
  abbrev pub IsWaiting : ℕ → List MemoryEvent → Mesh → Type 0
  IsWaiting n q m =
      (listeners key sid (subs_of sid m.stream_subs) ≡ n) × (lookup key m.queues ≡ some q)

  publish_event-IsWaiting :
      (n : ℕ) (e : MemoryEvent) (q : List MemoryEvent) (m : Mesh)
      → e.stream_id ≡ sid
      → IsWaiting n q m
      → IsWaiting n (q ++ copies n e) (publish_event e m).1
  unfolding publish_event
  publish_event-IsWaiting n e q m here (some_times, there) = simp here (
    some_times,
    notify-queue e sid key (subs_of sid m.stream_subs) m.queues ∙ rw (some_times, there) refl,
  )

  publish_all-IsWaiting :
      (es q : List MemoryEvent) (m : Mesh)
      → All (λ e. e.stream_id ≡ sid) es
      → IsWaiting 1 q m
      → IsWaiting 1 (q ++ es) (publish_all es m)
  publish_all-IsWaiting [] q m here w = rw (append_nil q) w
  publish_all-IsWaiting (e ∷ es) q m here w = rw (← append_assoc q (e ∷ []) es) (
      publish_all-IsWaiting es (q ++ e ∷ []) (publish_event e m).1 here.1
        (publish_event-IsWaiting 1 e q m here.0 w))

  poll-IsWaiting :
      (n : ℕ) (q : List MemoryEvent) (m : Mesh)
      → IsWaiting n q m
      → ((poll agent_id sid m).0 ≡ q) × IsWaiting n [] (poll agent_id sid m).1
  unfolding poll
  poll-IsWaiting n q m (some_times, there) =
      rw (poll, there)
        (refl, (some_times, lookup-insert key key [] m.queues ∙ rw (eq_refl key) refl))

  listeners-append :
      (xs ys : List Sub)
      → listeners key sid (xs ++ ys) ≡ listeners key sid xs + listeners key sid ys
  listeners-append [] ys = omega arith
  listeners-append (x ∷ xs) ys = omega (arith, listeners-append xs ys)

  listeners-subscribe :
      (m : Mesh)
      → listeners key sid (subs_of sid (subscribe agent_id sid none m).stream_subs)
        ≡ listeners key sid (subs_of sid m.stream_subs) + 1
  unfolding subscribe
  listeners-subscribe m = ground (
    arith,
    lookup-insert sid sid (subs_of sid m.stream_subs ++ (agent_id, none) ∷ []) m.stream_subs,
    eq_refl sid,
    eq_refl key,
    listeners-append (subs_of sid m.stream_subs) ((agent_id, none) ∷ []),
  )

  subscribe-IsWaiting :
      (m : Mesh)
      → listeners key sid (subs_of sid m.stream_subs) ≡ 0
      → lookup key m.queues ≡ none
      → IsWaiting 1 [] (subscribe agent_id sid none m)
  unfolding subscribe
  subscribe-IsWaiting m before absent = (
    omega (arith, listeners-subscribe m),
    rw absent (lookup-insert key key [] m.queues ∙ rw (eq_refl key) refl),
  )

  subscribe_again-IsWaiting :
      (n : ℕ) (q : List MemoryEvent) (m : Mesh)
      → IsWaiting n q m
      → IsWaiting (n + 1) q (subscribe agent_id sid none m)
  unfolding subscribe
  subscribe_again-IsWaiting n q m (some_times, there) =
      (omega (arith, listeners-subscribe m), rw there there)

  -- After a first subscription without a callback, a poll returns every event that was published to
  -- the stream since, once and in order; a second poll returns nothing.
  pub poll-subscribe :
      (es : List MemoryEvent) (m : Mesh)
      → listeners key sid (subs_of sid m.stream_subs) ≡ 0
      → lookup key m.queues ≡ none
      → All (λ e. e.stream_id ≡ sid) es
      → let (got, m') = poll agent_id sid (publish_all es (subscribe agent_id sid none m)) in
        (got ≡ es) × ((poll agent_id sid m').0 ≡ [])
  poll-subscribe es m before absent here =
      let w =
        publish_all-IsWaiting es [] (subscribe agent_id sid none m) here
          (subscribe-IsWaiting m before absent) in
      let after = poll-IsWaiting 1 es (publish_all es (subscribe agent_id sid none m)) w in
      (after.0, (poll-IsWaiting 1 [] _ after.1).0)

  -- A second subscription without a callback shares the queue, so a poll returns each event twice.
  pub publish_event_twice :
      (e : MemoryEvent) (m : Mesh)
      → listeners key sid (subs_of sid m.stream_subs) ≡ 0
      → lookup key m.queues ≡ none
      → e.stream_id ≡ sid
      → (poll agent_id sid
          (publish_event e (subscribe agent_id sid none (subscribe agent_id sid none m))).1).0
        ≡ e ∷ e ∷ []
  publish_event_twice e m before absent here =
      let once = subscribe-IsWaiting m before absent in
      let twice = subscribe_again-IsWaiting 1 [] (subscribe agent_id sid none m) once in
      (poll-IsWaiting 2 (e ∷ e ∷ []) _ (
        publish_event-IsWaiting 2 e [] (subscribe agent_id sid none (subscribe agent_id sid none m))
          here twice)).0
