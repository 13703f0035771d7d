-- ===== src/Runtime/Mesh.antt =====
-- walrusos/runtime/event_bus.py: `EventMesh`. A callback is its name, and what a call of the mesh
-- sends is the list of the callbacks' calls, in order: a callback that raises is caught. The lock
-- makes each operation one step; the POST to the dashboard is left out.
pub mod Queue
pub mod Leave
use walrus_os.Base.{
  ℕ, String, ◌<>◌, not, Option, none, some, List, [], ◌∷◌, ◌++◌, ◌==◌, any_of, keep_if, map,
  or_default, if◌then◌else◌,
}
use walrus_os.Base.Dict.{Dict, lookup, insert, pop, has_key}
use walrus_os.Model.Value.{Payload, Value, str, null}
use walrus_os.Model.Event.{MemoryEvent}
use walrus_os.Runtime.Pattern.{matches}

-- `(agent_id, callback | None)`
abbrev pub Sub : Type 0
Sub = String × Option String

pub record Mesh : Type 0 where
  pub stream_subs : Dict (List Sub)
  pub topic_subs : Dict (List (String × String))
  pub queues : Dict (List MemoryEvent)

pub data Call : Type 0 where
  on_stream : String → MemoryEvent → Call
  on_topic : String → Payload → Call

-- The list of a key, which is empty if there is none.
abbrev pub subs_of {ℓ} : {A : Type ℓ} → String → Dict (List A) → List A
subs_of k d = or_default (lookup k d) []

-- `f"{agent_id}:{sid}"`
abbrev pub queue_key : String → String → String
queue_key agent_id sid = agent_id <> ":" <> sid

abbrev pub ensure_queue : String → Dict (List MemoryEvent) → Dict (List MemoryEvent)
ensure_queue key queues = if has_key key queues then queues else insert key [] queues

abbrev pub queue_for : Option String → String → Dict (List MemoryEvent) → Dict (List MemoryEvent)
queue_for none key queues = ensure_queue key queues
queue_for (some callback) key queues = queues

unfoldable pub subscribe : String → String → Option String → Mesh → Mesh
subscribe agent_id sid callback m = record m {
  stream_subs = insert sid (subs_of sid m.stream_subs ++ (agent_id, callback) ∷ []) m.stream_subs;
  queues = queue_for callback (queue_key agent_id sid) m.queues;
}

-- `[(aid, cb) for aid, cb in subs if aid != agent_id]`
abbrev pub without_agent {ℓ} : {A : Type ℓ} → String → List (String × A) → List (String × A)
without_agent agent_id subs = keep_if (λ s. not (s.0 == agent_id)) subs

-- A stream that has no subscription left is removed.
abbrev pub put_or_drop : String → List Sub → Dict (List Sub) → Dict (List Sub)
put_or_drop sid [] d = pop sid d
put_or_drop sid (s ∷ subs) d = insert sid (s ∷ subs) d

unfoldable pub unsubscribe : String → String → Mesh → Mesh
unsubscribe agent_id sid m = record m {
  stream_subs = elim (lookup sid m.stream_subs) [
    | none ↦ m.stream_subs
    | some subs ↦ put_or_drop sid (without_agent agent_id subs) m.stream_subs
  ];
  queues = pop (queue_key agent_id sid) m.queues;
}

unfoldable pub subscribe_topic : String → String → String → Mesh → Mesh
subscribe_topic agent_id topic callback m = record m {
  topic_subs = insert topic (subs_of topic m.topic_subs ++ (agent_id, callback) ∷ []) m.topic_subs;
}

unfoldable pub unsubscribe_topic : String → String → Mesh → Mesh
unsubscribe_topic agent_id topic m = record m {
  topic_subs = elim (lookup topic m.topic_subs) [
    | none ↦ m.topic_subs
    | some subs ↦ insert topic (without_agent agent_id subs) m.topic_subs
  ];
}

-- The subscriptions of all patterns that match, in the order of the dict.
unfoldable pub matched : String → Dict (List (String × String)) → List (String × String)
matched topic [] = []
matched topic ((pattern, subs) ∷ d) =
    let rest = matched topic d in if matches pattern topic then subs ++ rest else rest

-- `{"topic": topic, **data}`
unfoldable pub with_topic : Payload → Payload → Payload
with_topic d [] = d
with_topic d ((k, v) ∷ extra) = with_topic (insert k v d) extra

-- `emit` calls each of them.
unfoldable pub emit : String → Payload → Mesh → List Call
unfolding matched with_topic
emit topic payload m =
    map (λ s. on_topic s.1 (with_topic (("topic", str topic) ∷ []) payload))
      (matched topic m.topic_subs)

-- `queue.put` if there is a queue
abbrev pub put_event : MemoryEvent → String → Dict (List MemoryEvent) → Dict (List MemoryEvent)
put_event e key queues = elim (lookup key queues) [
  | none ↦ queues
  | some q ↦ insert key (q ++ e ∷ []) queues
]

-- The loop over the subscriptions of the stream.
unfoldable pub notify :
    MemoryEvent → String → List Sub → Dict (List MemoryEvent) → List Call × Dict (List MemoryEvent)
notify e sid [] queues = ([], queues)
notify e sid ((agent_id, none) ∷ subs) queues =
    notify e sid subs (put_event e (queue_key agent_id sid) queues)
notify e sid ((agent_id, some callback) ∷ subs) queues =
    let (calls, queues') = notify e sid subs queues in (on_stream callback e ∷ calls, queues')

abbrev pub or_none : Option String → Value
or_none none = null
or_none (some s) = str s

-- `s[:n]`
abbrev pub take_text : ℕ → String → String
take_text ℕ.zero s = ""
take_text (ℕ.suc n) String.[] = ""
take_text (ℕ.suc n) (String.◌∷◌ c s) = String.◌∷◌ c (take_text n s)

abbrev pub created_data : MemoryEvent → Payload
created_data e =
    ("event_id", str e.id)
    ∷ ("stream_id", str e.stream_id)
    ∷ ("agent_id", or_none e.agent_id)
    ∷ ("content_preview", str (take_text 100 e.content_blob_id))
    ∷ []

-- `publish_event`, which `publish` calls.
unfoldable pub publish_event : MemoryEvent → Mesh → List Call × Mesh
unfolding notify emit
publish_event e m =
    let (calls, queues) = notify e e.stream_id (subs_of e.stream_id m.stream_subs) m.queues in
    let m' : Mesh = record m { queues = queues } in
    (
      calls
          ++ emit "memory.created" (created_data e) m'
          ++ emit ("memory.created." <> e.stream_id)
              (("event_id", str e.id) ∷ ("agent_id", or_none e.agent_id) ∷ []) m',
      m',
    )

-- `poll` drains the queue; a queue that is not there stays so.
unfoldable pub poll : String → String → Mesh → List MemoryEvent × Mesh
poll agent_id sid m = elim (lookup (queue_key agent_id sid) m.queues) [
  | none ↦ ([], m)
  | some q ↦ (q, record m { queues = insert (queue_key agent_id sid) [] m.queues })
]

abbrev pub watched : String → List Sub → List Sub
watched agent_id subs =
    if any_of (λ s. s.0 == agent_id) subs then subs else subs ++ (agent_id, none) ∷ []

-- `watch` up to its loop
unfoldable pub start_watch : String → String → Mesh → Mesh
start_watch agent_id sid m = if has_key (queue_key agent_id sid) m.queues then m else record m {
  stream_subs = insert sid (watched agent_id (subs_of sid m.stream_subs)) m.stream_subs;
  queues = insert (queue_key agent_id sid) [] m.queues;
}

-- The `finally` block of `watch`, which keeps a stream without subscriptions.
unfoldable pub end_watch : String → String → Mesh → Mesh
end_watch agent_id sid m = record m {
  stream_subs = elim (lookup sid m.stream_subs) [
    | none ↦ m.stream_subs
    | some subs ↦ insert sid (without_agent agent_id subs) m.stream_subs
  ];
  queues = pop (queue_key agent_id sid) m.queues;
}

unfoldable pub subscribers : String → Mesh → List String
subscribers sid m = map (λ s. s.0) (subs_of sid m.stream_subs)

abbrev pub clear : Mesh
clear = record { stream_subs = []; topic_subs = []; queues = [] }
