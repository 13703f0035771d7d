-- ===== src/EventStore/Recorded.antt =====
-- What an append of the event store leaves in the log, and what a replay makes of it.
use walrus_os.Base.{
  String, ◌≡◌, ◌≢◌, refl, Option, none, some, List, [], ◌∷◌, ◌++◌, ◌==◌, arith, eq_iff, eq_refl,
  or_default, Bool-cases, Option-cases, inl, inr, ap, ◌∙◌,
}
use walrus_os.Base.Dict.{Dict, lookup-insert}
use walrus_os.Base.Result.{Result, ok, err, Result-cases}
use walrus_os.Model.Value.{Value, get, str}
use walrus_os.Model.Event.{ProtocolEvent, MemoryEvent, is_memory_appended}
use walrus_os.Model.Identity.{AgentIdentity}
use walrus_os.Adapters.Storage.{store_blob}
use walrus_os.Adapters.Ledger.{
  Ledger, entries, index_at, append_event, append_protocol_event, get_events_for_agent,
  get_events_for_workspace,
}
use walrus_os.Projection.Agent.{replay_agent, apply_agent_event, keep_state}
use walrus_os.Projection.Agent
use walrus_os.EventStore.{
  EventStore, Env, Args, append, remember, anchored, make_event, compute_event_hash,
  previous_hash_of, record_stream, record_memory, with_digest, put_memory, draft,
}

-- Two ledgers with the same logs of agents and workspaces.
abbrev pub SameLogs : Ledger → Ledger → Type 0
SameLogs l l' = (l'.agent_events ≡ l.agent_events) × (l'.workspace_events ≡ l.workspace_events)

with_digest-event_type :
    (e : ProtocolEvent) (r : Result (Option String)) → (with_digest e r).event_type ≡ e.event_type
with_digest-event_type e (err x) = refl
with_digest-event_type e (ok none) = refl
with_digest-event_type e (ok (some digest)) = ground arith

-- An anchoring changes the digest only.
pub record Anchored (e e' : ProtocolEvent) : Type 0 where
  pub agent_id : e'.agent_id ≡ e.agent_id
  pub workspace_id : e'.workspace_id ≡ e.workspace_id
  pub event_id : e'.event_id ≡ e.event_id
  pub blob_id : e'.blob_id ≡ e.blob_id
  pub blob_hash : e'.blob_hash ≡ e.blob_hash
  pub previous_hash : e'.previous_hash ≡ e.previous_hash
  pub timestamp : e'.timestamp ≡ e.timestamp
  pub payload : e'.payload ≡ e.payload

same-Anchored : (e : ProtocolEvent) → Anchored e e
same-Anchored e = record {
  agent_id = refl;
  workspace_id = refl;
  event_id = refl;
  blob_id = refl;
  blob_hash = refl;
  previous_hash = refl;
  timestamp = refl;
  payload = refl;
}

digest-Anchored :
    (e : ProtocolEvent) (d : String) → Anchored e (record e { transaction_digest = some d })
digest-Anchored e d = record {
  agent_id = refl;
  workspace_id = refl;
  event_id = refl;
  blob_id = refl;
  blob_hash = refl;
  previous_hash = refl;
  timestamp = refl;
  payload = refl;
}

with_digest-fields : (e : ProtocolEvent) (r : Result (Option String)) → Anchored e (with_digest e r)
with_digest-fields e (err x) = same-Anchored e
with_digest-fields e (ok none) = same-Anchored e
with_digest-fields e (ok (some d)) = elim (Bool-cases (d == "")) [
  | inl p ↦ rw p (same-Anchored e)
  | inr p ↦ rw p (digest-Anchored e d)
]

pub anchored-fields : (env : Env) (e : ProtocolEvent) → Anchored e (anchored env e)
unfolding anchored
anchored-fields env e = elim (Option-cases env.anchor) [
  | inl n ↦ rw (anchored, n) (same-Anchored e)
  | inr (anchor, p) ↦ rw (anchored, p) (with_digest-fields e (anchor e))
]

module _ (env : Env) (a : Args) where
  put_memory-SameLogs :
      (sid : String) (m : MemoryEvent) (l : Ledger) → SameLogs l (put_memory sid m l)
  unfolding append_event
  put_memory-SameLogs sid m l = elim (Bool-cases (m.id == "")) [
    | inl e ↦ ground arith
    | inr e ↦ ground arith
  ]

  record_memory-SameLogs :
      (e : ProtocolEvent) (blob_id text : String) (l : Ledger)
      → SameLogs l (record_memory env a e blob_id text l)
  unfolding record_memory
  record_memory-SameLogs e blob_id text l = elim (Option-cases (env.parse_uuid text)) [
    | inl n ↦ rw (record_memory, n) (refl, refl)
    | inr (sid, p) ↦ elim (Option-cases (env.validate (draft a e sid blob_id))) [
      | inl n ↦ rw (record_memory, p, n) (refl, refl)
      | inr (m, q) ↦ rw (record_memory, p, q) (put_memory-SameLogs sid m l)
    ]
  ]

  record_stream-SameLogs :
      (e : ProtocolEvent) (blob_id : String) (v : Value) (l l' : Ledger)
      → record_stream env a e blob_id v l ≡ ok l'
      → SameLogs l l'
  record_stream-SameLogs e blob_id (str text) l l' h =
      ground (arith, record_memory-SameLogs e blob_id text l)
  record_stream-SameLogs e blob_id v l l' h = ground arith

  remember-SameLogs :
      (e : ProtocolEvent) (blob_id : String) (s : EventStore)
      → SameLogs s.ledger (remember env a e blob_id s).1.ledger
  unfolding remember
  remember-SameLogs e blob_id s =
      elim (Result-cases (record_stream env a e blob_id (get "stream_id" a.payload) s.ledger)) [
        | inl (l, p) ↦
            rw (remember, p)
              (record_stream-SameLogs e blob_id (get "stream_id" a.payload) s.ledger l p)
        | inr (x, p) ↦ rw (remember, p) (refl, refl)
      ]

entries-index_at :
    (k : String) (e : ProtocolEvent) (d : Dict (List ProtocolEvent))
    → k ≢ ""
    → entries k (index_at k e d) ≡ entries k d ++ e ∷ []
entries-index_at k e d ne =
    ground (arith, eq_iff k "", eq_refl k, lookup-insert k k (entries k d ++ e ∷ []) d)

replay_from-append :
    (sha256 : String → String) (state : Option AgentIdentity) (es : List ProtocolEvent)
    (e : ProtocolEvent)
    → Agent.replay_from sha256 state (es ++ e ∷ [])
      ≡ keep_state sha256
          (Agent.replay_from sha256 state es)
          (apply_agent_event sha256 (Agent.replay_from sha256 state es) e)
unfolding Agent.replay_from
replay_from-append sha256 state [] e = refl
replay_from-append sha256 state (x ∷ es) e =
    replay_from-append sha256 (keep_state sha256 state (apply_agent_event sha256 state x)) es e

module _ (env : Env) (a : Args) (stored now : String) (s : EventStore) where
  -- The event that the append records.
  abbrev pub recorded : ProtocolEvent
  recorded = anchored env (make_event env a (env.sha256 (env.dumps a.payload)) now)

  abbrev pub after : EventStore
  after = (append env a stored now s).1

  append-SameLogs : SameLogs (append_protocol_event recorded s.ledger) after.ledger
  unfolding append store_blob
  append-SameLogs = elim (Bool-cases (is_memory_appended a.event_type)) [
    | inl p ↦
        rw (after, append, p)
          (remember-SameLogs env a recorded (env.sha256 (env.dumps a.payload)) _)
    | inr p ↦ rw (after, append, p) (refl, refl)
  ]

  recorded-fields :
      let hash = env.sha256 (env.dumps a.payload) in
      (recorded.agent_id ≡ a.agent_id)
      × (recorded.workspace_id ≡ a.workspace_id)
      × (recorded.event_id
          ≡ compute_event_hash env (env.dumps a.payload) (previous_hash_of env a.workspace_id))
      × (recorded.blob_id ≡ some hash)
      × (recorded.blob_hash ≡ some hash)
      × (recorded.previous_hash ≡ previous_hash_of env a.workspace_id)
  unfolding make_event
  recorded-fields =
      let kept = anchored-fields env (make_event env a (env.sha256 (env.dumps a.payload)) now) in
      (
        kept.agent_id, kept.workspace_id, kept.event_id, kept.blob_id, kept.blob_hash,
        kept.previous_hash,
      )

  pub recorded-event_type : recorded.event_type ≡ a.event_type
  unfolding anchored make_event
  recorded-event_type = elim (Option-cases env.anchor) [
    | inl n ↦ rw (anchored, n) refl
    | inr (anchor, p) ↦
        rw (anchored, p)
          (with_digest-event_type (make_event env a (env.sha256 (env.dumps a.payload)) now)
            (anchor (make_event env a (env.sha256 (env.dumps a.payload)) now)))
  ]

  get_events_for_agent-append :
      (id : String)
      → a.agent_id ≡ some id
      → id ≢ ""
      → get_events_for_agent id after.ledger ≡ get_events_for_agent id s.ledger ++ recorded ∷ []
  unfolding get_events_for_agent append_protocol_event
  get_events_for_agent-append id who ne =
      let key : or_default recorded.agent_id "" ≡ id =
        ap (λ o. or_default o "") (recorded-fields.0 ∙ who) in
      ap (entries id) append-SameLogs.0
      ∙ ap (λ k. entries id (index_at k recorded s.ledger.agent_events)) key
      ∙ entries-index_at id recorded s.ledger.agent_events ne

  -- Whether or not an append of the event store raises, with an agent and a workspace named its
  -- event stands at the end of the agent's log and of the workspace's, and a replay of the agent
  -- gives what the projection makes of the event from the agent as it was replayed before.
  pub replay_agent-append :
      (sha256 : String → String) (id : String)
      → a.agent_id ≡ some id
      → id ≢ ""
      → a.workspace_id ≢ ""
      → (get_events_for_agent id after.ledger ≡ get_events_for_agent id s.ledger ++ recorded ∷ [])
        × (get_events_for_workspace a.workspace_id after.ledger
            ≡ get_events_for_workspace a.workspace_id s.ledger ++ recorded ∷ [])
        × (let state = replay_agent sha256 (get_events_for_agent id s.ledger) in
            replay_agent sha256 (get_events_for_agent id after.ledger)
            ≡ keep_state sha256 state (apply_agent_event sha256 state recorded))
  unfolding replay_agent get_events_for_workspace append_protocol_event
  replay_agent-append sha256 id who ne named = (
    get_events_for_agent-append id who ne,
    ap (entries a.workspace_id) append-SameLogs.1
        ∙ ap (λ k. entries a.workspace_id (index_at k recorded s.ledger.workspace_events))
            recorded-fields.1
        ∙ entries-index_at a.workspace_id recorded s.ledger.workspace_events named,
    ap (Agent.replay_from sha256 none) (get_events_for_agent-append id who ne)
        ∙ replay_from-append sha256 none (get_events_for_agent id s.ledger) recorded,
  )
