-- ===== src/Sqlite/Replayed.antt =====
-- Protocol events in the SQLite ledger: they read back, and replays find those of the in-memory
-- ledger.
use walrus_os.Base.{
  All, All-keep_if, String, ◌≡◌, ◌≢◌, refl, Bool, true, false, not, ◌&&◌, none, some, List, [], ◌∷◌,
  ◌++◌, ◌==◌, if◌then◌else◌, arith, eq_iff, eq_refl, keep_if, map, ap, sym, ◌∙◌, any_of, or_default,
  Option-cases,
}
use walrus_os.Base.Dict.{Dict, lookup, insert, values, lookup-insert}
use walrus_os.Base.Result.{Result, ok, err, integrity_error, ◌>>=◌, all_ok}
use mathlib.Core.List.{append-nil, append_assoc}
use walrus_os.Model.Event.{ProtocolEvent, event_type_of-type_name}
use walrus_os.Adapters.Ledger.{Ledger, protocol, entries, index_at}
use walrus_os.Adapters.Ledger
use walrus_os.Sqlite.Tables.{Database, ProtocolRow, Json, empty, add_row_new, add_row_taken}
use walrus_os.Sqlite.Protocol.{
  protocol_row, append_protocol_event, to_protocol_event, is_column, place_time, by_time,
  get_events_for_agent, get_protocol, get_event,
}

-- The calls for a list of events, on either ledger.
unfoldable pub append_all : Json → List ProtocolEvent → Database → Result Database
append_all json [] d = ok d
append_all json (e ∷ es) d = append_protocol_event json e d >>= λ d'. append_all json es d'

unfoldable pub record_all : List ProtocolEvent → Ledger → Ledger
record_all [] l = l
record_all (e ∷ es) l = record_all es (Ledger.append_protocol_event e l)

-- No event has the id of an earlier one.
abbrev pub unrepeated : List ProtocolEvent → List ProtocolEvent → Bool
unrepeated done [] = true
unrepeated done (e ∷ es) =
    not (any_of (λ x. x.event_id == e.event_id) done) && unrepeated (done ++ e ∷ []) es

-- The events of one agent among those of a list.
abbrev pub by_agent : String → List ProtocolEvent → List ProtocolEvent
by_agent a es = keep_if (λ e. is_column e.agent_id a) es

-- No event is earlier than the one before it.
abbrev pub steady : (String → String → Bool) → List ProtocolEvent → Bool
steady before [] = true
steady before (x ∷ []) = true
steady before (x ∷ y ∷ ys) = not (before y.timestamp x.timestamp) && steady before (y ∷ ys)

-- JSON reads back the payload of the event.
abbrev pub ReadsBack : Json → ProtocolEvent → Type 0
ReadsBack json e = json.loads_payload (json.dumps_payload e.payload) ≡ some e.payload

module _ (json : Json) where
  to_protocol_event-protocol_row :
      (e : ProtocolEvent) → ReadsBack json e → to_protocol_event json (protocol_row json e) ≡ ok e
  unfolding to_protocol_event protocol_row
  to_protocol_event-protocol_row e back = rw (event_type_of-type_name e.event_type, back) refl

  abbrev added : ProtocolEvent → Database → Database
  added e d = record d {
    protocol_events = insert e.event_id (protocol_row json e) d.protocol_events;
  }

  append-added :
      (e : ProtocolEvent) (d : Database)
      → lookup e.event_id d.protocol_events ≡ none
      → append_protocol_event json e d ≡ ok (added e d)
  unfolding append_protocol_event
  append-added e d n = rw (add_row_new e.event_id (protocol_row json e) d.protocol_events n) refl

  append-taken :
      (e : ProtocolEvent) (r : ProtocolRow) (d : Database)
      → lookup e.event_id d.protocol_events ≡ some r
      → append_protocol_event json e d ≡ err integrity_error
  unfolding append_protocol_event
  append-taken e r d h =
      rw (add_row_taken e.event_id (protocol_row json e) r d.protocol_events h) refl

  -- If JSON reads back its payload, a protocol event with an id that no event has can be appended and is then found by its id, with every field; another append of an event with
  -- that id raises.
  pub get_event-append_protocol_event :
      (e e' : ProtocolEvent) (d : Database)
      → ReadsBack json e
      → lookup e.event_id d.protocol_events ≡ none
      → lookup e.event_id d.memory_events ≡ none
      → e'.event_id ≡ e.event_id
      → (d' : Database) × (append_protocol_event json e d ≡ ok d')
        × (get_event json e.event_id d' ≡ ok (some (protocol e)))
        × (append_protocol_event json e' d' ≡ err integrity_error)
  unfolding get_event get_protocol append_protocol_event
  get_event-append_protocol_event e e' d back n m same = (
    added e d,
    append-added e d n,
    ground (
      arith,
      m,
      lookup-insert e.event_id e.event_id (protocol_row json e) d.protocol_events,
      eq_refl e.event_id,
      to_protocol_event-protocol_row e back,
    ),
    append-taken e' (protocol_row json e) (added e d) (
        ground (
          arith,
          same,
          lookup-insert e.event_id e.event_id (protocol_row json e) d.protocol_events,
          eq_refl e.event_id,
        )),
  )

  abbrev table : List ProtocolEvent → Dict ProtocolRow
  table es = map (λ e. (e.event_id, protocol_row json e)) es

  lookup-table :
      (k : String) (es : List ProtocolEvent)
      → any_of (λ e. e.event_id == k) es ≡ false
      → lookup k (table es) ≡ none
  unfolding lookup
  lookup-table k [] h = refl
  lookup-table k (e ∷ es) h = ground (arith, lookup-table k es)

  insert-table :
      (e : ProtocolEvent) (es : List ProtocolEvent)
      → any_of (λ x. x.event_id == e.event_id) es ≡ false
      → insert e.event_id (protocol_row json e) (table es) ≡ table (es ++ e ∷ [])
  unfolding insert protocol_row
  insert-table e [] h = refl
  insert-table e (x ∷ es) h = ground (arith, insert-table e es)

  append_all-table :
      (done es : List ProtocolEvent) (d : Database)
      → d.protocol_events ≡ table done
      → unrepeated done es ≡ true
      → append_all json es d ≡ ok (record d { protocol_events = table (done ++ es) })
  unfolding append_all
  append_all-table done [] d h u =
      ap (λ t. ok (record d { protocol_events = t })) (h ∙ ap table (sym (append-nil done)))
  append_all-table done (e ∷ es) d h u =
      ap (λ r. r >>= append_all json es)
        (append-added e d (rw h (lookup-table e.event_id done (ground arith))))
      ∙ append_all-table (done ++ e ∷ []) es (added e d) (rw h (insert-table e done (ground arith)))
          (ground arith)
      ∙ ap (λ t. ok (record d { protocol_events = table t })) (append_assoc done (e ∷ []) es)

  rows_of_agent :
      (a : String) (es : List ProtocolEvent)
      → keep_if (λ r. is_column r.agent_id a) (values (table es))
        ≡ map (protocol_row json) (by_agent a es)
  unfolding protocol_row
  rows_of_agent a [] = refl
  rows_of_agent a (e ∷ es) = ground (arith, rows_of_agent a es)

  all_ok-rows :
      (es : List ProtocolEvent)
      → All (ReadsBack json) es
      → all_ok (to_protocol_event json) (map (protocol_row json) es) ≡ ok es
  unfolding all_ok
  all_ok-rows [] h = refl
  all_ok-rows (e ∷ es) h = rw (to_protocol_event-protocol_row e h.0, all_ok-rows es h.1) refl

  module _ (before : String → String → Bool) where
    by_time-rows :
        (es : List ProtocolEvent)
        → steady before es ≡ true
        → by_time before (map (protocol_row json) es) ≡ map (protocol_row json) es
    unfolding by_time place_time protocol_row
    by_time-rows [] h = refl
    by_time-rows (x ∷ []) h = refl
    by_time-rows (x ∷ y ∷ ys) h = ground (arith, by_time-rows (y ∷ ys))

    events_of_table :
        (a : String) (es : List ProtocolEvent) (d : Database)
        → All (ReadsBack json) es
        → steady before (by_agent a es) ≡ true
        → get_events_for_agent before json a (record d { protocol_events = table es })
          ≡ ok (by_agent a es)
    unfolding get_events_for_agent
    events_of_table a es d back h =
        rw (rows_of_agent a es, by_time-rows (by_agent a es) h)
          (all_ok-rows (by_agent a es)
            (All-keep_if (ReadsBack json) (λ e. is_column e.agent_id a) es back))

index_at-entries :
    (a : String) (e : ProtocolEvent) (d : Dict (List ProtocolEvent))
    → a ≢ ""
    → entries a (index_at (or_default e.agent_id "") e d)
      ≡ (if is_column e.agent_id a then entries a d ++ e ∷ [] else entries a d)
index_at-entries a e d ne = ground (
  arith,
  Option-cases e.agent_id,
  eq_iff (or_default e.agent_id "") "",
  eq_iff (or_default e.agent_id "") a,
  lookup-insert (or_default e.agent_id "") a (entries (or_default e.agent_id "") d ++ e ∷ []) d,
)

record_all-entries :
    (a : String) (es : List ProtocolEvent) (l : Ledger)
    → a ≢ ""
    → entries a (record_all es l).agent_events ≡ entries a l.agent_events ++ by_agent a es
unfolding record_all Ledger.append_protocol_event
record_all-entries a [] l ne = sym (append-nil (entries a l.agent_events))
record_all-entries a (e ∷ es) l ne =
    record_all-entries a es (Ledger.append_protocol_event e l) ne
    ∙ ground (
      arith,
      index_at-entries a e l.agent_events ne,
      append_assoc (entries a l.agent_events) (e ∷ []) (by_agent a es),
    )

-- If JSON reads back their payloads, then events whose ids are all different can be
-- appended to a new SQLite ledger, and if, for an agent with a name, no event of the agent is
-- earlier than the one before it, the ledger returns for the agent the events that an in-memory
-- ledger with the same appends returns, in the same order.
pub replays_agree :
    (json : Json) (before : String → String → Bool) (a : String) (es : List ProtocolEvent)
    → All (ReadsBack json) es
    → a ≢ ""
    → unrepeated [] es ≡ true
    → steady before (by_agent a es) ≡ true
    → (d : Database) × (append_all json es empty ≡ ok d)
      × (get_events_for_agent before json a d
          ≡ ok (Ledger.get_events_for_agent a (record_all es Ledger.empty)))
unfolding Ledger.get_events_for_agent lookup
replays_agree json before a es back ne u h = (
  record empty { protocol_events = map (λ e. (e.event_id, protocol_row json e)) es },
  append_all-table json [] es empty refl u,
  events_of_table json before a es empty back h
      ∙ ap ok (sym (record_all-entries a es Ledger.empty ne)),
)
