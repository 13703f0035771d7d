-- ===== src/Sqlite/Refine.antt =====
-- Every run of calls of the SQLite ledger against the log of events.
use walrus_os.Base.{
  ℕ, String, ◌≡◌, refl, Bool, true, not, Option, none, some, List, [], ◌∷◌, ◌++◌, ◌==◌, arith,
  eq_iff, keep_if, map, ap, ◌∙◌, Option-cases, Bool-cases,
}
use walrus_os.Base.Dict.{lookup, insert, values, lookup-insert, lookup-pop}
use walrus_os.Base.Result.{Result, ok, ◌>>=◌}
use walrus_os.Model.Event.{MemoryEvent}
use walrus_os.Sqlite.Tables.{Database, StreamRow, Json, empty, order_by, add_row_new}
use walrus_os.Sqlite.Order.{all_ok-order_by}
use walrus_os.Sqlite.Streams.{
  shown_head, shown_counter, register_stream, append_event, delete_stream, event_row, stream_row,
  to_memory_event, get_head, get_epoch_counter, list_events, new_stream,
}
use walrus_os.Sqlite.Log.{
  Log, Op, register, append, delete, step, replay, events_of, latest, latest-append, latest-without,
  latest-without_self, without, allowed, all_allowed, id_of, epoch_of,
}
use walrus_os.Sqlite.Rows.{
  Faithful, persisted, Rows, lookup-Rows, Rows-append, Rows-without, Rows-Reads,
}

unfoldable pub exec : Json → Op → Database → Result Database
exec json (register sid agent now) d = ok (register_stream sid agent now d)
exec json (append sid e now) d = append_event json now sid e d
exec json (delete sid) d = ok (delete_stream sid d)

unfoldable pub run : Json → List Op → Database → Result Database
unfolding exec
run json [] d = ok d
run json (o ∷ ops) d = exec json o d >>= λ d'. run json ops d'

-- The row of a stream has the id and the epoch of its last event.
abbrev pub head_state : Option StreamRow → String × ℕ
head_state none = ("genesis", 0)
head_state (some r) = (r.head_event_id, r.epoch_counter)

abbrev pub last_state : Option MemoryEvent → String × ℕ
last_state none = ("genesis", 0)
last_state (some e) = (e.id, e.epoch)

abbrev pub named : Option MemoryEvent → Bool
named none = true
named (some e) = not (e.id == "genesis")

module _ (json : Json) (f : Faithful json) where
  pub record Holds (d : Database) (log : Log) : Type 0 where
    pub rows : Rows json f d.memory_events log
    pub heads :
        (sid : String) → head_state (lookup sid d.memory_streams) ≡ last_state (latest sid none log)
    pub names : (sid : String) → named (latest sid none log) ≡ true

  head_state-register :
      (sid agent now j : String) (d : Database)
      → head_state (lookup j (register_stream sid agent now d).memory_streams)
        ≡ head_state (lookup j d.memory_streams)
  unfolding register_stream
  head_state-register sid agent now j d = ground (
    arith,
    Option-cases (lookup sid d.memory_streams),
    eq_iff sid j,
    lookup-insert sid j (new_stream sid agent now) d.memory_streams,
  )

  memory_events-register :
      (sid agent now : String) (d : Database)
      → (register_stream sid agent now d).memory_events ≡ d.memory_events
  unfolding register_stream
  memory_events-register sid agent now d =
      ground (arith, Option-cases (lookup sid d.memory_streams))

  register-Holds :
      (sid agent now : String) (d : Database) (log : Log)
      → Holds d log
      → Holds (register_stream sid agent now d) log
  register-Holds sid agent now d log h = record {
    rows = rw (memory_events-register sid agent now d) h.rows;
    heads = λ j. head_state-register sid agent now j d ∙ h.heads j;
    names = h.names;
  }

  -- The database after an append that is accepted.
  abbrev appended : String → String → MemoryEvent → Database → Database
  appended sid now e d = record d {
    memory_events = insert e.id (event_row json now sid e) d.memory_events;
    memory_streams =
        insert sid
          (record (stream_row sid now d.memory_streams) {
            head_event_id = e.id;
            epoch_counter = e.epoch;
          })
          d.memory_streams;
  }

  append_event-appended :
      (sid now : String) (e : MemoryEvent) (d : Database)
      → lookup e.id d.memory_events ≡ none
      → append_event json now sid e d ≡ ok (appended sid now e d)
  unfolding append_event
  append_event-appended sid now e d n =
      rw (add_row_new e.id (event_row json now sid e) d.memory_events n) refl

  appended-Holds :
      (sid now : String) (e : MemoryEvent) (d : Database) (log : Log)
      → Holds d log
      → allowed (append sid e now) log ≡ true
      → Holds (appended sid now e d) (log ++ (sid, e) ∷ [])
  unfolding allowed
  appended-Holds sid now e d log h a = record {
    rows = Rows-append json f now sid e d.memory_events log (ground arith) (ground arith) h.rows;
    heads = λ j. ground (
      arith,
      eq_iff sid j,
      lookup-insert sid j
          (record (stream_row sid now d.memory_streams) {
            head_event_id = e.id;
            epoch_counter = e.epoch;
          })
          d.memory_streams,
      latest-append j sid e none log,
      h.heads j,
    );
    names = λ j. ground (arith, latest-append j sid e none log, h.names j);
  }

  delete-Holds :
      (sid : String) (d : Database) (log : Log)
      → Holds d log
      → Holds (delete_stream sid d) (without sid log)
  unfolding delete_stream
  delete-Holds sid d log h = record {
    rows = Rows-without json f sid d.memory_events log h.rows;
    heads = λ j. ground (
      arith,
      Bool-cases (sid == j),
      eq_iff sid j,
      lookup-pop sid j d.memory_streams,
      latest-without_self sid none log,
      latest-without sid j none log,
      h.heads j,
    );
    names = λ j. ground (
      arith,
      Bool-cases (sid == j),
      eq_iff sid j,
      latest-without_self sid none log,
      latest-without sid j none log,
      h.names j,
    );
  }

  exec-Holds :
      (o : Op) (d : Database) (log : Log)
      → Holds d log
      → allowed o log ≡ true
      → (d' : Database) × (exec json o d ≡ ok d') × Holds d' (step o log)
  unfolding exec step allowed
  exec-Holds (register sid agent now) d log h a =
      (register_stream sid agent now d, refl, register-Holds sid agent now d log h)
  exec-Holds (append sid e now) d log h a = (
    appended sid now e d,
    append_event-appended sid now e d
        (lookup-Rows json f e.id d.memory_events log h.rows (ground arith)),
    appended-Holds sid now e d log h a,
  )
  exec-Holds (delete sid) d log h a = (delete_stream sid d, refl, delete-Holds sid d log h)

  pub run-Holds :
      (ops : List Op) (d : Database) (log : Log)
      → Holds d log
      → all_allowed ops log ≡ true
      → (d' : Database) × (run json ops d ≡ ok d') × Holds d' (replay ops log)
  unfolding run replay all_allowed
  run-Holds [] d log h a = (d, refl, h)
  run-Holds (o ∷ ops) d log h a =
      let first = exec-Holds o d log h (ground arith) in
      let rest = run-Holds ops first.0 (step o log) first.2 (ground arith) in
      (rest.0, ap (λ r. r >>= λ d'. run json ops d') first.1 ∙ rest.1, rest.2)

-- What the SQLite ledger shows of its streams after a run.
pub record Shows (json : Json) (d : Database) (log : Log) : Type 0 where
  pub events :
      (sid : String)
      → list_events json sid d
        ≡ ok (order_by (λ e. e.epoch) (map (persisted sid) (events_of sid log)))
  pub head : (sid : String) → get_head sid d ≡ id_of (latest sid none log)
  pub counter : (sid : String) → get_epoch_counter sid d ≡ epoch_of (latest sid none log)

head_of_state :
    (o : Option StreamRow) (l : Option MemoryEvent)
    → head_state o ≡ last_state l
    → named l ≡ true
    → (shown_head o ≡ id_of l) × (shown_counter o ≡ epoch_of l)
head_of_state none none h n = (refl, refl)
head_of_state none (some e) h n = absurd (ground (arith, ap (λ p. p.0) h, eq_iff e.id "genesis"))
head_of_state (some r) none h n =
    ground (arith, ap (λ p. p.0) h, ap (λ p. p.1) h, eq_iff r.head_event_id "genesis")
head_of_state (some r) (some e) h n = ground (
  arith,
  ap (λ p. p.0) h,
  ap (λ p. p.1) h,
  eq_iff e.id "genesis",
  eq_iff r.head_event_id "genesis",
)

Shows-of_Holds :
    (json : Json) (f : Faithful json) (d : Database) (log : Log)
    → Holds json f d log
    → Shows json d log
unfolding list_events get_head get_epoch_counter
Shows-of_Holds json f d log h = record {
  events = λ sid.
      all_ok-order_by (λ r. r.epoch) (λ e. e.epoch) (to_memory_event json)
        (keep_if (λ r. r.stream_id == sid) (values d.memory_events))
        (map (persisted sid) (events_of sid log))
        (Rows-Reads json f sid d.memory_events log h.rows);
  head = λ sid.
      (head_of_state (lookup sid d.memory_streams) (latest sid none log) (h.heads sid)
        (h.names sid)).0;
  counter = λ sid.
      (head_of_state (lookup sid d.memory_streams) (latest sid none log) (h.heads sid)
        (h.names sid)).1;
}

empty-Holds : (json : Json) (f : Faithful json) → Holds json f empty []
unfolding lookup latest
empty-Holds json f = record { rows = tt; heads = λ sid. refl; names = λ sid. refl }

-- If JSON reads back what it wrote, as text that is not empty, then every run of registrations,
-- appends and deletions on a new database, in which each append has an id that is new, is not
-- empty and is not genesis, and a known memory type, raises nothing. Afterwards each stream lists
-- the events appended to it since it was last deleted, by epoch and as a row keeps them, and has
-- the last of them, if any, for its head and for its epoch counter.
pub run_refines :
    (json : Json) (f : Faithful json) (ops : List Op)
    → all_allowed ops [] ≡ true
    → (d : Database) × (run json ops empty ≡ ok d) × Shows json d (replay ops [])
run_refines json f ops a =
    let r = run-Holds json f ops empty [] (empty-Holds json f) a in
    (r.0, r.1, Shows-of_Holds json f r.0 (replay ops []) r.2)
