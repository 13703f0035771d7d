-- ===== src/Sqlite/Agree.antt =====
-- The SQLite ledger and the in-memory ledger, on the same runs of calls.
use walrus_os.Base.{String, ◌≡◌, refl, true, List, [], ◌∷◌, arith, map, ap, All, sym, ◌∙◌, eq_iff}
use walrus_os.Base.Result.{ok}
use walrus_os.Model.Event.{MemoryEvent}
use walrus_os.Adapters.Ledger.{Ledger, memory}
use walrus_os.Adapters.Ledger
use walrus_os.Sqlite.Tables.{Database, Json, empty}
use walrus_os.Sqlite.Order.{rising, order_by-rising}
use walrus_os.Sqlite.Streams.{list_events, get_head}
use walrus_os.Sqlite.Log.{Log, Op, replay, events_of, all_allowed}
use walrus_os.Sqlite.Rows.{Faithful, persisted}
use walrus_os.Sqlite.Refine.{run, run_refines}
use walrus_os.Sqlite.InMemory.{run_memory, run_memory_refines}

-- Every event of the log is what a row keeps of it.
abbrev pub Complete : Log → Type 0
Complete log = All (λ r. persisted r.0 r.1 ≡ r.1) log

map-persisted :
    (sid : String) (log : Log)
    → Complete log
    → map (persisted sid) (events_of sid log) ≡ events_of sid log
unfolding events_of
map-persisted sid [] c = refl
map-persisted sid ((j, e) ∷ log) c = ground (arith, map-persisted sid log c.1, c.0, eq_iff j sid)

-- If JSON reads back what it wrote, each append of a run has an id that is new, is not empty and is
-- not genesis, and a known memory type, and afterwards, in each stream, the epochs rise from one
-- and every event is what a row keeps of it, then the run raises nothing on either ledger, and both
-- list the same events of each stream and have the same head.
pub ledgers_agree :
    (json : Json)
    → Faithful json
    → (ops : List Op) → all_allowed ops [] ≡ true
    → ((sid : String) → rising (λ e. e.epoch) 0 (events_of sid (replay ops [])) ≡ true)
    → Complete (replay ops [])
    → (d : Database) × (l : Ledger) × (run json ops empty ≡ ok d)
      × (run_memory ops Ledger.empty ≡ ok l)
      × ((sid : String)
          → (es : List MemoryEvent) × (list_events json sid d ≡ ok es)
            × (Ledger.list_events sid l ≡ map memory es)
            × (get_head sid d ≡ Ledger.get_head sid l))
ledgers_agree json f ops a up c =
    let p = run_refines json f ops a in
    let q = run_memory_refines ops a in
    (
      p.0,
      q.0,
      p.1,
      q.1,
      λ sid. (
        events_of sid (replay ops []),
        p.2.events sid
            ∙ rw (map-persisted sid (replay ops []) c)
                (ap ok (order_by-rising (λ e. e.epoch) 0 (events_of sid (replay ops [])) (up sid))),
        q.2 sid,
        p.2.head sid ∙ sym (q.3 sid),
      ),
    )
