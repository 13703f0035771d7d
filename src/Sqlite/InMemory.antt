-- ===== src/Sqlite/InMemory.antt =====
-- The same runs of calls on the in-memory ledger: it keeps the same log.
use walrus_os.Base.{
  String, ◌≡◌, refl, true, false, none, List, [], ◌∷◌, ◌++◌, ◌==◌, arith, eq_iff, eq_refl, map, ap,
  ◌∙◌, Option-cases, Bool-cases,
}
use walrus_os.Base.Dict.{lookup, insert, lookup-insert, lookup-pop}
use walrus_os.Base.Result.{Result, ok, ◌>>=◌}
use walrus_os.Model.Event.{MemoryEvent}
use walrus_os.Adapters.Ledger.{
  Ledger, memory, entries, append_event, list_events, get_head, not_genesis,
}
use walrus_os.Adapters.Ledger
use walrus_os.Memory.Branch.{register_ledger}
use walrus_os.Sqlite.Log.{
  Log, Op, register, append, delete, step, replay, events_of, latest, latest-append, latest-without,
  latest-without_self, without, allowed, all_allowed, id_of,
}
use walrus_os.Sqlite.Found.{
  ids_of, Found, distinct, present-ids, events_of-append, ids_of-append, Found-append,
  distinct-append, distinct-without, Found-without, distinct-apart, events_of-without,
}

unfoldable pub exec_memory : Op → Ledger → Result Ledger
exec_memory (register sid agent now) l = ok (register_ledger sid l)
exec_memory (append sid e now) l = append_event sid (memory e) l
exec_memory (delete sid) l = ok (Ledger.delete_stream sid l)

unfoldable pub run_memory : List Op → Ledger → Result Ledger
unfolding exec_memory
run_memory [] l = ok l
run_memory (o ∷ ops) l = exec_memory o l >>= λ l'. run_memory ops l'

record Keeps (l : Ledger) (log : Log) : Type 0 where
  pub order : (sid : String) → entries sid l.order ≡ ids_of (events_of sid log)
  pub found : Found l.events log
  pub once : distinct log ≡ true
  pub heads : (sid : String) → not_genesis (lookup sid l.streams) ≡ id_of (latest sid none log)

heads-register :
    (sid j : String) (l : Ledger)
    → not_genesis (lookup j (register_ledger sid l).streams) ≡ not_genesis (lookup j l.streams)
unfolding register_ledger
heads-register sid j l = ground (
  arith,
  Option-cases (lookup sid l.streams),
  eq_iff sid j,
  eq_refl "genesis",
  lookup-insert sid j "genesis" l.streams,
)

same-register :
    (sid : String) (l : Ledger)
    → ((register_ledger sid l).order ≡ l.order) × ((register_ledger sid l).events ≡ l.events)
unfolding register_ledger
same-register sid l = ground (arith, Option-cases (lookup sid l.streams))

register-Keeps :
    (sid : String) (l : Ledger) (log : Log) → Keeps l log → Keeps (register_ledger sid l) log
register-Keeps sid l log k = record {
  order = rw ((same-register sid l).0) k.order;
  found = rw ((same-register sid l).1) k.found;
  once = k.once;
  heads = λ j. heads-register sid j l ∙ k.heads j;
}

abbrev appended : String → MemoryEvent → Ledger → Ledger
appended sid e l = record l {
  events = insert e.id (memory e) l.events;
  streams = insert sid e.id l.streams;
  order = insert sid (entries sid l.order ++ e.id ∷ []) l.order;
}

append_event-appended :
    (sid : String) (e : MemoryEvent) (l : Ledger)
    → (e.id == "") ≡ false
    → append_event sid (memory e) l ≡ ok (appended sid e l)
unfolding append_event
append_event-appended sid e l h = ground arith

appended-Keeps :
    (sid now : String) (e : MemoryEvent) (l : Ledger) (log : Log)
    → Keeps l log
    → allowed (append sid e now) log ≡ true
    → Keeps (appended sid e l) (log ++ (sid, e) ∷ [])
unfolding allowed
appended-Keeps sid now e l log k a = record {
  order = λ j. ground (
    arith,
    eq_iff sid j,
    lookup-insert sid j (entries sid l.order ++ e.id ∷ []) l.order,
    events_of-append j sid e log,
    ids_of-append (events_of sid log) e,
    k.order j,
    k.order sid,
  );
  found = Found-append sid e l.events log (ground arith) k.found;
  once = distinct-append sid e log (ground arith) k.once;
  heads = λ j. ground (
    arith,
    eq_iff sid j,
    lookup-insert sid j e.id l.streams,
    latest-append j sid e none log,
    k.heads j,
  );
}

delete-Keeps :
    (sid : String) (l : Ledger) (log : Log)
    → Keeps l log
    → Keeps (Ledger.delete_stream sid l) (without sid log)
unfolding Ledger.delete_stream
delete-Keeps sid l log k = record {
  order = λ j. ground (arith, lookup-pop sid j l.order, events_of-without sid j log, k.order j);
  found = rw (k.order sid) (
      Found-without (ids_of (events_of sid log)) sid l.events log (distinct-apart sid log k.once)
        k.found);
  once = distinct-without sid log k.once;
  heads = λ j. ground (
    arith,
    Bool-cases (sid == j),
    eq_iff sid j,
    lookup-pop sid j l.streams,
    latest-without_self sid none log,
    latest-without sid j none log,
    k.heads j,
  );
}

empty-Keeps : Keeps Ledger.empty []
unfolding lookup events_of latest distinct
empty-Keeps = record { order = λ sid. refl; found = tt; once = refl; heads = λ sid. refl }

exec_memory-Keeps :
    (o : Op) (l : Ledger) (log : Log)
    → Keeps l log
    → allowed o log ≡ true
    → (l' : Ledger) × (exec_memory o l ≡ ok l') × Keeps l' (step o log)
unfolding exec_memory step allowed
exec_memory-Keeps (register sid agent now) l log k a =
    (register_ledger sid l, refl, register-Keeps sid l log k)
exec_memory-Keeps (append sid e now) l log k a = (
  appended sid e l,
  append_event-appended sid e l (ground arith),
  appended-Keeps sid now e l log k a,
)
exec_memory-Keeps (delete sid) l log k a =
    (Ledger.delete_stream sid l, refl, delete-Keeps sid l log k)

run_memory-Keeps :
    (ops : List Op) (l : Ledger) (log : Log)
    → Keeps l log
    → all_allowed ops log ≡ true
    → (l' : Ledger) × (run_memory ops l ≡ ok l') × Keeps l' (replay ops log)
unfolding run_memory replay all_allowed
run_memory-Keeps [] l log k a = (l, refl, k)
run_memory-Keeps (o ∷ ops) l log k a =
    let first = exec_memory-Keeps o l log k (ground arith) in
    let rest = run_memory-Keeps ops first.0 (step o log) first.2 (ground arith) in
    (rest.0, ap (λ r. r >>= λ l'. run_memory ops l') first.1 ∙ rest.1, rest.2)

-- The same run on a new in-memory ledger raises nothing; each stream lists the events appended to
-- it since it was last deleted, in the order of the appends, and has the last of them for its head.
pub run_memory_refines :
    (ops : List Op)
    → all_allowed ops [] ≡ true
    → (l : Ledger) × (run_memory ops Ledger.empty ≡ ok l)
      × ((sid : String) → list_events sid l ≡ map memory (events_of sid (replay ops [])))
      × ((sid : String) → get_head sid l ≡ id_of (latest sid none (replay ops [])))
unfolding list_events get_head
run_memory_refines ops a =
    let r = run_memory-Keeps ops Ledger.empty [] empty-Keeps a in
    (
      r.0,
      r.1,
      λ sid. rw (r.2.order sid) (present-ids sid r.0.events (replay ops []) r.2.found),
      r.2.heads,
    )
