-- ===== src/Sqlite/Found.antt =====
-- A dict of events by id against the log of events, as the in-memory ledger keeps it.
use walrus_os.Base.{
  String, ◌≡◌, refl, Bool, true, false, not, ◌&&◌, ◌||◌, some, List, [], ◌∷◌, ◌++◌, ◌==◌,
  if◌then◌else◌, arith, eq_iff, eq_refl, map, ap, All, contains_text,
}
use walrus_os.Base.Dict.{Dict, lookup, insert, lookup-insert}
use walrus_os.Model.Event.{MemoryEvent}
use walrus_os.Adapters.Ledger.{StoredEvent, memory, present, pop_all}
use walrus_os.Memory.Branch.Delete.{lookup-pop_all}
use walrus_os.Sqlite.Log.{Log, events_of, without, has_id}

abbrev pub ids_of : List MemoryEvent → List String
ids_of es = map (λ e. e.id) es

-- Every event of the log is found by its id.
abbrev pub Found : Dict StoredEvent → Log → Type 0
Found d log = All (λ r. lookup (r.1.id) d ≡ some (memory r.1)) log

-- No id is twice in the log.
unfoldable pub distinct : Log → Bool
unfolding has_id
distinct [] = true
distinct ((j, e) ∷ log) = not (has_id e.id log) && distinct log

pub present-ids :
    (sid : String) (d : Dict StoredEvent) (log : Log)
    → Found d log
    → present (ids_of (events_of sid log)) d ≡ map memory (events_of sid log)
unfolding present events_of
present-ids sid d [] h = refl
present-ids sid d ((j, e) ∷ log) h = ground (arith, present-ids sid d log h.1, h.0)

pub events_of-append :
    (sid j : String) (e : MemoryEvent) (log : Log)
    → events_of sid (log ++ (j, e) ∷ [])
      ≡ (if j == sid then events_of sid log ++ e ∷ [] else events_of sid log)
unfolding events_of
events_of-append sid j e [] = ground arith
events_of-append sid j e ((i, x) ∷ log) = ground (arith, events_of-append sid j e log)

pub ids_of-append :
    (es : List MemoryEvent) (e : MemoryEvent) → ids_of (es ++ e ∷ []) ≡ ids_of es ++ e.id ∷ []
ids_of-append [] e = refl
ids_of-append (x ∷ es) e = ap (λ r. x.id ∷ r) (ids_of-append es e)

pub Found-append :
    (sid : String) (e : MemoryEvent) (d : Dict StoredEvent) (log : Log)
    → has_id e.id log ≡ false
    → Found d log
    → Found (insert e.id (memory e) d) (log ++ (sid, e) ∷ [])
unfolding has_id
Found-append sid e d [] n h = ground (arith, lookup-insert e.id e.id (memory e) d, eq_refl e.id)
Found-append sid e d ((j, x) ∷ log) n h = ground (
  arith,
  lookup-insert e.id x.id (memory e) d,
  eq_iff e.id x.id,
  eq_iff x.id e.id,
  Found-append sid e d log,
  h,
)

has_id-append :
    (k sid : String) (e : MemoryEvent) (log : Log)
    → has_id k (log ++ (sid, e) ∷ []) ≡ (has_id k log || (e.id == k))
unfolding has_id
has_id-append k sid e [] = ground arith
has_id-append k sid e ((j, x) ∷ log) = ground (arith, has_id-append k sid e log)

pub distinct-append :
    (sid : String) (e : MemoryEvent) (log : Log)
    → has_id e.id log ≡ false
    → distinct log ≡ true
    → distinct (log ++ (sid, e) ∷ []) ≡ true
unfolding distinct has_id
distinct-append sid e [] n h = refl
distinct-append sid e ((j, x) ∷ log) n h = ground (
  arith,
  has_id-append x.id sid e log,
  eq_iff e.id x.id,
  eq_iff x.id e.id,
  distinct-append sid e log,
)

has_id-without :
    (k sid : String) (log : Log) → has_id k log ≡ false → has_id k (without sid log) ≡ false
unfolding has_id without
has_id-without k sid [] h = refl
has_id-without k sid ((j, x) ∷ log) h = ground (arith, has_id-without k sid log)

pub distinct-without :
    (sid : String) (log : Log) → distinct log ≡ true → distinct (without sid log) ≡ true
unfolding distinct without
distinct-without sid [] h = refl
distinct-without sid ((j, x) ∷ log) h =
    ground (arith, distinct-without sid log, has_id-without x.id sid log)

-- The events of the other streams have none of the ids.
unfoldable pub apart : List String → String → Log → Bool
apart ids sid [] = true
apart ids sid ((j, e) ∷ log) = ((j == sid) || not (contains_text e.id ids)) && apart ids sid log

pub Found-without :
    (ids : List String) (sid : String) (d : Dict StoredEvent) (log : Log)
    → apart ids sid log ≡ true
    → Found d log
    → Found (pop_all ids d) (without sid log)
unfolding apart without
Found-without ids sid d [] a h = tt
Found-without ids sid d ((j, e) ∷ log) a h =
    ground (arith, Found-without ids sid d log, lookup-pop_all e.id ids d, h)

apart-cons :
    (k : String) (ids : List String) (sid : String) (log : Log)
    → has_id k log ≡ false
    → apart ids sid log ≡ true
    → apart (k ∷ ids) sid log ≡ true
unfolding apart has_id
apart-cons k ids sid [] n h = refl
apart-cons k ids sid ((j, e) ∷ log) n h =
    ground (arith, apart-cons k ids sid log, eq_iff e.id k, eq_iff k e.id)

contains-ids_of :
    (k sid : String) (log : Log)
    → has_id k log ≡ false
    → contains_text k (ids_of (events_of sid log)) ≡ false
unfolding has_id events_of
contains-ids_of k sid [] h = refl
contains-ids_of k sid ((j, e) ∷ log) h =
    ground (arith, contains-ids_of k sid log, eq_iff e.id k, eq_iff k e.id)

pub distinct-apart :
    (sid : String) (log : Log)
    → distinct log ≡ true
    → apart (ids_of (events_of sid log)) sid log ≡ true
unfolding distinct events_of apart
distinct-apart sid [] h = refl
distinct-apart sid ((j, e) ∷ log) h = ground (
  arith,
  distinct-apart sid log,
  apart-cons e.id (ids_of (events_of sid log)) sid log,
  contains-ids_of e.id sid log,
)

pub events_of-without :
    (sid j : String) (log : Log)
    → events_of j (without sid log) ≡ (if sid == j then [] else events_of j log)
unfolding events_of without
events_of-without sid j [] = ground arith
events_of-without sid j ((i, e) ∷ log) =
    ground (arith, events_of-without sid j log, eq_iff i sid, eq_iff i j, eq_iff sid j)
