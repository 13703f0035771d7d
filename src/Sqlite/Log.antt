-- ===== src/Sqlite/Log.antt =====
-- What a ledger of memory streams promises, whichever database holds it: a log of the events with
-- the streams that they were appended to.
use walrus_os.Base.{
  ℕ, ◌≢◌, ◌≡◌, String, Bool, true, false, not, ◌&&◌, ◌||◌, Option, none, some, List, [], ◌∷◌, ◌++◌,
  ◌==◌, if◌then◌else◌, refl, arith, eq_iff,
}
use walrus_os.Model.Event.{MemoryEvent, is_memory_type}

abbrev pub Log : Type 0
Log = List (String × MemoryEvent)

-- The events of a stream, in the order of the appends.
unfoldable pub events_of : String → Log → List MemoryEvent
events_of sid [] = []
events_of sid ((j, e) ∷ log) = let rest = events_of sid log in if j == sid then e ∷ rest else rest

-- The last event of a stream, or the one given.
unfoldable pub latest : String → Option MemoryEvent → Log → Option MemoryEvent
latest sid acc [] = acc
latest sid acc ((j, e) ∷ log) = latest sid (if j == sid then some e else acc) log

unfoldable pub without : String → Log → Log
without sid [] = []
without sid ((j, e) ∷ log) = let rest = without sid log in if j == sid then rest else (j, e) ∷ rest

unfoldable pub has_id : String → Log → Bool
has_id k [] = false
has_id k ((j, e) ∷ log) = (e.id == k) || has_id k log

-- The calls that change a stream, with what each draws from the clock.
pub data Op : Type 0 where
  register : String → String → String → Op
  append : String → MemoryEvent → String → Op
  delete : String → Op

unfoldable pub step : Op → Log → Log
unfolding without
step (register sid agent now) log = log
step (append sid e now) log = log ++ (sid, e) ∷ []
step (delete sid) log = without sid log

unfoldable pub replay : List Op → Log → Log
unfolding step
replay [] log = log
replay (o ∷ ops) log = replay ops (step o log)

abbrev pub id_of : Option MemoryEvent → Option String
id_of none = none
id_of (some e) = some e.id

abbrev pub epoch_of : Option MemoryEvent → ℕ
epoch_of none = 0
epoch_of (some e) = e.epoch

-- An append wants an id that is new and is no word for an empty stream, and a memory type that the
-- model knows.
unfoldable pub allowed : Op → Log → Bool
unfolding has_id
allowed (append sid e now) log =
    not (has_id e.id log)
    && not (e.id == "genesis")
    && not (e.id == "")
    && is_memory_type e.memory_type
allowed _ log = true

unfoldable pub all_allowed : List Op → Log → Bool
unfolding allowed step
all_allowed [] log = true
all_allowed (o ∷ ops) log = allowed o log && all_allowed ops (step o log)

pub latest-append :
    (sid j : String) (e : MemoryEvent) (acc : Option MemoryEvent) (log : Log)
    → latest sid acc (log ++ (j, e) ∷ []) ≡ (if j == sid then some e else latest sid acc log)
unfolding latest
latest-append sid j e acc [] = refl
latest-append sid j e acc ((i, x) ∷ log) =
    latest-append sid j e (if i == sid then some x else acc) log

pub latest-without_self :
    (sid : String) (acc : Option MemoryEvent) (log : Log) → latest sid acc (without sid log) ≡ acc
unfolding latest without
latest-without_self sid acc [] = refl
latest-without_self sid acc ((i, x) ∷ log) = ground (arith, latest-without_self sid acc log)

pub latest-without :
    (sid other : String) (acc : Option MemoryEvent) (log : Log)
    → other ≢ sid
    → latest other acc (without sid log) ≡ latest other acc log
unfolding latest without
latest-without sid other acc [] ne = refl
latest-without sid other acc ((i, x) ∷ log) ne = ground (
  arith,
  eq_iff i sid,
  eq_iff i other,
  latest-without sid other acc log ne,
  latest-without sid other (some x) log ne,
)
