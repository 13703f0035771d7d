-- ===== src/Sqlite/Rows.antt =====
-- The rows of the memory events of `SQLiteLedger`, against the log of events.
use walrus_os.Base.{
  String, ◌≡◌, ◌≢◌, refl, true, false, Option, none, some, List, [], ◌∷◌, ◌++◌, ◌==◌, arith, eq_iff,
  keep_if, map,
}
use walrus_os.Base.Dict.{Dict, lookup, insert, values}
use walrus_os.Base.Result.{ok}
use walrus_os.Model.Event.{MemoryEvent, is_memory_type}
use walrus_os.Sqlite.Tables.{EventRow, Json}
use walrus_os.Sqlite.Order.{Reads}
use walrus_os.Sqlite.Streams.{
  delete_where, event_row, to_memory_event, loads_or_empty, loads_or_none, dumps_nonempty,
  dumps_optional,
}
use walrus_os.Sqlite.Log.{Log, events_of, without, has_id}

-- JSON that reads back what it wrote, as text that is not empty.
pub record Faithful (json : Json) : Type 0 where
  pub list_back : (xs : List String) → json.loads_list (json.dumps_list xs) ≡ some xs
  pub list_text : (xs : List String) → json.dumps_list xs ≢ ""
  pub floats_back : (xs : List String) → json.loads_floats (json.dumps_floats xs) ≡ some xs
  pub floats_text : (xs : List String) → json.dumps_floats xs ≢ ""

abbrev pub nonempty : Option (List String) → Option (List String)
nonempty none = none
nonempty (some []) = none
nonempty (some (x ∷ xs)) = some (x ∷ xs)

-- What a row keeps of an event.
unfoldable pub persisted : String → MemoryEvent → MemoryEvent
persisted sid e = record e { stream_id = sid; attributions = []; embedding = nonempty e.embedding }

module _ (json : Json) (f : Faithful json) where
  tags_back :
      (xs : List String)
      → loads_or_empty json.loads_list (dumps_nonempty json.dumps_list xs) ≡ ok xs
  tags_back [] = refl
  tags_back (x ∷ xs) =
      ground
        (arith, f.list_back (x ∷ xs), f.list_text (x ∷ xs), eq_iff (json.dumps_list (x ∷ xs)) "")

  embedding_back :
      (o : Option (List String))
      → loads_or_none json.loads_floats (dumps_optional json.dumps_floats o) ≡ ok (nonempty o)
  embedding_back none = refl
  embedding_back (some []) = refl
  embedding_back (some (x ∷ xs)) = ground (
    arith,
    f.floats_back (x ∷ xs),
    f.floats_text (x ∷ xs),
    eq_iff (json.dumps_floats (x ∷ xs)) "",
  )

  -- A row of an event reads back as what it keeps.
  pub to_memory_event-event_row :
      (now sid : String) (e : MemoryEvent)
      → is_memory_type e.memory_type ≡ true
      → to_memory_event json (event_row json now sid e) ≡ ok (persisted sid e)
  unfolding to_memory_event event_row persisted
  to_memory_event-event_row now sid e h = rw (tags_back e.tags, embedding_back e.embedding, h) refl

  -- The rows of the events are those of the log, in its order.
  abbrev pub Rows : Dict EventRow → Log → Type 0
  Rows [] [] = Unit
  Rows ((k, r) ∷ d) ((sid, e) ∷ log) =
      (k ≡ e.id)
      × (r.stream_id ≡ sid)
      × (r.epoch ≡ e.epoch)
      × (to_memory_event json r ≡ ok (persisted sid e))
      × Rows d log
  Rows _ _ = ⊥

  pub lookup-Rows :
      (k : String) (d : Dict EventRow) (log : Log)
      → Rows d log
      → has_id k log ≡ false
      → lookup k d ≡ none
  unfolding lookup has_id
  lookup-Rows k [] [] h n = refl
  lookup-Rows k [] (x ∷ log) h n = absurd h
  lookup-Rows k (x ∷ d) [] h n = absurd h
  lookup-Rows k ((j, r) ∷ d) ((sid, e) ∷ log) h n = ground (arith, lookup-Rows k d log h.4, h)

  pub Rows-append :
      (now sid : String) (e : MemoryEvent) (d : Dict EventRow) (log : Log)
      → is_memory_type e.memory_type ≡ true
      → has_id e.id log ≡ false
      → Rows d log
      → Rows (insert e.id (event_row json now sid e) d) (log ++ (sid, e) ∷ [])
  unfolding insert has_id event_row
  Rows-append now sid e [] [] ty n h =
      (refl, refl, refl, to_memory_event-event_row now sid e ty, tt)
  Rows-append now sid e [] (x ∷ log) ty n h = absurd h
  Rows-append now sid e (x ∷ d) [] ty n h = absurd h
  Rows-append now sid e ((j, r) ∷ d) ((i, e') ∷ log) ty n h =
      ground (arith, Rows-append now sid e d log ty, h)

  pub Rows-without :
      (sid : String) (d : Dict EventRow) (log : Log)
      → Rows d log
      → Rows (delete_where (λ r. r.stream_id == sid) d) (without sid log)
  unfolding delete_where without
  Rows-without sid [] [] h = tt
  Rows-without sid [] (x ∷ log) h = absurd h
  Rows-without sid (x ∷ d) [] h = absurd h
  Rows-without sid ((j, r) ∷ d) ((i, e') ∷ log) h = ground (arith, Rows-without sid d log h.4, h)

  pub Rows-Reads :
      (sid : String) (d : Dict EventRow) (log : Log)
      → Rows d log
      → Reads
          (λ r. r.epoch)
          (λ e. e.epoch)
          (to_memory_event json)
          (keep_if (λ r. r.stream_id == sid) (values d))
          (map (persisted sid) (events_of sid log))
  unfolding events_of persisted
  Rows-Reads sid [] [] h = tt
  Rows-Reads sid [] (x ∷ log) h = absurd h
  Rows-Reads sid (x ∷ d) [] h = absurd h
  Rows-Reads sid ((j, r) ∷ d) ((i, e) ∷ log) h =
      ground (arith, Rows-Reads sid d log h.4, h, eq_iff i sid)
