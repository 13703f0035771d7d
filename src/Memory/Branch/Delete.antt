-- ===== src/Memory/Branch/Delete.antt =====
-- `MemoryEngine.delete_stream`: the deleted stream and the others.
use walrus_os.Base.{
  String, ◌≡◌, ◌≢◌, refl, Bool, true, false, none, some, List, [], ◌∷◌, ◌++◌, ◌||◌, arith, eq_iff,
  eq_refl, contains_text, if◌then◌else◌,
}
use walrus_os.Base.Dict.{Dict, lookup, pop, lookup-pop}
use walrus_os.Base.Result.{err, key_error}
use walrus_os.Model.Event.{MemoryEvent}
use walrus_os.Adapters.Storage.{Storage, retrieve_blob, delete_blob}
use walrus_os.Adapters.Ledger.{
  Ledger, StoredEvent, memory, stored_id, entries, list_events, get_head, get_event, pop_all,
  present,
}
use walrus_os.Adapters.Ledger
use walrus_os.Adapters.Vector
use walrus_os.Memory.State.{Engine, Env}
use walrus_os.Memory.Read.{read, payload_of, load}
use walrus_os.Memory.Branch.{delete_stream, delete_content, delete_blobs, forget, blob_ids}

-- The blobs that the events refer to.
abbrev pub all_blob_ids : List StoredEvent → List String
all_blob_ids [] = []
all_blob_ids (e ∷ es) = blob_ids e ++ all_blob_ids es

contains_text-append :
    (x : String) (xs ys : List String)
    → contains_text x (xs ++ ys) ≡ (contains_text x xs || contains_text x ys)
contains_text-append x [] ys = refl
contains_text-append x (y ∷ xs) ys = ground (arith, contains_text-append x xs ys)

lookup-delete_blobs :
    (b : String) (bs : List String) (s : Storage)
    → lookup b (delete_blobs bs s).blobs ≡ (if contains_text b bs then none else lookup b s.blobs)
unfolding delete_blobs delete_blob
lookup-delete_blobs b [] s = refl
lookup-delete_blobs b (x ∷ bs) s =
    ground (arith, lookup-delete_blobs b bs (delete_blob x s), lookup-pop x b s.blobs)

lookup-delete_content :
    (b : String) (es : List StoredEvent) (s : Engine)
    → lookup b (delete_content es s).storage.blobs
      ≡ (if contains_text b (all_blob_ids es) then none else lookup b s.storage.blobs)
unfolding delete_content
lookup-delete_content b [] s = refl
lookup-delete_content b (e ∷ es) s = ground (
  arith,
  contains_text-append b (blob_ids e) (all_blob_ids es),
  lookup-delete_blobs b (blob_ids e) s.storage,
  lookup-delete_content b es (record s {
    storage = delete_blobs (blob_ids e) s.storage;
    vector = Vector.delete (stored_id e) s.vector;
  }),
)

delete_content-ledger :
    (es : List StoredEvent) (s : Engine) → (delete_content es s).ledger ≡ s.ledger
unfolding delete_content
delete_content-ledger [] s = refl
delete_content-ledger (e ∷ es) s = delete_content-ledger es (record s {
  storage = delete_blobs (blob_ids e) s.storage;
  vector = Vector.delete (stored_id e) s.vector;
})

pub lookup-pop_all :
    (k : String) (ids : List String) (d : Dict StoredEvent)
    → lookup k (pop_all ids d) ≡ (if contains_text k ids then none else lookup k d)
unfolding pop_all
lookup-pop_all k [] d = refl
lookup-pop_all k (x ∷ ids) d = ground (arith, lookup-pop_all k ids (pop x d), lookup-pop x k d)

-- No id is in both lists.
abbrev pub disjoint : List String → List String → Bool
disjoint [] ids = true
disjoint (x ∷ xs) ids = if contains_text x ids then false else disjoint xs ids

present-pop_all :
    (xs ids : List String) (d : Dict StoredEvent)
    → disjoint xs ids ≡ true
    → present xs (pop_all ids d) ≡ present xs d
unfolding present
present-pop_all [] ids d h = refl
present-pop_all (x ∷ xs) ids d h = ground (arith, lookup-pop_all x ids d, present-pop_all xs ids d)

module _ (sid : String) (s : Engine) where
  abbrev after : Engine
  after = delete_stream sid s

  ledger-after : after.ledger ≡ Ledger.delete_stream sid s.ledger
  unfolding delete_stream forget
  ledger-after = rw (delete_content-ledger (list_events sid s.ledger) s) refl

  blobs-after :
      (b : String)
      → lookup b after.storage.blobs ≡ (
          if contains_text b (all_blob_ids (list_events sid s.ledger))
          then none
          else lookup b s.storage.blobs)
  unfolding delete_stream forget
  blobs-after b = lookup-delete_content b (list_events sid s.ledger) s

  -- What is true of a stream once it has been deleted.
  pub record Deleted : Type 0 where
    pub no_events : list_events sid after.ledger ≡ []
    pub no_head : get_head sid after.ledger ≡ none
    pub no_epoch : lookup sid after.epochs ≡ none
    pub no_blob :
        (b : String)
        → contains_text b (all_blob_ids (list_events sid s.ledger)) ≡ true
        → retrieve_blob b after.storage ≡ err key_error
    pub others :
        (other : String)
        → other ≢ sid
        → disjoint (entries other s.ledger.order) (entries sid s.ledger.order) ≡ true
        → list_events other after.ledger ≡ list_events other s.ledger

  gone_stream :
      (l : Ledger)
      → (list_events sid (Ledger.delete_stream sid l) ≡ [])
        × (get_head sid (Ledger.delete_stream sid l) ≡ none)
  unfolding list_events get_head Ledger.delete_stream present
  gone_stream l =
      ground (arith, lookup-pop sid sid l.order, lookup-pop sid sid l.streams, eq_refl sid)

  kept_stream :
      (l : Ledger) (other : String)
      → other ≢ sid
      → disjoint (entries other l.order) (entries sid l.order) ≡ true
      → list_events other (Ledger.delete_stream sid l) ≡ list_events other l
  unfolding list_events Ledger.delete_stream
  kept_stream l other ne apart = ground (
    arith,
    lookup-pop sid other l.order,
    eq_iff sid other,
    present-pop_all (entries other l.order) (entries sid l.order) l.events apart,
  )

  -- A deleted stream lists no event and has no head and no epoch, and no blob that one of its
  -- events refers to can be retrieved; a stream that shares no event id with it lists what it did.
  pub delete_stream-Deleted : Deleted
  unfolding retrieve_blob
  delete_stream-Deleted = record {
    no_events = rw ledger-after (gone_stream s.ledger).0;
    no_head = rw ledger-after (gone_stream s.ledger).1;
    no_epoch = unfold delete_stream forget in simp (lookup-pop, eq_refl);
    no_blob = λ b h. rw (blobs-after b, h) refl;
    others = λ other ne apart. rw ledger-after (kept_stream s.ledger other ne apart);
  }

  -- A blob is named by its content, so two streams can share one: an event that the deleted stream
  -- does not list, and whose blob some event of the deleted stream has too, can be read no more.
  delete_stream_shared :
      (env : Env) (e : MemoryEvent)
      → get_event e.id s.ledger ≡ some (memory e)
      → contains_text e.id (entries sid s.ledger.order) ≡ false
      → e.content_blob_id ≢ ""
      → contains_text e.content_blob_id (all_blob_ids (list_events sid s.ledger)) ≡ true
      → read env e.id after ≡ err key_error
  unfolding read get_event payload_of load retrieve_blob Ledger.delete_stream
  delete_stream_shared env e there apart ne shared =
      rw
        (
          ledger-after,
          lookup-pop_all e.id (entries sid s.ledger.order) s.ledger.events,
          apart,
          there,
        )
        (ground (arith, eq_iff e.content_blob_id "", blobs-after e.content_blob_id))
