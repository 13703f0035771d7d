-- ===== src/Adapters/Ledger/Append.antt =====
-- What an append does to a stream, and that it leaves the others alone.
use walrus_os.Base.{
  String, ◌≡◌, ◌≢◌, refl, false, some, List, [], ◌∷◌, ◌++◌, arith, eq_iff, contains_text,
}
use walrus_os.Base.Dict.{Dict, insert, lookup-insert}
use walrus_os.Base.Result.{ok}
use walrus_os.Adapters.Ledger.{
  Ledger, StoredEvent, stored_id, append_event, get_head, get_event, list_events, entries, present,
}

present-append :
    (xs ys : List String) (d : Dict StoredEvent)
    → present (xs ++ ys) d ≡ present xs d ++ present ys d
unfolding present
present-append [] ys d = refl
present-append (x ∷ xs) ys d = ground (arith, present-append xs ys d)

-- An id that is not listed can be written without a change to what the list shows.
present-insert :
    (ids : List String) (k : String) (e : StoredEvent) (d : Dict StoredEvent)
    → contains_text k ids ≡ false
    → present ids (insert k e d) ≡ present ids d
unfolding present
present-insert [] k e d h = refl
present-insert (x ∷ ids) k e d h =
    ground (arith, present-insert ids k e d, lookup-insert k x e d, eq_iff k x, eq_iff x k)

present_one :
    (k : String) (e : StoredEvent) (d : Dict StoredEvent) → present (k ∷ []) (insert k e d) ≡ e ∷ []
unfolding present
present_one k e d = ground (arith, lookup-insert k k e d, eq_iff k k)

module _ (sid : String) (e : StoredEvent) (l : Ledger) {l' : Ledger}
    (appended : append_event sid e l ≡ ok l') where
  -- An append under a new id adds the event at the end of its stream.
  pub list_events-append_event :
      contains_text (stored_id e) (entries sid l.order) ≡ false
      → list_events sid l' ≡ list_events sid l ++ e ∷ []
  unfolding list_events append_event
  list_events-append_event fresh = ground (
    arith,
    present-append (entries sid l.order) (stored_id e ∷ []) (insert (stored_id e) e l.events),
    present-insert (entries sid l.order) (stored_id e) e l.events fresh,
    present_one (stored_id e) e l.events,
    lookup-insert sid sid (entries sid l.order ++ stored_id e ∷ []) l.order,
    eq_iff sid sid,
  )

  -- The new event is the head of its stream, and is found by its id.
  pub get_head-append_event :
      stored_id e ≢ "genesis"
      → (get_head sid l' ≡ some (stored_id e)) × (get_event (stored_id e) l' ≡ some e)
  unfolding get_head get_event append_event
  get_head-append_event h = ground (
    arith,
    lookup-insert sid sid (stored_id e) l.streams,
    lookup-insert (stored_id e) (stored_id e) e l.events,
    eq_iff sid sid,
    eq_iff (stored_id e) (stored_id e),
    eq_iff (stored_id e) "genesis",
  )

  -- An append changes nothing of another stream that does not list the id.
  pub append_event_other :
      (other : String)
      → other ≢ sid
      → contains_text (stored_id e) (entries other l.order) ≡ false
      → (list_events other l' ≡ list_events other l) × (get_head other l' ≡ get_head other l)
  unfolding list_events append_event get_head
  append_event_other other ne fresh = ground (
    arith,
    present-insert (entries other l.order) (stored_id e) e l.events fresh,
    lookup-insert sid other (entries sid l.order ++ stored_id e ∷ []) l.order,
    lookup-insert sid other (stored_id e) l.streams,
    eq_iff sid other,
  )
