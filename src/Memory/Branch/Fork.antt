-- ===== src/Memory/Branch/Fork.antt =====
-- `MemoryEngine.fork`: the new stream and the source.
use walrus_os.Base.{
  String, ◌≡◌, ◌≢◌, refl, false, none, some, [], ◌∷◌, arith, eq_iff, eq_refl, Option-cases, inl,
  inr, contains_text, ◌∙◌,
}
use walrus_os.Base.Dict.{lookup-insert}
use walrus_os.Base.Result.{ok, Result-cases}
use walrus_os.Model.Event.{MemoryEvent}
use walrus_os.Adapters.Ledger.{
  StoredEvent, memory, entries, list_events, get_head, get_event, present,
}
use walrus_os.Adapters.Ledger
use walrus_os.Adapters.Ledger.Append.{list_events-append_event, append_event_other}
use walrus_os.Memory.State.{Engine, Env, Fresh}
use walrus_os.Memory.Append.{Args, plain, append, index_event, prepare, make_event}
use walrus_os.Memory.Append.Committed.{made, committed, append-Committed}
use walrus_os.Memory.Branch.{fork, create_stream, fork_payload}

-- A success of `fork` is a success of `append` on the new stream.
pub data Forked (env : Env) (source from_id new_id : String) (f : Fresh) (s s' : Engine)
    : Type 0 where
  forked :
      (e : StoredEvent) (w : MemoryEvent)
      → get_event from_id s.ledger ≡ some e
      → append env
          (plain new_id "system" (fork_payload source from_id e))
          f
          (create_stream new_id s).1
        ≡ (ok w, s')
      → Forked env source from_id new_id f s s'

fork-Forked :
    (env : Env) (source from_id new_id : String) (f : Fresh) (s s' : Engine) (r : String)
    → fork env source from_id new_id f s ≡ (ok r, s')
    → Forked env source from_id new_id f s s'
unfolding fork create_stream Ledger.create_stream
fork-Forked env source from_id new_id f s s' r h =
    elim (Option-cases (get_event from_id s.ledger)) [
      | inl n ↦ absurd (ground arith)
      | inr (e, p) ↦
          elim (Result-cases
            (append env (plain new_id "system" (fork_payload source from_id e)) f
              (create_stream new_id s).1).0) [
                | inr (x, q) ↦ absurd (ground arith)
                | inl (w, q) ↦ forked e w p (ground arith)
              ]
    ]

-- The new stream of a fork, and the stream that it came from.
pub record Child (source new_id : String) (s s' : Engine) (r : String) : Type 0 where
  pub first : MemoryEvent
  pub stream : r ≡ new_id
  pub only : list_events new_id s'.ledger ≡ memory first ∷ []
  pub parent : first.parent_id ≡ "genesis"
  pub unchanged :
      contains_text first.id (entries source s.ledger.order) ≡ false
      → (list_events source s'.ledger ≡ list_events source s.ledger)
        × (get_head source s'.ledger ≡ get_head source s.ledger)

module _ (env : Env) (source from_id new_id : String) (f : Fresh) (s : Engine) where
  create_stream-fresh :
      entries new_id s.ledger.order ≡ []
      → let t = (create_stream new_id s).1 in
        (entries new_id t.ledger.order ≡ [])
        × (list_events new_id t.ledger ≡ [])
        × (get_head new_id t.ledger ≡ none)
  unfolding create_stream Ledger.create_stream list_events get_head present
  create_stream-fresh h = (
    h,
    rw h refl,
    ground (arith, lookup-insert new_id new_id "genesis" s.ledger.streams, eq_refl new_id),
  )

  create_stream_other :
      source ≢ new_id
      → let t = (create_stream new_id s).1 in
        (entries source t.ledger.order ≡ entries source s.ledger.order)
        × (list_events source t.ledger ≡ list_events source s.ledger)
        × (get_head source t.ledger ≡ get_head source s.ledger)
  unfolding create_stream Ledger.create_stream list_events get_head
  create_stream_other ne = (
    refl,
    refl,
    ground (arith, lookup-insert new_id source "genesis" s.ledger.streams, eq_iff new_id source),
  )

  fork-result :
      (s' : Engine) (r : String) → fork env source from_id new_id f s ≡ (ok r, s') → r ≡ new_id
  unfolding fork create_stream Ledger.create_stream
  fork-result s' r h = elim (Option-cases (get_event from_id s.ledger)) [
    | inl n ↦ absurd (ground arith)
    | inr (e, p) ↦
        elim (Result-cases
          (append env (plain new_id "system" (fork_payload source from_id e)) f
            (create_stream new_id s).1).0) [
              | inr (x, q) ↦ absurd (ground arith)
              | inl (w, q) ↦ ground arith
            ]
  ]

  -- A fork under a new stream id makes a stream of one event, whose parent is genesis, and leaves
  -- the events and the head of the source as they were if it does not list the new event's id.
  pub fork-Child :
      (s' : Engine) (r : String)
      → fork env source from_id new_id f s ≡ (ok r, s')
      → source ≢ new_id
      → entries new_id s.ledger.order ≡ []
      → Child source new_id s s' r
  fork-Child s' r h ne fresh = elim (fork-Forked env source from_id new_id f s s' r h) [
    | forked e w found done ↦
        let t : Engine = (create_stream new_id s).1 in
        let a : Args = plain new_id "system" (fork_payload source from_id e) in
        elim (append-Committed env a f t w s' done) [
          | committed l b m k same now ↦
              let new = create_stream-fresh fresh in
              let old = create_stream_other ne in
              record {
                first = made env a f t;
                stream = fork-result s' r h;
                only = rw now (
                    unfold index_event in
                    (list_events-append_event new_id (memory (made env a f t)) t.ledger k
                        (rw new.0 refl)
                      ∙ rw new.1 refl));
                parent = unfold prepare make_event in rw new.2 refl;
                unchanged = λ apart. rw now (
                    unfold index_event in
                    let kept =
                      append_event_other new_id (memory (made env a f t)) t.ledger k source ne
                        (rw old.0 apart) in
                    (kept.0 ∙ old.1, kept.1 ∙ old.2));
              }
        ]
  ]
