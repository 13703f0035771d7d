-- ===== src/Memory/Branch/Merge.antt =====
-- What a merge adds to the target stream.
use walrus_os.Base.{
  String, ◌<>◌, ◌≡◌, ◌≢◌, refl, false, [], ◌∷◌, ◌++◌, arith, or_default, inl, inr, contains_text,
  ◌+◌, some,
}
use walrus_os.Base.Dict.{lookup}
use walrus_os.Base.Result.{ok, Result-cases}
use walrus_os.Model.Event.{MemoryEvent}
use walrus_os.Adapters.Storage.{store_blob}
use walrus_os.Adapters.Ledger.{memory, entries, list_events, get_head, append_event}
use walrus_os.Adapters.Ledger.Append.{list_events-append_event, get_head-append_event}
use walrus_os.Memory.State.{Engine, Env, Fresh, next_epoch, seed}
use walrus_os.Memory.Branch.{merge, merge_event, merge_payload}

module _ (env : Env) (target source : String) (f : Fresh) (s : Engine) where
  abbrev target_head : String
  target_head = or_default (get_head target s.ledger) "genesis"

  abbrev source_head : String
  source_head = or_default (get_head source s.ledger) "genesis"

  abbrev commit : MemoryEvent
  commit =
      merge_event env target (target_head <> "," <> source_head)
        (store_blob env.sha256 (env.dumps (merge_payload source source_head target_head))
          "application/json" f.now s.storage).0
        (next_epoch env target s.epochs).0 f

  pub data Merged (e : MemoryEvent) (s' : Engine) : Type 0 where
    merged : append_event target (memory commit) s.ledger ≡ ok s'.ledger → e ≡ commit → Merged e s'

  merge-commit :
      (e : MemoryEvent) (s' : Engine) → merge env target source f s ≡ (ok e, s') → Merged e s'
  unfolding merge
  merge-commit e s' h = elim (Result-cases (append_event target (memory commit) s.ledger)) [
    | inr (x, r) ↦ absurd (ground arith)
    | inl (l, r) ↦ merged (ground arith) (ground arith)
  ]

  commit-fields :
      (commit.parent_id ≡ (target_head <> "," <> source_head))
      × (commit.epoch ≡ or_default (lookup target s.epochs) (seed env.epoch_counter target) + 1)
      × (commit.memory_type ≡ "observation")
  unfolding merge_event next_epoch
  commit-fields = (refl, refl, refl)

  -- A merge appends one event to the target, under a new id: its parents are the two heads, its
  -- epoch is the target's next, it is the new head, and its memory type is the default, observation.
  merge_lem :
      (e : MemoryEvent) (s' : Engine)
      → merge env target source f s ≡ (ok e, s')
      → e.id ≢ "genesis"
      → contains_text e.id (entries target s.ledger.order) ≡ false
      → (e.parent_id ≡ (target_head <> "," <> source_head))
        × (e.epoch ≡ or_default (lookup target s.epochs) (seed env.epoch_counter target) + 1)
        × (e.memory_type ≡ "observation")
        × (get_head target s'.ledger ≡ some e.id)
        × (list_events target s'.ledger ≡ list_events target s.ledger ++ memory e ∷ [])
  merge_lem e s' h ne fresh = elim (merge-commit e s' h) [
    | merged k same ↦ rw same (
      commit-fields.0,
      commit-fields.1,
      commit-fields.2,
      (get_head-append_event target (memory commit) s.ledger k (rw (← same) ne)).0,
      list_events-append_event target (memory commit) s.ledger k (rw (← same) fresh),
    )
  ]
