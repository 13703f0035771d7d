-- ===== src/Memory/Append/Committed.antt =====
-- What a successful append has done, and what a refused one leaves.
use walrus_os.Base.{
  ◌+◌, ◌≡◌, ◌≢◌, refl, true, some, arith, or_default, eq_iff, eq_refl, Bool-cases, inl, inr,
}
use walrus_os.Base.Dict.{lookup, lookup-insert}
use walrus_os.Base.Result.{Error, ok, err, Result-cases}
use walrus_os.Model.Event.{MemoryEvent, is_memory_type}
use walrus_os.Adapters.Storage.{store_blob, retrieve_blob-store_blob}
use walrus_os.Adapters.Ledger.{Ledger, memory, append_event, get_head}
use walrus_os.Adapters.Ledger.Append.{get_head-append_event}
use walrus_os.Memory.State.{Engine, Env, Fresh, seed, next_epoch}
use walrus_os.Memory.Append.{
  Args, append, belongs, prepare, commit, index_event, make_event, stored_payload,
}
use walrus_os.Memory.Read.{read, payload_of, load}

module _ (env : Env) (a : Args) (f : Fresh) (s : Engine) where
  abbrev pub prepared : Engine
  prepared = (prepare env a f s).1

  abbrev pub made : MemoryEvent
  made = (prepare env a f s).0

  -- A success went through every guard, and this is the event and the state.
  pub data Committed (e : MemoryEvent) (s' : Engine) : Type 0 where
    committed :
        (l : Ledger)
        → belongs env a ≡ true
        → is_memory_type a.memory_type ≡ true
        → append_event a.stream_id (memory made) s.ledger ≡ ok l
        → e ≡ made
        → s' ≡ index_event env a made (record prepared { ledger = l })
        → Committed e s'

  pub append-Committed :
      (e : MemoryEvent) (s' : Engine) → append env a f s ≡ (ok e, s') → Committed e s'
  unfolding append commit prepare
  append-Committed e s' h = elim (Bool-cases (belongs env a)) [
    | inr p ↦ absurd (ground arith)
    | inl p ↦ elim (Bool-cases (is_memory_type a.memory_type)) [
      | inr q ↦ absurd (ground arith)
      | inl q ↦ elim (Result-cases (append_event a.stream_id (memory made) s.ledger)) [
        | inr (x, r) ↦ absurd (ground arith)
        | inl (l, r) ↦ committed l p q r (ground arith) (ground arith)
      ]
    ]
  ]

  -- What a caller can rely on after a successful append.
  pub record Appended (e : MemoryEvent) (s' : Engine) : Type 0 where
    pub parent : e.parent_id ≡ or_default (get_head a.stream_id s.ledger) "genesis"
    pub epoch :
        e.epoch ≡ or_default (lookup a.stream_id s.epochs) (seed env.epoch_counter a.stream_id) + 1
    pub counter : lookup a.stream_id s'.epochs ≡ some e.epoch
    pub head : get_head a.stream_id s'.ledger ≡ some e.id
    pub stored : read env e.id s' ≡ ok (stored_payload a)

  made-next :
      (made.parent_id ≡ or_default (get_head a.stream_id s.ledger) "genesis")
      × (made.epoch
          ≡ or_default (lookup a.stream_id s.epochs) (seed env.epoch_counter a.stream_id) + 1)
      × (lookup a.stream_id prepared.epochs ≡ some made.epoch)
  unfolding prepare make_event next_epoch
  made-next = (refl, refl, simp (lookup-insert, eq_refl))

  load-prepared :
      (t : Engine)
      → t.storage ≡ prepared.storage
      → env.loads (env.dumps (stored_payload a)) ≡ some (stored_payload a)
      → load env made.content_blob_id t ≡ ok (stored_payload a)
  unfolding load prepare make_event
  load-prepared t same law =
      rw
        (
          same,
          retrieve_blob-store_blob env.sha256 (env.dumps (stored_payload a)) "application/json"
              f.now s.storage,
          law,
        )
        refl

  made-blob : made.content_blob_id ≡ env.sha256 (env.dumps (stored_payload a))
  unfolding prepare make_event store_blob
  made-blob = refl

  read-made :
      (l : Ledger)
      → append_event a.stream_id (memory made) s.ledger ≡ ok l
      → made.id ≢ "genesis"
      → env.sha256 (env.dumps (stored_payload a)) ≢ ""
      → env.loads (env.dumps (stored_payload a)) ≡ some (stored_payload a)
      → read env made.id (index_event env a made (record prepared { ledger = l }))
        ≡ ok (stored_payload a)
  unfolding read payload_of index_event
  read-made l r g n law =
      let t : Engine = index_event env a made (record prepared { ledger = l }) in
      ground (
        arith,
        (get_head-append_event a.stream_id (memory made) s.ledger r g).1,
        load-prepared t refl law,
        eq_iff made.content_blob_id "",
        made-blob,
        n,
      )

  -- A successful append takes the old head, or genesis, as its parent and the next epoch of its
  -- stream; its event is the new head, and reads back as the payload with its signature and
  -- metadata. That wants JSON that decodes what it encodes, a hash that is no empty text, and an
  -- id other than genesis.
  pub append-Appended :
      (e : MemoryEvent) (s' : Engine)
      → append env a f s ≡ (ok e, s')
      → e.id ≢ "genesis"
      → env.sha256 (env.dumps (stored_payload a)) ≢ ""
      → env.loads (env.dumps (stored_payload a)) ≡ some (stored_payload a)
      → Appended e s'
  append-Appended e s' h g n law = elim (append-Committed e s' h) [
    | committed l p q r same done ↦
        let ne : made.id ≢ "genesis" = rw (← same) g in
        let next = made-next in
        rw (same, done)
          (record {
            parent = next.0;
            epoch = next.1;
            counter = unfold index_event in next.2;
            head =
                unfold index_event in
                (get_head-append_event a.stream_id (memory made) s.ledger r ne).0;
            stored = read-made l r ne n law;
          })
  ]

  -- An append that raises leaves the ledger and the vector index as they were.
  pub append_atomic :
      (x : Error) (s' : Engine)
      → append env a f s ≡ (err x, s')
      → (s'.ledger ≡ s.ledger) × (s'.vector ≡ s.vector)
  unfolding append commit prepare
  append_atomic x s' h = elim (Bool-cases (belongs env a)) [
    | inr p ↦ ground arith
    | inl p ↦ elim (Bool-cases (is_memory_type a.memory_type)) [
      | inr q ↦ ground arith
      | inl q ↦ elim (Result-cases (append_event a.stream_id (memory made) s.ledger)) [
        | inr (y, r) ↦ ground arith
        | inl (l, r) ↦ absurd (ground arith)
      ]
    ]
  ]
