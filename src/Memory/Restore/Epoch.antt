-- ===== src/Memory/Restore/Epoch.antt =====
-- What `resume` makes of the epoch counter of a checkpoint and of a snapshot.
use walrus_os.Base.{String, ◌≡◌, refl, none, some, arith, or_default}
use walrus_os.Base.Dict.{lookup, insert}
use walrus_os.Base.Result.{ok}
use walrus_os.Model.Value.{Payload, str, get, get_or}
use walrus_os.Adapters.Storage.{retrieve_blob-store_blob}
use walrus_os.Adapters.Ledger.{get_head}
use walrus_os.Memory.State.{Engine, Env, Fresh}
use walrus_os.Memory.Read.{load}
use walrus_os.Memory.Restore.{checkpoint, checkpoint_payload, resume, resume_from}

module _ (env : Env) (sid : String) (f : Fresh) (s t : Engine) where
  abbrev saved : Payload
  saved =
      checkpoint_payload sid (or_default (get_head sid s.ledger) "genesis")
        (or_default (lookup sid s.epochs) 0) f.ts

  load-checkpoint :
      env.loads (env.dumps saved) ≡ some saved
      → t.storage ≡ (checkpoint env sid f s).1.storage
      → load env (checkpoint env sid f s).0 t ≡ ok saved
  unfolding load checkpoint
  load-checkpoint law same =
      rw
        (
          same,
          retrieve_blob-store_blob env.sha256 (env.dumps saved) "application/json" f.now s.storage,
          law,
        )
        refl

  -- Resuming from a checkpoint, in an engine with the storage that it was made in, gives the stream
  -- the epoch counter it had then, zero if it had none, and keeps the counters of the others. That
  -- wants JSON that decodes what it encodes.
  resume-checkpoint :
      env.loads (env.dumps saved) ≡ some saved
      → t.storage ≡ (checkpoint env sid f s).1.storage
      → resume env sid (checkpoint env sid f s).0 t
        ≡ ok (record t { epochs = insert sid (or_default (lookup sid s.epochs) 0) t.epochs })
  unfolding resume resume_from get_or get lookup
  resume-checkpoint law same = rw (load-checkpoint law same) refl

-- Resuming from a blob whose payload says that it is a snapshot and has no epoch sets the counter
-- of the stream to zero.
pub resume-snapshot :
    (env : Env) (sid blob : String) (t : Engine) (p : Payload)
    → load env blob t ≡ ok p
    → get "type" p ≡ str "snapshot"
    → lookup "epoch" p ≡ none
    → resume env sid blob t ≡ ok (record t { epochs = insert sid 0 t.epochs })
unfolding resume resume_from get_or get lookup
resume-snapshot env sid blob t p loaded kind without = ground (arith, loaded)
