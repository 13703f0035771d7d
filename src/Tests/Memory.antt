-- ===== src/Tests/Memory.antt =====
-- The memory engine of walrusos/engine/memory.py on concrete data.
use walrus_os.Base.{◌≡◌, refl, none, some, [], ◌∷◌, arith, eq_iff}
use walrus_os.Base.Dict.{lookup, insert}
use walrus_os.Base.Result.{permission_error}
use walrus_os.Model.Value.{Payload, str}
use walrus_os.Model.Event.{is_memory_type}
use walrus_os.Adapters.Storage
use walrus_os.Adapters.Storage.{store_blob}
use walrus_os.Adapters.Ledger
use walrus_os.Adapters.Ledger.{Ledger, append_event, get_event, get_head}
use walrus_os.Adapters.Vector
use walrus_os.Memory.State.{Engine, Env, Fresh, next_epoch}
use walrus_os.Memory.Append.{
  Args, SignatureBlock, plain, append, prepare, commit, make_event, event_id, stored_payload,
  belongs, index_event,
}
use walrus_os.Memory.Append.Committed.{made, Appended, append-Appended, append_atomic}
use walrus_os.Memory.Branch.{fork, create_stream, fork_payload}
use walrus_os.Memory.Branch.Fork.{Child, fork-Child}
use walrus_os.Memory.Branch.Delete.{Deleted, delete_stream-Deleted}
use walrus_os.Tests.Data.{hash}

-- Every payload is written as one text, and every text is read as the payload given.
abbrev env : Payload → Env
env p = record {
  sha256 = hash;
  dumps = λ q. "json";
  loads = λ t. some p;
  dumps_snapshot = λ q. "snapshot";
  loads_snapshot = λ t. none;
  show = λ v. none;
  tokenize = λ t. [];
  epoch_counter = none;
  stream_workspace = some (λ sid. some "w");
}

abbrev now : Fresh
now = record { now = "2026"; ts = "t"; nonce = "n" }

abbrev fresh_engine : Engine
fresh_engine = record {
  ledger = Ledger.empty;
  storage = Storage.empty;
  vector = Vector.empty;
  epochs = [];
}

abbrev call : Args
call = record (plain "s1" "semantic" (("text", str "hello") ∷ [])) { workspace_id = some "w" }

abbrev env1 : Env
env1 = env (stored_payload call)

abbrev after_one : Engine
after_one = (append env1 call now fresh_engine).1

append-Appended_example :
    Appended env1 call now fresh_engine (made env1 call now fresh_engine) after_one
unfolding append belongs commit prepare make_event event_id next_epoch append_event store_blob
    insert lookup get_head is_memory_type
append-Appended_example =
    append-Appended env1 call now fresh_engine (made env1 call now fresh_engine) after_one refl
      (λ p. absurd (ground (arith, eq_iff "#genesis:#json:t:n" "genesis")))
      (λ p. absurd (ground (arith, eq_iff "#json" ""))) refl

abbrev elsewhere : Args
elsewhere = record call { workspace_id = some "other" }

append_atomic_example :
    let s' = (append env1 elsewhere now after_one).1 in
    (s'.ledger ≡ after_one.ledger) × (s'.vector ≡ after_one.vector)
unfolding append belongs
append_atomic_example =
    append_atomic env1 elsewhere now after_one permission_error
      ((append env1 elsewhere now after_one).1) refl

-- An event that `append` writes with a signature block.
abbrev block : SignatureBlock
block = record { event_hash = "e1"; signature = "k#json"; public_key = "k" }

abbrev signed_call : Args
signed_call = record call { signature_block = some block }

abbrev env2 : Env
env2 = env (stored_payload signed_call)

abbrev after_signed : Engine
after_signed = (append env2 signed_call now fresh_engine).1

fork-Child_example :
    Child "s1" "s2" after_one (fork env1 "s1" "#genesis:#json:t:n" "s2" now after_one).1 "s2"
unfolding fork fork_payload create_stream Ledger.create_stream get_event append belongs commit
    prepare make_event event_id next_epoch append_event store_blob insert lookup get_head
    is_memory_type index_event
fork-Child_example =
    fork-Child env1 "s1" "#genesis:#json:t:n" "s2" now after_one
      ((fork env1 "s1" "#genesis:#json:t:n" "s2" now after_one).1) "s2" refl
      (λ p. absurd (ground (arith, eq_iff "s1" "s2"))) refl

-- Two streams with the same content, and so with one blob.
abbrev twice : Engine
twice = (append env1 (record call { stream_id = "s2" }) (record now { nonce = "m" }) after_one).1

delete_stream-Deleted_example : Deleted "s1" twice
delete_stream-Deleted_example = delete_stream-Deleted "s1" twice
