-- ===== src/Memory/Read/Verify.antt =====
-- What `verify_event` makes of an event that `append` wrote with a signature.
use walrus_os.Base.{String, ◌≡◌, ◌≢◌, true, false, some, arith, eq_iff}
use walrus_os.Base.Result.{ok}
use walrus_os.Model.Value.{Payload, get, truthy}
use walrus_os.Model.Event.{MemoryEvent}
use walrus_os.Model.Crypto.{Primitives}
use walrus_os.Adapters.Ledger.{memory, get_event}
use walrus_os.Memory.State.{Engine, Env}
use walrus_os.Memory.Read.{load, verify_event, hash_without_block, counts_as_signed}

-- A stored memory event that carries a signature other than a migration's, and whose payload can
-- be loaded and hashed and does not name a key at its top, is never verified, whatever the
-- signature block in its payload says.
verify_event-signed_memory :
    (c : Primitives) (env : Env) (s : Engine) (e : MemoryEvent) (sig : String) (p : Payload)
    (hash : String)
    → get_event e.id s.ledger ≡ some (memory e)
    → e.signature ≡ some sig
    → counts_as_signed sig ≡ true
    → e.content_blob_id ≢ ""
    → load env e.content_blob_id s ≡ ok p
    → hash_without_block c p ≡ ok hash
    → truthy (get "public_key" p) ≡ false
    → verify_event c env e.id s ≡ ok false
unfolding verify_event
verify_event-signed_memory c env s e sig p hash there signed counts ne loaded hashed keyless =
    ground (arith, eq_iff e.content_blob_id "")
