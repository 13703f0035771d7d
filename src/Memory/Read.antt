-- ===== src/Memory/Read.antt =====
-- `MemoryEngine.read`, `timeline`, `replay` and `verify_event`.
pub mod Range
pub mod Verify
use walrus_os.Base.{
  ℕ, ◌+◌, String, Bool, true, false, not, ◌&&◌, Option, none, some, List, [], ◌∷◌, ◌==◌, or_default,
  leb, if◌then◌else◌, eqb,
}
use walrus_os.Base.Dict.{lookup, pop}
use walrus_os.Base.Result.{
  Result, ok, err, or_raise, or_else, key_error, json_error, value_error, type_error, ◌>>=◌,
}
use walrus_os.Model.Value.{Payload, Value, obj, get, truthy}
use walrus_os.Model.Crypto.{Primitives, canonicalize_payload, hash_payload, verify_signature}
use walrus_os.Adapters.Storage.{retrieve_blob}
use walrus_os.Adapters.Ledger.{StoredEvent, memory, protocol, stored_id, get_event, list_events}
use walrus_os.Replay.Engine.{signed_by}
use walrus_os.Memory.State.{Engine, Env}

-- `json.loads` of a retrieved blob
unfoldable pub load : Env → String → Engine → Result Payload
load env blob_id s = retrieve_blob blob_id s.storage >>= λ raw. or_raise (env.loads raw) json_error

-- The three ways to find a payload, in the order of the code.
unfoldable pub payload_of : Env → StoredEvent → Engine → Result Payload
unfolding load
payload_of env (protocol e) s = elim e.payload [
  | [] ↦ elim e.blob_id [ none ↦ ok [] | some b ↦ if b == "" then ok [] else load env b s ]
  | x ∷ xs ↦ ok (x ∷ xs)
]
payload_of env (memory e) s =
    if e.content_blob_id == "" then ok [] else load env e.content_blob_id s

unfoldable pub read : Env → String → Engine → Result Payload
unfolding payload_of
read env event_id s = or_raise (get_event event_id s.ledger) key_error >>= λ e. payload_of env e s

-- A payload that cannot be read is shown as an empty one.
unfoldable pub with_payloads : Env → List StoredEvent → Engine → List (StoredEvent × Payload)
with_payloads env [] s = []
with_payloads env (e ∷ es) s = (e, or_else (read env (stored_id e) s) []) ∷ with_payloads env es s

unfoldable pub timeline : Env → String → Engine → List (StoredEvent × Payload)
unfolding with_payloads
timeline env stream_id s = with_payloads env (list_events stream_id s.ledger) s

-- `getattr(ev, "epoch", None) or i`
abbrev pub epoch_or : StoredEvent → ℕ → ℕ
epoch_or (memory e) i = if eqb e.epoch 0 then i else e.epoch
epoch_or (protocol e) i = i

abbrev pub at_most : ℕ → Option ℕ → Bool
at_most epoch none = true
at_most epoch (some n) = leb epoch n

-- The loop of `replay`, with its counter.
unfoldable pub in_range : Option ℕ → ℕ → ℕ → List (StoredEvent × Payload) → List Payload
in_range up_to first i [] = []
in_range up_to first i ((e, p) ∷ tl) =
    let rest = in_range up_to first (i + 1) tl in
    if leb first (epoch_or e i) && at_most (epoch_or e i) up_to then p ∷ rest else rest

unfoldable pub replay : Env → String → Option ℕ → ℕ → Engine → List Payload
unfolding in_range
replay env stream_id up_to from_epoch s = in_range up_to from_epoch 1 (timeline env stream_id s)

-- The payload that `verify_event` hashes: a blob first, and the event's own payload only without.
unfoldable pub blob_of : StoredEvent → Option String
blob_of (memory e) = some e.content_blob_id
blob_of (protocol e) = e.blob_id

unfoldable pub payload_to_verify : Env → StoredEvent → Engine → Result Payload
unfolding blob_of
payload_to_verify env e s = elim (blob_of e) [
  | none ↦ read env (stored_id e) s
  | some b ↦ if b == "" then read env (stored_id e) s else load env b s
]

-- `getattr(event, "signature", None)`
abbrev pub signature_on : StoredEvent → String
signature_on (memory e) = or_default e.signature ""
signature_on (protocol e) = e.signature

abbrev pub counts_as_signed : String → Bool
counts_as_signed sig = not (sig == "") && not (sig == "v0_migration") && not (sig == "cli-unsigned")

-- A field of the signature block in a payload.
unfoldable pub block_field : String → Value → Result String
block_field k (obj d) = or_raise (lookup k d) key_error
block_field k _ = err type_error

module _ (c : Primitives) where
  -- The hash of the canonical payload without its block; canonical JSON may raise.
  unfoldable pub hash_without_block : Payload → Result String
  hash_without_block p =
      or_raise (canonicalize_payload c (pop "_signature" p)) value_error >>= λ bytes.
      ok (hash_payload c bytes)

  -- Mode A: the signature on the event, with the key in the payload.
  unfoldable pub mode_a : String → Payload → Result Bool
  unfolding hash_without_block
  mode_a sig p = hash_without_block p >>= λ hash.
      ok (if truthy (get "public_key" p) then signed_by c (get "public_key" p) hash sig else false)

  -- Mode B: the block in the payload, whose hash has to be that of the rest.
  unfoldable pub check_block : Value → String → Result Bool
  unfolding block_field
  check_block block hash = block_field "event_hash" block >>= λ stated.
      let signed =
        (block_field "public_key" block >>= λ key.
        block_field "signature" block >>= λ sig. ok (verify_signature c key hash sig)) in
      if hash == stated then signed else ok false

  unfoldable pub mode_b : Payload → Result Bool
  unfolding hash_without_block check_block
  mode_b p =
      let block = get "_signature" p in
      let checked = (hash_without_block p >>= λ hash. check_block block hash) in
      if truthy block then checked else ok false

  unfoldable pub verify_payload : StoredEvent → Payload → Result Bool
  unfolding mode_a mode_b
  verify_payload e p =
      if counts_as_signed (signature_on e) then mode_a (signature_on e) p else mode_b p

  -- A payload that cannot be loaded makes the answer `False`.
  unfoldable pub verify_event : Env → String → Engine → Result Bool
  unfolding verify_payload payload_to_verify
  verify_event env event_id s = or_raise (get_event event_id s.ledger) key_error >>= λ e.
      elim (payload_to_verify env e s) [ err x ↦ ok false | ok p ↦ verify_payload e p ]
