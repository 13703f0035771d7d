-- ===== src/Walrus/Network.antt =====
-- The HTTP calls of `WalrusAdapter`: what the services answer is a parameter, the retries are not.
use walrus_os.Base.{ℕ, zero, suc, ◌+◌, String, Option, none, some, List, length, or_default, Bool}
use walrus_os.Base.Result.{Result, ok, err, key_error, network_error}

-- The two shapes of an answer of the publisher, with the fields that may be missing, any other
-- shape, and an error of the request or a status.
pub data PutReply : Type 0 where
  newly_created : String → Option ℕ → Option ℕ → PutReply
  already_certified : String → Option ℕ → PutReply
  unexpected failed : PutReply

pub data GetReply : Type 0 where
  found : List ℕ → GetReply
  missing failed : GetReply

-- The publisher and the aggregator over a state of their own; the answer to a read may differ from
-- one attempt to the next.
pub record Service (W : Type 0) : Type 0 where
  pub put : ℕ → List ℕ → W → PutReply × W
  pub get : ℕ → String → W → GetReply
  pub head : String → W → Bool

pub record BlobInfo : Type 0 where
  pub blob_id : String
  pub size : ℕ
  pub end_epoch : ℕ

-- The dict of an answer; an unexpected shape raises, and is tried again as an error is.
unfoldable pub read_reply : ℕ → List ℕ → PutReply → Option BlobInfo
read_reply epochs bytes (newly_created id size epoch) = some (record {
  blob_id = id;
  size = or_default size (length bytes);
  end_epoch = or_default epoch epochs;
})
read_reply epochs bytes (already_certified id epoch) =
    some (record { blob_id = id; size = length bytes; end_epoch = or_default epoch epochs })
read_reply epochs bytes unexpected = none
read_reply epochs bytes PutReply.failed = none

module _ {W : Type 0} (s : Service W) where
  -- The attempts that are left.
  unfoldable pub try_put : ℕ → ℕ → List ℕ → W → Result BlobInfo × W
  unfolding read_reply
  try_put zero epochs bytes w = (err network_error, w)
  try_put (suc n) epochs bytes w =
      let r = s.put epochs bytes w in
      let rest = try_put n epochs bytes r.1 in
      elim (read_reply epochs bytes r.0) [ some info ↦ (ok info, r.1) | none ↦ rest ]

  -- `stop_after_attempt(5)`
  unfoldable pub http_put : ℕ → List ℕ → W → Result BlobInfo × W
  unfolding try_put
  http_put epochs bytes w = try_put 5 epochs bytes w

  -- A missing blob is not asked for again.
  unfoldable pub try_get : ℕ → ℕ → String → W → Result (List ℕ)
  try_get zero i blob_id w = err network_error
  try_get (suc n) i blob_id w =
      let rest = try_get n (i + 1) blob_id w in
      elim (s.get i blob_id w) [
        | found bytes ↦ ok bytes
        | missing ↦ err key_error
        | GetReply.failed ↦ rest
      ]

  -- `stop_after_attempt(3)`
  unfoldable pub http_get : String → W → Result (List ℕ)
  unfolding try_get
  http_get blob_id w = try_get 3 0 blob_id w
