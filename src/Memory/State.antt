-- ===== src/Memory/State.antt =====
-- The state of a `MemoryEngine`, what it is given from outside, and the epoch counters.
use walrus_os.Base.{ℕ, ◌+◌, String, Option, none, some, List, or_default}
use walrus_os.Base.Dict.{Dict, lookup, insert}
use walrus_os.Base.Result.{Result}
use walrus_os.Model.Value.{Payload, Value}
use walrus_os.Adapters.Storage.{Storage}
use walrus_os.Adapters.Ledger.{Ledger}
use walrus_os.Adapters.Vector.{Vector}

pub record Engine : Type 0 where
  pub ledger : Ledger
  pub storage : Storage
  pub vector : Vector
  pub epochs : Dict ℕ

-- An action that may raise; what was written before a raise stays written.
abbrev pub Action : Type 0 → Type 0
Action A = Engine → Result A × Engine

-- One event of a snapshot blob.
pub record EventData : Type 0 where
  pub id : String
  pub parent_id : Option String
  pub epoch : ℕ
  pub class_type : String
  pub content_blob_id : Option String
  pub payload : Payload

pub record Snapshot : Type 0 where
  pub stream_id : String
  pub events : List EventData
  pub ts : String

-- The libraries that the engine calls: SHA-256, JSON both ways, the text of a value (`none` where
-- it is no text or number), the tokenizer of the vector index; and the two optional methods of a
-- ledger, which the engine looks for by `hasattr`.
pub record Env : Type 0 where
  pub sha256 : String → String
  pub dumps : Payload → String
  pub loads : String → Option Payload
  pub dumps_snapshot : Snapshot → String
  pub loads_snapshot : String → Option Snapshot
  pub show : Value → Option String
  pub tokenize : String → List String
  pub epoch_counter : Option (String → ℕ)
  pub stream_workspace : Option (String → Option String)

-- What a call draws from the clock, from `os.urandom` and from `uuid4`.
pub record Fresh : Type 0 where
  pub now : String
  pub ts : String
  pub nonce : String

-- The counter that a stream starts from.
abbrev pub seed : Option (String → ℕ) → String → ℕ
seed none stream_id = 0
seed (some counter) stream_id = counter stream_id

unfoldable pub next_epoch : Env → String → Dict ℕ → ℕ × Dict ℕ
next_epoch env stream_id epochs =
    let epoch = or_default (lookup stream_id epochs) (seed env.epoch_counter stream_id) + 1 in
    (epoch, insert stream_id epoch epochs)
