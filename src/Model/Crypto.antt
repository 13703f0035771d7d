-- ===== src/Model/Crypto.antt =====
-- walrusos/core/crypto.py. JSON, SHA-256, hex, Base64 and Ed25519 are library code: parameters.
use walrus_os.Base.{String, Bool, false, Option, none, some}
use walrus_os.Model.Value.{Payload}

-- Bytes are texts here. `none` is a raised exception.
pub record Primitives : Type 1 where
  pub Key : Type 0
  pub canonical_json : Payload → Option String
  pub sha256 : String → String
  pub from_hex : String → Option String
  pub b64decode : String → Option String
  pub public_key_from_bytes : String → Option Key
  pub verify : Key → String → String → Bool
  pub sign : String → String → Option String

module _ (c : Primitives) where
  unfoldable pub canonicalize_payload : Payload → Option String
  canonicalize_payload p = c.canonical_json p

  unfoldable pub hash_payload : String → String
  hash_payload bytes = c.sha256 bytes

  -- The `try` block: `none` is an `InvalidSignature`, `ValueError` or `TypeError`.
  unfoldable pub checks : String → String → String → Option Bool
  checks key_hex hash_hex signature = elim (c.from_hex key_hex) [
    | none ↦ none
    | some key_bytes ↦ elim (c.public_key_from_bytes key_bytes) [
      | none ↦ none
      | some key ↦ elim (c.b64decode signature) [
        | none ↦ none
        | some sig_bytes ↦ elim (c.from_hex hash_hex) [
          | none ↦ none
          | some hash_bytes ↦ some (c.verify key sig_bytes hash_bytes)
        ]
      ]
    ]
  ]

  unfoldable pub verify_signature : String → String → String → Bool
  unfolding checks
  verify_signature key_hex hash_hex signature = elim (checks key_hex hash_hex signature) [
    | none ↦ false
    | some b ↦ b
  ]
