-- ===== src/Replay/Genuine.antt =====
-- What a signature check and the checks of `replay` establish, in terms of the primitives.
use walrus_os.Base.{String, ◌≡◌, ◌≢◌, true, some, All, arith, eq_iff, Option-cases, inl, inr}
use walrus_os.Model.Event.{ProtocolEvent, memory_appended}
use walrus_os.Model.Value.{get, str, truthy}
use walrus_os.Model.Crypto.{Primitives, verify_signature}
use walrus_os.Replay.BlobId.{codes, IsHarmless, valid_blob_id-IsHarmless}
use walrus_os.Replay.Tracker.{Tracker}
use walrus_os.Replay.Engine.{Options, admits, is_signed}

-- The key, of this hex text, has signed the hash.
pub record Verified (c : Primitives) (k hash signature : String) : Type 0 where
  pub key_bytes : String
  pub key : c.Key
  pub sig_bytes : String
  pub hash_bytes : String
  pub from_key : c.from_hex k ≡ some key_bytes
  pub is_key : c.public_key_from_bytes key_bytes ≡ some key
  pub from_signature : c.b64decode signature ≡ some sig_bytes
  pub from_hash : c.from_hex hash ≡ some hash_bytes
  pub checked : c.verify key sig_bytes hash_bytes ≡ true

pub verify_signature-Verified :
    (c : Primitives) (k hash signature : String)
    → verify_signature c k hash signature ≡ true
    → Verified c k hash signature
unfolding verify_signature
verify_signature-Verified c k hash signature h = elim (Option-cases (c.from_hex k)) [
  | inl n ↦ absurd (ground arith)
  | inr (key_bytes, p) ↦ elim (Option-cases (c.public_key_from_bytes key_bytes)) [
    | inl n ↦ absurd (ground arith)
    | inr (key, q) ↦ elim (Option-cases (c.b64decode signature)) [
      | inl n ↦ absurd (ground arith)
      | inr (sig_bytes, r) ↦ elim (Option-cases (c.from_hex hash)) [
        | inl n ↦ absurd (ground arith)
        | inr (hash_bytes, w) ↦ record {
          key_bytes = key_bytes;
          key = key;
          sig_bytes = sig_bytes;
          hash_bytes = hash_bytes;
          from_key = p;
          is_key = q;
          from_signature = r;
          from_hash = w;
          checked = ground arith;
        }
      ]
    ]
  ]
]

module _ (c : Primitives) where
  -- An event that a replay with `verify_crypto` lets through, in terms of the primitives.
  pub record Genuine (e : ProtocolEvent) : Type 0 where
    pub harmless : (b : String) → e.blob_id ≡ some b → All IsHarmless (codes b)
    pub hashed : is_signed e ≡ true → (bytes : String) × (c.canonical_json e.payload ≡ some bytes)
    pub untampered :
        (bytes h : String)
        → is_signed e ≡ true
        → e.event_type ≡ memory_appended
        → c.canonical_json e.payload ≡ some bytes
        → e.blob_hash ≡ some h
        → h ≢ ""
        → h ≡ c.sha256 bytes
    pub signed :
        (bytes k : String)
        → is_signed e ≡ true
        → c.canonical_json e.payload ≡ some bytes
        → get "public_key" e.payload ≡ str k
        → k ≢ ""
        → Verified c k (c.sha256 bytes) e.signature

  pub admits-Genuine :
      (o : Options) (t : Tracker) (e : ProtocolEvent)
      → o.verify_crypto ≡ true
      → admits c o t e ≡ true
      → Genuine e
  unfolding admits truthy
  admits-Genuine o t e v a = record {
    harmless = λ b p. (valid_blob_id-IsHarmless b (ground arith)).0;
    hashed = λ s. elim (Option-cases (c.canonical_json e.payload)) [
      | inl n ↦ absurd (ground arith)
      | inr (bytes, p) ↦ (bytes, p)
    ];
    untampered = λ bytes h s m p q ne. ground (arith, eq_iff h (c.sha256 bytes), eq_iff h "");
    signed = λ bytes k s p q ne.
        verify_signature-Verified c k (c.sha256 bytes) e.signature (ground (arith, eq_iff k ""));
  }
