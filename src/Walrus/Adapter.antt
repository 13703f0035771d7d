-- ===== src/Walrus/Adapter.antt =====
-- `WalrusAdapter`: storing, chunking and retrieving blobs. Every blob that is uploaded draws a nonce.
use walrus_os.Base.{
  ℕ, zero, suc, ◌+◌, ◌-◌, ◌/◌, String, ◌<>◌, Bool, Option, none, some, List, [], ◌∷◌, ◌++◌, ◌==◌,
  length, ltb, take, drop, if◌then◌else◌,
}
use walrus_os.Base.Dict.{Dict, lookup, insert, pop}
use walrus_os.Base.Result.{
  Result, ok, err, or_raise, zstd_error, key_error, json_error, runtime_error, after, ◌>>=◌,
}
use walrus_os.Sqlite.Tables.{Database, Json}
use walrus_os.Sqlite.Mappings.{save_blob_manifest, get_blob_manifest}
use walrus_os.Walrus.Network.{Service, BlobInfo, http_put, http_get}
use walrus_os.Walrus.Crypt.{Aead, Keyring, encrypt, decrypt}

pub record Metadata : Type 0 where
  pub blob_id : String
  pub mime_type : String
  pub size_bytes : ℕ
  pub created_at : String
  pub epochs : ℕ
  pub key_id : String

-- The adapter with the state of the network.
pub record Adapter (W : Type 0) : Type 0 where
  pub keys : Keyring
  pub sqlite : Option Database
  pub metadata : Dict Metadata
  pub epochs : ℕ
  pub world : W

-- zstd, and the JSON of a manifest: what is read is its chunks and its type, with the default.
pub record Codec : Type 0 where
  pub compress : List ℕ → List ℕ
  pub decompress : List ℕ → Option (List ℕ)
  pub dumps_manifest : List String → String → List ℕ
  pub loads_manifest : List ℕ → Option (List String × String)

-- `blob_id[len(prefix):]` of an id that starts with it
unfoldable pub strip_prefix : String → String → Option String
strip_prefix String.[] s = some s
strip_prefix (String.◌∷◌ c p) String.[] = none
strip_prefix (String.◌∷◌ c p) (String.◌∷◌ d s) =
    let rest = strip_prefix p s in if String.◌∷◌ c "" == String.◌∷◌ d "" then rest else none

-- `payload[i : i + CHUNK_SIZE]` for each start below the length.
module _ {A : Type 0} where
  unfoldable pub chunks : ℕ → ℕ → List A → List (List A)
  chunks size zero payload = []
  chunks size (suc n) payload = take size payload ∷ chunks size n (drop size payload)

  abbrev pub chunk_count : ℕ → List A → ℕ
  chunk_count size payload = (length payload + size - 1) / size

-- `CHUNK_SIZE` is a parameter of what follows; this is its value.
abbrev pub chunk_size : ℕ
chunk_size = 4194304

module _ {W : Type 0} (s : Service W) (c : Aead) (z : Codec) (json : Json) where
  abbrev pub put_blob : List ℕ → Adapter W → Result BlobInfo × Adapter W
  put_blob bytes a = let r = http_put s a.epochs bytes a.world in (r.0, record a { world = r.1 })

  -- Compress, encrypt, and put.
  unfoldable pub upload : List ℕ → List ℕ → Adapter W → Result String × Adapter W
  upload nonce payload a =
      after (encrypt c nonce (z.compress payload) a.keys, a)
        (λ bytes b. after (put_blob bytes b) (λ info d. (ok info.blob_id, d)))

  unfoldable pub upload_all :
      (ℕ → List ℕ) → List (List ℕ) → Adapter W → Result (List String) × Adapter W
  unfolding upload
  upload_all nonces [] a = (ok [], a)
  upload_all nonces (x ∷ xs) a =
      after (upload (nonces (length xs)) x a)
        (λ id b. after (upload_all nonces xs b) (λ ids d. (ok (id ∷ ids), d)))

  abbrev pub save_manifest :
      String → List String → ℕ → String → String → Option Database → Option Database
  save_manifest id ids size mime_type now none = none
  save_manifest id ids size mime_type now (some d) =
      some (save_blob_manifest json id ids size mime_type now d)

  abbrev pub with_manifest : String → List String → ℕ → String → String → Adapter W → Adapter W
  with_manifest id ids size mime_type now a = record a {
    sqlite = save_manifest id ids size mime_type now a.sqlite;
  }

  -- The nonces are numbered from the last chunk; that of the manifest is the last.
  unfoldable pub chunked_upload :
      ℕ → (ℕ → List ℕ) → String → String → List ℕ → Adapter W → Result String × Adapter W
  unfolding upload_all upload chunks
  chunked_upload size nonces now mime_type payload a =
      let parts = chunks size (chunk_count size payload) payload in
      after (upload_all nonces parts a) (λ ids b.
        after (upload (nonces (length parts)) (z.dumps_manifest ids mime_type) b) (λ id d. (
          ok ("manifest:" <> id),
          with_manifest ("manifest:" <> id) ids (length payload) mime_type now d,
        )))

  abbrev pub with_metadata : String → String → ℕ → String → Adapter W → Adapter W
  with_metadata id mime_type size now a = record a {
    metadata =
        insert id
          (record {
            blob_id = id;
            mime_type = mime_type;
            size_bytes = size;
            created_at = now;
            epochs = a.epochs;
            key_id = a.keys.active_kid;
          })
          a.metadata;
  }

  unfoldable pub store_blob :
      ℕ → (ℕ → List ℕ) → String → String → List ℕ → Adapter W → Result String × Adapter W
  unfolding chunked_upload upload
  store_blob size nonces now mime_type payload a =
      after
        (if ltb size (length payload)
          then chunked_upload size nonces now mime_type payload a
          else upload (nonces 0) payload a)
        (λ id b. (ok id, with_metadata id mime_type (length payload) now b))

  -- Get, decrypt, and decompress; the key store may cache a key.
  unfoldable pub fetch : String → Adapter W → Result (List ℕ) × Adapter W
  fetch blob_id a =
      after (http_get s blob_id a.world >>= λ bytes. decrypt c bytes a.keys, a)
        (λ r b. (or_raise (z.decompress (r.0)) zstd_error, record b { keys = r.1 }))

  -- `b"".join([await self.retrieve_blob(cid) for cid in chunk_ids])`
  unfoldable pub gather :
      (String → Adapter W → Result (List ℕ) × Adapter W)
      → List String
      → Adapter W
      → Result (List ℕ) × Adapter W
  gather one [] a = (ok [], a)
  gather one (id ∷ ids) a =
      after (one id a) (λ part b. after (gather one ids b) (λ parts d. (ok (part ++ parts), d)))

  abbrev pub known_chunks : String → Option Database → Result (Option (List String))
  known_chunks id none = ok none
  known_chunks id (some d) = get_blob_manifest json id d

  -- The chunks of a manifest: from the table, or from the network, which the table then keeps.
  unfoldable pub chunks_of : String → String → String → Adapter W → Result (List String) × Adapter W
  unfolding fetch
  chunks_of now raw_id blob_id a =
      after (known_chunks blob_id a.sqlite, a)
        (λ known b. elim known [
          | some ids ↦ (ok ids, b)
          | none ↦ after (fetch raw_id b) (λ text d.
              after (or_raise (z.loads_manifest text) json_error, d)
                (λ m e. (ok (m.0), with_manifest blob_id (m.0) 0 (m.1) now e)))
        ])

  -- A chunk may be a manifest again. The fuel is the depth that Python's recursion has left.
  unfoldable pub retrieve_blob : ℕ → String → String → Adapter W → Result (List ℕ) × Adapter W
  unfolding strip_prefix fetch gather chunks_of
  retrieve_blob zero now blob_id a = (err runtime_error, a)
  retrieve_blob (suc n) now blob_id a = elim (strip_prefix "manifest:" blob_id) [
    | none ↦ fetch blob_id a
    | some raw_id ↦ after (chunks_of now raw_id blob_id a) (gather (retrieve_blob n now))
  ]

  unfoldable pub blob_exists : String → Adapter W → Bool
  unfolding strip_prefix
  blob_exists blob_id a = elim (strip_prefix "manifest:" blob_id) [
    | none ↦ s.head blob_id a.world
    | some raw_id ↦ s.head raw_id a.world
  ]

unfoldable pub delete_blob : {W : Type 0} → String → Adapter W → Adapter W
delete_blob blob_id a = record a { metadata = pop blob_id a.metadata }

unfoldable pub blob_metadata : {W : Type 0} → String → Adapter W → Result Metadata
blob_metadata blob_id a = or_raise (lookup blob_id a.metadata) key_error
