-- ===== src/Adapters/Storage.antt =====
-- `InMemoryStorage`: a content-addressed store of blobs. Bytes are texts; SHA-256 and the clock are
-- parameters.
use walrus_os.Base.{
  Option, none, some, ◌==◌, Bool-cases, Option-cases, inl, inr, refl, ℕ, String, ◌≡◌, none, some,
  arith, eq_iff, [],
}
use walrus_os.Base.Dict.{Dict, lookup, insert, pop, lookup-insert, lookup-pop}
use walrus_os.Base.Result.{Result, ok, key_error, or_raise}
use Prim.Native.String.{len}

pub record BlobMeta : Type 0 where
  pub blob_id : String
  pub mime_type : String
  pub size_bytes : ℕ
  pub created_at : String

pub record Storage : Type 0 where
  pub blobs : Dict String
  pub info : Dict BlobMeta

abbrev pub empty : Storage
empty = record { blobs = []; info = [] }

unfoldable pub retrieve_blob : String → Storage → Result String
retrieve_blob blob_id s = or_raise (lookup blob_id s.blobs) key_error

unfoldable pub delete_blob : String → Storage → Storage
delete_blob blob_id s = record { blobs = pop blob_id s.blobs; info = pop blob_id s.info }

unfoldable pub blob_metadata : String → Storage → Result BlobMeta
blob_metadata blob_id s = or_raise (lookup blob_id s.info) key_error

module _ (sha256 : String → String) where
  unfoldable pub store_blob : String → String → String → Storage → String × Storage
  store_blob payload mime_type now s =
      let blob_id = sha256 payload in
      (
        blob_id,
        record {
          blobs = insert blob_id payload s.blobs;
          info =
              insert blob_id
                (record {
                  blob_id = blob_id;
                  mime_type = mime_type;
                  size_bytes = len payload;
                  created_at = now;
                })
                s.info;
        },
      )

  -- What is stored is read back.
  pub retrieve_blob-store_blob :
      (p mime now : String) (s : Storage)
      → let (blob_id, s') = store_blob p mime now s in retrieve_blob blob_id s' ≡ ok p
  unfolding store_blob retrieve_blob
  retrieve_blob-store_blob p mime now s =
      ground (arith, lookup-insert (sha256 p) (sha256 p) p s.blobs, eq_iff (sha256 p) (sha256 p))

  -- What a key of the two dicts holds: nothing, or a blob that hashes to the key with its record.
  abbrev pub Addressed : String → Option String → Option BlobMeta → Type 0
  Addressed k none none = Unit
  Addressed k none (some m) = ⊥
  Addressed k (some p) none = ⊥
  Addressed k (some p) (some m) = (sha256 p ≡ k) × (m.blob_id ≡ k) × (m.size_bytes ≡ len p)

  abbrev pub IsAddressed : Storage → Type 0
  IsAddressed s = (k : String) → Addressed k (lookup k s.blobs) (lookup k s.info)

  -- Storing a blob keeps every blob under its hash, with metadata of its size.
  store_blob-IsAddressed :
      (p mime now : String) (s : Storage) → IsAddressed s → IsAddressed (store_blob p mime now s).1
  unfolding store_blob
  store_blob-IsAddressed p mime now s h k = simp lookup-insert (elim (Bool-cases (sha256 p == k)) [
    | inl e ↦ rw e ((eq_iff _ _).0 e, (eq_iff _ _).0 e, refl)
    | inr e ↦ rw e (h k)
  ])

  pub delete_blob-IsAddressed :
      (b : String) (s : Storage) → IsAddressed s → IsAddressed (delete_blob b s)
  unfolding delete_blob
  delete_blob-IsAddressed b s h k =
      simp lookup-pop (elim (Bool-cases (b == k)) [ inl e ↦ rw e tt | inr e ↦ rw e (h k) ])

  Addressed-hash :
      (k q : String) (o : Option String) (m : Option BlobMeta)
      → Addressed k o m
      → o ≡ some q
      → sha256 q ≡ k
  Addressed-hash k q none m h e = cc
  Addressed-hash k q (some r) none h e = absurd h
  Addressed-hash k q (some r) (some m) h e = ground (arith, h.0)

  -- A blob that is there stays as it is when another is stored, unless the two collide.
  retrieve_blob-store_blob_keep :
      (p q mime now k : String) (s : Storage)
      → IsAddressed s
      → retrieve_blob k s ≡ ok q
      → (sha256 p ≡ sha256 q → p ≡ q)
      → retrieve_blob k (store_blob p mime now s).1 ≡ ok q
  unfolding store_blob retrieve_blob
  retrieve_blob-store_blob_keep p q mime now k s h e c = elim (Option-cases (lookup k s.blobs)) [
    | inl missing ↦ ground arith
    | inr (r, found) ↦ ground (
      arith,
      lookup-insert (sha256 p) k p s.blobs,
      eq_iff (sha256 p) k,
      Addressed-hash k r (lookup k s.blobs) (lookup k s.info) (h k) found,
      c,
    )
  ]
