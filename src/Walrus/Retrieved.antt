-- ===== src/Walrus/Retrieved.antt =====
-- `store_blob` and then `retrieve_blob`, with and without chunks.
use walrus_os.Base.{
  ℕ, suc, String, ◌<>◌, ◌≡◌, refl, ap, ◌∙◌, Option, none, some, List, arith, eq_refl, Option-cases,
  inl, inr, ◌⊎◌,
}
use text.Mathlib.TextLemmas.{nil-append, cons-append}
use walrus_os.Base.Dict.{lookup, lookup-insert}
use walrus_os.Base.Result.{ok, or_raise, after, json_error}
use walrus_os.Sqlite.Tables.{Database, Json, ManifestRow}
use walrus_os.Sqlite.Mappings.{get_blob_manifest, save_blob_manifest}
use walrus_os.Walrus.Network.{Service}
use walrus_os.Walrus.Crypt.{Aead, Keyring}
use walrus_os.Walrus.Adapter.{
  Adapter, Codec, strip_prefix, retrieve_blob, known_chunks, chunks_of, fetch, with_manifest,
  with_metadata, gather, save_manifest,
}
use walrus_os.Walrus.Chunks.{joined}
use walrus_os.Walrus.Stored.{At, Each, fetch-At, gather-Each}

-- What is compressed and what is written as JSON is read back.
pub record IsLossless (z : Codec) (json : Json) : Type 0 where
  pub unpacked : (x : List ℕ) → z.decompress (z.compress x) ≡ some x
  pub manifest_back :
      (ids : List String) (mime_type : String)
      → z.loads_manifest (z.dumps_manifest ids mime_type) ≡ some (ids, mime_type)
  pub ids_back : (ids : List String) → json.loads_list (json.dumps_list ids) ≡ some ids

strip_prefix-append : (p t : String) → strip_prefix p (p <> t) ≡ some t
unfolding strip_prefix
strip_prefix-append String.[] t = rw (nil-append t) refl
strip_prefix-append (String.◌∷◌ c p) t =
    rw (cons-append c p t, eq_refl (String.◌∷◌ c "")) (strip_prefix-append p t)

get_blob_manifest-save :
    (json : Json) (id : String) (ids : List String) (size : ℕ) (mime_type now : String)
    (d : Database)
    → json.loads_list (json.dumps_list ids) ≡ some ids
    → get_blob_manifest json id d ≡ ok none
    → get_blob_manifest json id (save_blob_manifest json id ids size mime_type now d)
      ≡ ok (some ids)
unfolding get_blob_manifest save_blob_manifest
get_blob_manifest-save json id ids size mime_type now d back none_there =
    let row : ManifestRow = record {
      manifest_blob_id = id;
      chunk_ids_json = json.dumps_list ids;
      original_size = size;
      mime_type = mime_type;
      created_at = now;
    } in
    elim (Option-cases (lookup id d.blob_manifests)) [
      | inl n ↦
          rw
            (
              get_blob_manifest,
              save_blob_manifest,
              n,
              lookup-insert id id row d.blob_manifests,
              eq_refl id,
              back,
            )
            refl
      | inr r ↦ elim (Option-cases (json.loads_list (r.0).chunk_ids_json)) [
        | inl bad ↦ ground (arith, r.1, bad, none_there)
        | inr good ↦ ground (arith, r.1, good.1, none_there)
      ]
    ]

module _ {W : Type 0} (s : Service W) (c : Aead) (z : Codec) (json : Json) (k : Keyring)
    (nonces : ℕ → List ℕ) (l : IsLossless z json) where
  pub retrieve-At :
      (n : ℕ) (now id : String) (x : List ℕ) (b : Adapter W)
      → b.keys ≡ k
      → At s c z json k nonces b.world id x
      → retrieve_blob s c z json (suc n) now id b ≡ (ok x, b)
  unfolding retrieve_blob
  retrieve-At n now id x b same p =
      ap
        (λ v. elim v [
          | none ↦ fetch s c z json id b
          | some raw ↦
              after (chunks_of s c z json now raw id b)
                (gather s c z json (retrieve_blob s c z json n now))
        ])
        p.plain
      ∙ fetch-At s c z json k nonces l.unpacked id x b same p

  -- The chunks of a manifest that the table does not list or lists right.
  chunks_of-fetched :
      (now raw id mime_type : String) (ids : List String) (b : Adapter W)
      → b.keys ≡ k
      → At s c z json k nonces b.world raw (z.dumps_manifest ids mime_type)
      → known_chunks s c z json id b.sqlite ≡ ok none
      → chunks_of s c z json now raw id b
        ≡ (ok ids, with_manifest s c z json id ids 0 mime_type now b)
  unfolding chunks_of
  chunks_of-fetched now raw id mime_type ids b same p unlisted =
      ap
        (λ v.
          after (v, b)
            (λ known d. elim known [
              | some ids' ↦ (ok ids', d)
              | none ↦ after (fetch s c z json raw d) (λ text e.
                  after (or_raise (z.loads_manifest text) json_error, e)
                    (λ m f. (ok (m.0), with_manifest s c z json id (m.0) 0 (m.1) now f)))
            ]))
        unlisted
      ∙ ap
          (λ v. after v (λ text e.
            after (or_raise (z.loads_manifest text) json_error, e)
              (λ m f. (ok (m.0), with_manifest s c z json id (m.0) 0 (m.1) now f))))
          (fetch-At s c z json k nonces l.unpacked raw (z.dumps_manifest ids mime_type) b same p)
      ∙ ap
          (λ v.
            after (or_raise v json_error, b)
              (λ m f. (ok (m.0), with_manifest s c z json id (m.0) 0 (m.1) now f)))
          (l.manifest_back ids mime_type)

  chunks_of-listed :
      (now raw id : String) (ids : List String) (b : Adapter W)
      → known_chunks s c z json id b.sqlite ≡ ok (some ids)
      → chunks_of s c z json now raw id b ≡ (ok ids, b)
  unfolding chunks_of
  chunks_of-listed now raw id ids b listed = rw (listed) refl

  retrieve-Each :
      (n : ℕ) (now raw : String) (ids : List String) (xs : List (List ℕ)) (b d : Adapter W)
      → chunks_of s c z json now raw ("manifest:" <> raw) b ≡ (ok ids, d)
      → d.keys ≡ k
      → Each s c z json k nonces d.world ids xs
      → retrieve_blob s c z json (suc (suc n)) now ("manifest:" <> raw) b ≡ (ok (joined xs), d)
  unfolding retrieve_blob
  retrieve-Each n now raw ids xs b d listed same e =
      ap
        (λ v. elim v [
          | none ↦ fetch s c z json ("manifest:" <> raw) b
          | some r ↦
              after (chunks_of s c z json now r ("manifest:" <> raw) b)
                (gather s c z json (retrieve_blob s c z json (suc n) now))
        ])
        (strip_prefix-append "manifest:" raw)
      ∙ ap (λ v. after v (gather s c z json (retrieve_blob s c z json (suc n) now))) listed
      ∙ gather-Each s c z json k nonces l.unpacked (retrieve_blob s c z json (suc n) now) ids xs d
          same (λ id x p. retrieve-At n now id x d same p) e

  known_after :
      (id : String) (ids : List String) (size : ℕ) (mime_type now : String) (db : Option Database)
      → known_chunks s c z json id db ≡ ok none
      → (known_chunks s c z json id (save_manifest s c z json id ids size mime_type now db)
          ≡ ok (some ids))
        ⊎ (known_chunks s c z json id (save_manifest s c z json id ids size mime_type now db)
            ≡ ok none)
  known_after id ids size mime_type now none h = inr refl
  known_after id ids size mime_type now (some d) h =
      inl (get_blob_manifest-save json id ids size mime_type now d (l.ids_back ids) h)

  abbrev pub put_down : String → String → ℕ → String → List String → Adapter W → Adapter W
  put_down now mime_type size id ids b =
      with_metadata s c z json id mime_type size now
        (with_manifest s c z json id ids size mime_type now b)

  -- A chunked blob is retrieved from the table, if the adapter has one, or from the network.
  pub retrieve-chunked :
      (n : ℕ) (now later raw mime_type : String) (size : ℕ) (ids : List String) (xs : List (List ℕ))
      (b : Adapter W)
      → b.keys ≡ k
      → known_chunks s c z json ("manifest:" <> raw) b.sqlite ≡ ok none
      → At s c z json k nonces b.world raw (z.dumps_manifest ids mime_type)
      → Each s c z json k nonces b.world ids xs
      → (retrieve_blob s c z json
          (suc (suc n))
          later
          ("manifest:" <> raw)
          (put_down now mime_type size ("manifest:" <> raw) ids b)).0
        ≡ ok (joined xs)
  retrieve-chunked n now later raw mime_type size ids xs b same unlisted p e =
      let id = "manifest:" <> raw in
      let b' = put_down now mime_type size id ids b in
      elim (known_after id ids size mime_type now b.sqlite unlisted) [
        | inl listed ↦
            ap (λ v. v.0)
              (retrieve-Each n later raw ids xs b' b' (chunks_of-listed later raw id ids b' listed)
                same e)
        | inr absent ↦
            ap (λ v. v.0)
              (retrieve-Each n later raw ids xs b'
                (with_manifest s c z json id ids 0 mime_type later b')
                (chunks_of-fetched later raw id mime_type ids b' same p absent) same e)
      ]
