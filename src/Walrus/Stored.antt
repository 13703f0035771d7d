-- ===== src/Walrus/Stored.antt =====
-- A blob that is stored on a reliable network is retrieved again, whatever its size.
use walrus_os.Base.{ℕ, String, ◌≡◌, refl, ap, ◌∙◌, none, some, List, [], ◌∷◌, ◌++◌, length}
use walrus_os.Base.Result.{Result, ok, or_raise, zstd_error, after, ◌>>=◌}
use walrus_os.Sqlite.Tables.{Json}
use walrus_os.Walrus.Network.{
  Service, found, BlobInfo, read_reply, http_put, http_get, try_put, try_get,
}
use walrus_os.Walrus.Crypt.{Aead, Keyring, encrypt, decrypt}
use walrus_os.Walrus.Sealed.{Usable, decrypt-encrypt}
use walrus_os.Walrus.Adapter.{
  Adapter, Codec, strip_prefix, put_blob, upload, upload_all, fetch, gather,
}
use walrus_os.Walrus.Chunks.{joined}

module _ {W : Type 0} (s : Service W) where
  -- A blob that any attempt to get it finds.
  abbrev pub Held : W → String → List ℕ → Type 0
  Held w id bytes = (i : ℕ) → s.get i id w ≡ found bytes

  abbrev pub Kept : W → W → Type 0
  Kept w w' = (id : String) (bytes : List ℕ) → Held w id bytes → Held w' id bytes

  -- The publisher takes every blob, under an id that is no manifest's, and the aggregator then has
  -- it; no blob is lost.
  pub record IsReliable : Type 0 where
    pub taken :
        (epochs : ℕ) (bytes : List ℕ) (w : W)
        → (info : BlobInfo) × (read_reply epochs bytes (s.put epochs bytes w).0 ≡ some info)
          × (strip_prefix "manifest:" info.blob_id ≡ none)
          × Held (s.put epochs bytes w).1 info.blob_id bytes
    pub kept : (epochs : ℕ) (bytes : List ℕ) (w : W) → Kept w (s.put epochs bytes w).1

  http_put-taken :
      (r : IsReliable) (epochs : ℕ) (bytes : List ℕ) (w : W)
      → http_put s epochs bytes w ≡ (ok (r.taken epochs bytes w).0, (s.put epochs bytes w).1)
  unfolding http_put
  http_put-taken r epochs bytes w = rw (http_put, try_put, (r.taken epochs bytes w).1) refl

  http_get-Held :
      (id : String) (bytes : List ℕ) (w : W) → Held w id bytes → http_get s id w ≡ ok bytes
  unfolding http_get
  http_get-Held id bytes w h = rw (http_get, try_get, h 0) refl

  module _ (c : Aead) (z : Codec) (json : Json) (k : Keyring) (nonces : ℕ → List ℕ) where
    -- A blob on the network that the keyring opens to a payload.
    pub record At (w : W) (id : String) (payload : List ℕ) : Type 0 where
      pub bytes : List ℕ
      pub there : Held w id bytes
      pub opened : decrypt c bytes k ≡ ok (z.compress payload, k)
      pub plain : strip_prefix "manifest:" id ≡ none

    At-Kept : (w w' : W) (id : String) (x : List ℕ) → Kept w w' → At w id x → At w' id x
    At-Kept w w' id x m p = record {
      bytes = p.bytes;
      there = m id p.bytes p.there;
      opened = p.opened;
      plain = p.plain;
    }

    module _ (r : IsReliable) (u : Usable c k nonces) where
      pub upload-At :
          (i : ℕ) (x : List ℕ) (a : Adapter W)
          → a.keys ≡ k
          → (id : String) × (w : W) × (upload s c z json (nonces i) x a
              ≡ (ok id, record a { world = w }))
            × Kept a.world w
            × At w id x
      unfolding upload
      upload-At i x a same =
          let e = decrypt-encrypt c k nonces u i (z.compress x) in
          let enc : encrypt c (nonces i) (z.compress x) a.keys ≡ ok (e.0) = rw same e.1 in
          let t = r.taken a.epochs e.0 a.world in
          (
            (t.0).blob_id,
            (s.put a.epochs e.0 a.world).1,
            ap
                  (λ v.
                    after (v, a)
                      (λ bytes b.
                        after (put_blob s c z json bytes b) (λ info d. (ok info.blob_id, d))))
                  enc
                ∙ ap (λ v. after (v.0, record a { world = v.1 }) (λ info d. (ok info.blob_id, d)))
                    (http_put-taken r a.epochs e.0 a.world),
            r.kept a.epochs e.0 a.world,
            record { bytes = e.0; there = t.3; opened = e.2; plain = t.2 },
          )

    pub fetch-At :
        ((x : List ℕ) → z.decompress (z.compress x) ≡ some x)
        → (id : String) (x : List ℕ) (a : Adapter W) → a.keys ≡ k
        → At a.world id x
        → fetch s c z json id a ≡ (ok x, a)
    unfolding fetch
    fetch-At back id x a same p =
        let got : http_get s id a.world >>= (λ bytes. decrypt c bytes a.keys)
            ≡ ok (z.compress x, a.keys) =
          rw (http_get-Held id p.bytes a.world p.there, same, p.opened) refl in
        ap
          (λ v.
            after (v, a)
              (λ q b. (or_raise (z.decompress (q.0)) zstd_error, record b { keys = q.1 })))
          got
        ∙ ap (λ v. (or_raise v zstd_error, a)) (back x)

    -- Each id has its payload, in order.
    abbrev pub Each : W → List String → List (List ℕ) → Type 0
    Each w [] [] = Unit
    Each w (id ∷ ids) (x ∷ xs) = At w id x × Each w ids xs
    Each w _ _ = ⊥

    pub Each-Kept :
        (w w' : W) (ids : List String) (xs : List (List ℕ))
        → Kept w w'
        → Each w ids xs
        → Each w' ids xs
    Each-Kept w w' [] [] m e = tt
    Each-Kept w w' (id ∷ ids) (x ∷ xs) m e = (At-Kept w w' id x m e.0, Each-Kept w w' ids xs m e.1)
    Each-Kept w w' [] (x ∷ xs) m e = e
    Each-Kept w w' (id ∷ ids) [] m e = e

    module _ (r : IsReliable) (u : Usable c k nonces) where
      pub upload_all-Each :
          (xs : List (List ℕ)) (a : Adapter W)
          → a.keys ≡ k
          → (ids : List String) × (w : W) × (upload_all s c z json nonces xs a
              ≡ (ok ids, record a { world = w }))
            × Kept a.world w
            × Each w ids xs
      unfolding upload_all
      upload_all-Each [] a same = ([], a.world, refl, (λ id b h. h), tt)
      upload_all-Each (x ∷ xs) a same =
          let p = upload-At r u (length xs) x a same in
          let q = upload_all-Each xs (record a { world = p.1 }) same in
          (
            p.0 ∷ q.0,
            q.1,
            ap
                  (λ v. after v (λ id b.
                    after (upload_all s c z json nonces xs b) (λ ids d. (ok (id ∷ ids), d))))
                  p.2
                ∙ ap (λ v. after v (λ ids d. (ok (p.0 ∷ ids), d))) q.2,
            (λ id b h. q.3 id b (p.3 id b h)),
            (At-Kept p.1 q.1 p.0 x q.3 p.4, q.4),
          )

    pub gather-Each :
        ((x : List ℕ) → z.decompress (z.compress x) ≡ some x)
        → (one : String → Adapter W → Result (List ℕ) × Adapter W) (ids : List String)
          (xs : List (List ℕ)) (a : Adapter W)
        → a.keys ≡ k
        → ((id : String) (x : List ℕ) → At a.world id x → one id a ≡ (ok x, a))
        → Each a.world ids xs
        → gather s c z json one ids a ≡ (ok (joined xs), a)
    unfolding gather
    gather-Each back one [] [] a same f e = refl
    gather-Each back one (id ∷ ids) (x ∷ xs) a same f e =
        ap
          (λ v.
            after v
              (λ part b. after (gather s c z json one ids b) (λ parts d. (ok (part ++ parts), d))))
          (f id x e.0)
        ∙ ap (λ v. after v (λ parts d. (ok (x ++ parts), d)))
            (gather-Each back one ids xs a same f e.1)
    gather-Each back one [] (x ∷ xs) a same f e = absurd e
    gather-Each back one (id ∷ ids) [] a same f e = absurd e
