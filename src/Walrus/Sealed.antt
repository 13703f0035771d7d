-- ===== src/Walrus/Sealed.antt =====
-- What is encrypted is decrypted again, with the header of a key id or without.
use walrus_os.Base.{
  ℕ, ◌≤◌, String, ◌≡◌, refl, ap, true, false, none, some, List, [], ◌∷◌, ◌++◌, arith, length,
  length-append, ltb, take, drop, eq_refl, Option-cases, inl, inr, zero, suc,
}
use walrus_os.Base.Result.{ok}
use walrus_os.Keys.{KeyStore}
use walrus_os.Keys.Header.{
  same_bytes, magic, make_v1_blob, parse_v1_header, parse_v1_header-make_v1_blob, take_of_length,
  drop_of_length,
}
use walrus_os.Walrus.Crypt.{Aead, Keyring, encrypt, decrypt, is_v1, resolve_aead}

module _ (c : Aead) where
  -- A keyring with its active key and the nonces that it will draw: the cipher opens what it sealed
  -- under them and adds a tag; a key id is a UUID, or, without a key store, no nonce looks like the
  -- header of a key id.
  pub record Usable (k : Keyring) (nonces : ℕ → List ℕ) : Type 0 where
    pub key : String
    pub there : k.active ≡ some key
    pub opens : (i : ℕ) (x : List ℕ) → c.unseal key (nonces i) (c.seal key (nonces i) x) ≡ some x
    pub twelve : (i : ℕ) → length (nonces i) ≡ 12
    pub tagged : (i : ℕ) (x : List ℕ) → 1 ≤ length (c.seal key (nonces i) x)
    pub unlike : k.key_store ≡ none → (i : ℕ) → same_bytes (take 4 (nonces i)) magic ≡ false
    pub sixteen : (s : KeyStore) → k.key_store ≡ some s → length (c.uuid_bytes k.active_kid) ≡ 16
    pub back :
        (s : KeyStore)
        → k.key_store ≡ some s
        → c.uuid_text (c.uuid_bytes k.active_kid) ≡ k.active_kid

  not_short : (n : ℕ) → 13 ≤ n → ltb n 13 ≡ false
  not_short n h = ground (arith, h)

  take-front : (n : ℕ) (xs ys : List ℕ) → n ≤ length xs → take n (xs ++ ys) ≡ take n xs
  take-front zero xs ys h = refl
  take-front (suc n) [] ys h = absurd (omega (arith, h))
  take-front (suc n) (x ∷ xs) ys h = ap (λ r. x ∷ r) (take-front n xs ys (omega (arith, h)))

  pub make_v1_blob-long :
      (id : String) (nonce ct : List ℕ)
      → length (c.uuid_bytes id) ≡ 16
      → length nonce ≡ 12
      → 33 ≤ length (make_v1_blob c.uuid_bytes c.uuid_text id nonce ct)
  unfolding make_v1_blob
  make_v1_blob-long id nonce ct sixteen twelve = omega (
    arith,
    length-append (c.uuid_bytes id) (nonce ++ ct),
    length-append nonce ct,
    sixteen,
    twelve,
  )

  -- The parts of bytes that the header parser takes apart as those of a key id.
  parts :
      (bytes nonce ct : List ℕ) (id : String)
      → 33 ≤ length bytes
      → parse_v1_header c.uuid_bytes c.uuid_text bytes ≡ (some id, nonce, ct)
      → (is_v1 c bytes ≡ true)
        × (c.uuid_text (take 16 (drop 5 bytes)) ≡ id)
        × (take 12 (drop 21 bytes) ≡ nonce)
        × (drop 33 bytes ≡ ct)
  unfolding parse_v1_header is_v1
  parts bytes nonce ct id long p = ground (arith, p, long)

  pub decrypt-v1 :
      (k k' : Keyring) (bytes nonce ct x : List ℕ) (id key : String)
      → 33 ≤ length bytes
      → parse_v1_header c.uuid_bytes c.uuid_text bytes ≡ (some id, nonce, ct)
      → resolve_aead c id k ≡ ok (key, k')
      → c.unseal key nonce ct ≡ some x
      → decrypt c bytes k ≡ ok (x, k')
  unfolding decrypt
  decrypt-v1 k k' bytes nonce ct x id key long p found opened =
      let q = parts bytes nonce ct id long p in
      rw (not_short (length bytes) (omega (arith, long)), q.0, q.1, found, q.2, q.3, opened) refl

  decrypt-v0 :
      (k : Keyring) (nonce ct x : List ℕ) (key : String)
      → length nonce ≡ 12
      → 1 ≤ length ct
      → same_bytes (take 4 nonce) magic ≡ false
      → k.active ≡ some key
      → c.unseal key nonce ct ≡ some x
      → decrypt c (nonce ++ ct) k ≡ ok (x, k)
  unfolding decrypt is_v1
  decrypt-v0 k nonce ct x key twelve tagged unlike there opened =
      rw
        (
          not_short (length (nonce ++ ct)) (omega (arith, length-append nonce ct, twelve, tagged)),
          take-front 4 nonce ct (omega (arith, twelve)),
          unlike,
          there,
          take_of_length c.uuid_bytes c.uuid_text 12 nonce ct twelve,
          drop_of_length c.uuid_bytes c.uuid_text 12 nonce ct twelve,
          opened,
        )
        (ground arith)

  -- What a usable keyring encrypts, it decrypts, and stays as it is.
  pub decrypt-encrypt :
      (k : Keyring) (nonces : ℕ → List ℕ)
      → Usable k nonces
      → (i : ℕ) (x : List ℕ)
      → (bytes : List ℕ) × (encrypt c (nonces i) x k ≡ ok bytes) × (decrypt c bytes k ≡ ok (x, k))
  unfolding encrypt resolve_aead
  decrypt-encrypt k nonces u i x =
      let ct = c.seal u.key (nonces i) x in
      elim (Option-cases k.key_store) [
        | inl none_there ↦ (
          nonces i ++ ct,
          rw (u.there, none_there) refl,
          decrypt-v0 k (nonces i) ct x u.key (u.twelve i) (u.tagged i x) (u.unlike none_there i)
              u.there (u.opens i x),
        )
        | inr st ↦ (
          make_v1_blob c.uuid_bytes c.uuid_text k.active_kid (nonces i) ct,
          rw (u.there, st.1) refl,
          decrypt-v1 k k (make_v1_blob c.uuid_bytes c.uuid_text k.active_kid (nonces i) ct)
              (nonces i) ct x k.active_kid u.key
              (make_v1_blob-long k.active_kid (nonces i) ct (u.sixteen st.0 st.1) (u.twelve i))
              (parse_v1_header-make_v1_blob c.uuid_bytes c.uuid_text k.active_kid (nonces i) ct
                (u.sixteen st.0 st.1) (u.back st.0 st.1) (u.twelve i))
              (rw (u.there, eq_refl k.active_kid) refl) (u.opens i x),
        )
      ]
