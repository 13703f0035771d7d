-- ===== src/Walrus/Shredded.antt =====
-- What `shred_key` destroys: the key in memory, and not the one in the key store.
use walrus_os.Base.{ℕ, ◌≡◌, refl, some, List}
use walrus_os.Base.Result.{ok, err, key_destroyed}
use walrus_os.Keys.{KeyStore, key_by_id}
use walrus_os.Keys.Header.{make_v1_blob, parse_v1_header-make_v1_blob}
use walrus_os.Walrus.Crypt.{Aead, Keyring, encrypt, decrypt, resolve_aead, shred_key, export_key}
use walrus_os.Walrus.Sealed.{Usable, make_v1_blob-long, decrypt-v1}

-- If the key store can give the active key, a blob that was encrypted with it is decrypted after the
-- key was shredded too; nothing is encrypted any more, and the key is not exported.
pub decrypt-shred_key :
    (c : Aead) (k : Keyring) (nonces : ℕ → List ℕ) (u : Usable c k nonces) (s s' : KeyStore) (i : ℕ)
    (x : List ℕ)
    → k.key_store ≡ some s
    → key_by_id c.cipher c.password k.active_kid s ≡ ok (k.active_kid, u.key, s')
    → (bytes : List ℕ) × (k' : Keyring) × (encrypt c (nonces i) x k ≡ ok bytes)
      × (decrypt c bytes (shred_key k) ≡ ok (x, k'))
      × (encrypt c (nonces i) x (shred_key k) ≡ err key_destroyed)
      × (export_key (shred_key k) ≡ err key_destroyed)
unfolding encrypt shred_key export_key resolve_aead
decrypt-shred_key c k nonces u s s' i x there known =
    let bytes =
      make_v1_blob c.uuid_bytes c.uuid_text k.active_kid (nonces i) (c.seal u.key (nonces i) x) in
    let k' = record (shred_key k) { key_store = some s' } in
    let found : resolve_aead c k.active_kid (shred_key k) ≡ ok (u.key, k') =
      rw (resolve_aead, there, known) refl in
    (
      bytes,
      k',
      rw (u.there, there) refl,
      decrypt-v1 c (shred_key k) k' bytes (nonces i) (c.seal u.key (nonces i) x) x k.active_kid
          u.key
          (make_v1_blob-long c k.active_kid (nonces i) (c.seal u.key (nonces i) x)
            (u.sixteen s there) (u.twelve i))
          (parse_v1_header-make_v1_blob c.uuid_bytes c.uuid_text k.active_kid (nonces i)
            (c.seal u.key (nonces i) x) (u.sixteen s there) (u.back s there) (u.twelve i))
          found (u.opens i x),
      refl,
      refl,
    )
