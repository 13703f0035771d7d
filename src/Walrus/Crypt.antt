-- ===== src/Walrus/Crypt.antt =====
-- `_encrypt` and `_decrypt` of `WalrusAdapter`, and its keys. A key is text, as in the key store.
use walrus_os.Base.{
  ℕ, String, Bool, ◌&&◌, Option, none, some, List, ◌++◌, ◌==◌, length, leb, ltb, take, drop,
  if◌then◌else◌,
}
use walrus_os.Base.Result.{
  Result, ok, err, or_raise, value_error, runtime_error, crypto_error, key_destroyed, ◌>>=◌,
}
use walrus_os.Sqlite.Identities.{Cipher}
use walrus_os.Keys.{KeyStore, FreshKey, active_key, key_by_id, rotate}
use walrus_os.Keys.Header.{same_bytes, magic, version, make_v1_blob}

-- AES-GCM over bytes, the bytes of a UUID, and the cipher and the password of the key store.
pub record Aead : Type 0 where
  pub seal : String → List ℕ → List ℕ → List ℕ
  pub unseal : String → List ℕ → List ℕ → Option (List ℕ)
  pub uuid_bytes : String → List ℕ
  pub uuid_text : List ℕ → String
  pub cipher : Cipher
  pub password : String

-- The active key is gone after `shred_key`. `use_v1_fmt` says whether there is a key store.
pub record Keyring : Type 0 where
  pub active_kid : String
  pub active : Option String
  pub key_store : Option KeyStore

module _ (c : Aead) where
  unfoldable pub encrypt : List ℕ → List ℕ → Keyring → Result (List ℕ)
  unfolding make_v1_blob
  encrypt nonce plaintext k = or_raise k.active key_destroyed >>= λ key.
      let ct = c.seal key nonce plaintext in
      ok (elim k.key_store [
        | none ↦ nonce ++ ct
        | some s ↦ make_v1_blob c.uuid_bytes c.uuid_text k.active_kid nonce ct
      ])

  -- The key of an id, and the keyring with what the key store has cached.
  unfoldable pub look_up : String → Keyring → Result (String × Keyring)
  unfolding key_by_id
  look_up key_id k = elim k.key_store [
    | none ↦ or_raise k.active key_destroyed >>= λ key. ok (key, k)
    | some s ↦ key_by_id c.cipher c.password key_id s >>= λ r.
        ok (r.1, record k { key_store = some (r.2) })
  ]

  unfoldable pub resolve_aead : String → Keyring → Result (String × Keyring)
  unfolding look_up
  resolve_aead key_id k = elim k.active [
    | none ↦ look_up key_id k
    | some key ↦ if key_id == k.active_kid then ok (key, k) else look_up key_id k
  ]

  unfoldable pub is_v1 : List ℕ → Bool
  is_v1 payload =
      leb 33 (length payload)
      && same_bytes (take 4 payload) magic
      && same_bytes (take 1 (drop 4 payload)) version

  unfoldable pub decrypt : List ℕ → Keyring → Result (List ℕ × Keyring)
  unfolding resolve_aead is_v1
  decrypt payload k =
      let v1 =
        (resolve_aead (c.uuid_text (take 16 (drop 5 payload))) k >>= λ r.
        or_raise (c.unseal (r.0) (take 12 (drop 21 payload)) (drop 33 payload)) crypto_error
        >>= λ x. ok (x, r.1)) in
      let v0 =
        (or_raise k.active key_destroyed >>= λ key.
        or_raise (c.unseal key (take 12 payload) (drop 12 payload)) crypto_error >>= λ x.
        ok (x, k)) in
      if ltb (length payload) 13 then err value_error else if is_v1 payload then v1 else v0

  -- The rotation of the key store, and the new key for the blobs to come.
  unfoldable pub rotate_key : FreshKey → Keyring → Result (String × Keyring)
  unfolding rotate active_key
  rotate_key f k = or_raise k.key_store runtime_error >>= λ s.
      rotate c.cipher c.password f s >>= λ r. active_key c.cipher c.password (r.1) >>= λ a.
      ok (r.0, record { active_kid = r.0; active = some (a.1); key_store = some (a.2) })

unfoldable pub shred_key : Keyring → Keyring
shred_key k = record k { active = none }

unfoldable pub export_key : Keyring → Result String
export_key k = or_raise k.active key_destroyed
