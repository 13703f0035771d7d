-- ===== src/Tests/Keys.antt =====
-- The key store of walrusos/adapters/key_store.py on concrete data.
use walrus_os.Base.{String, ◌≡◌, refl, some, [], ◌∷◌}
use walrus_os.Base.Dict.{lookup}
use walrus_os.Base.Result.{ok}
use walrus_os.Sqlite.Identities.{Cipher}
use walrus_os.Keys.{KeyStore, FreshKey, rotate, new_record}
use walrus_os.Keys.Rotate.{IsSound, Rotated, rotate-Rotated}

abbrev plain : Cipher
plain = record {
  derive = λ password salt. password;
  encrypt = λ key nonce t. t;
  decrypt = λ key nonce t. some t;
  b64encode = λ t. t;
  b64decode = λ t. some t;
  split = λ t. ("n", t);
}

abbrev fresh : String → FreshKey
fresh id = record { key_id = id; dek = "dek"; salt = "s"; nonce = "n"; now = "2026" }

abbrev store : KeyStore
store = record {
  keys = ("k1", new_record plain "pw" 1 (fresh "k1")) ∷ [];
  cache = ("k1", "dek") ∷ [];
}

store-IsSound : IsSound store.keys
unfolding lookup new_record
store-IsSound = record { one = refl; once = (refl, tt); keyed = (refl, tt) }

rotate-Rotated_example :
    (k : KeyStore) × (rotate plain "pw" (fresh "k2") store ≡ ok ("k2", k))
    × Rotated plain "pw" (fresh "k2") store k
unfolding lookup
rotate-Rotated_example = rotate-Rotated plain "pw" (fresh "k2") store store-IsSound refl
