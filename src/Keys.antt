-- ===== src/Keys.antt =====
-- The key store of walrusos/adapters/key_store.py: wrapped data keys with one that is active, and
-- the header of the blobs that they encrypt.
pub mod Header
pub mod Rotate
use walrus_os.Base.{
  ℕ, ◌+◌, String, ◌<>◌, Bool, true, false, Option, none, some, List, [], ◌∷◌, map, if◌then◌else◌,
}
use walrus_os.Base.Dict.{Dict, lookup, insert, values}
use walrus_os.Base.Result.{Result, ok, or_raise, runtime_error, key_error, value_error, ◌>>=◌}
use walrus_os.Sqlite.Tables.{add_row}
use walrus_os.Sqlite.Identities.{Cipher, unwrap}

pub record KeyRecord : Type 0 where
  pub key_id : String
  pub wrapped_key : String
  pub kek_salt : String
  pub kek_method : String
  pub generation : ℕ
  pub is_active : Bool
  pub created_at : String
  pub retired_at : Option String

-- The table and the cache of keys in the clear.
pub record KeyStore : Type 0 where
  pub keys : Dict KeyRecord
  pub cache : Dict String

-- What a new key draws from `os.urandom`, `uuid4` and the clock, and the data key itself.
pub record FreshKey : Type 0 where
  pub key_id : String
  pub dek : String
  pub salt : String
  pub nonce : String
  pub now : String

-- `select(KeyRecord).where(is_active == 1)` and `first()`
unfoldable pub first_active : Dict KeyRecord → Option KeyRecord
first_active [] = none
first_active ((k, r) ∷ d) = let rest = first_active d in if r.is_active then some r else rest

abbrev pub retired : String → KeyRecord → KeyRecord
retired now r = record r { is_active = false; retired_at = some now }

module _ (c : Cipher) (password : String) where
  unfoldable pub wrap_key : FreshKey → String
  wrap_key f = c.b64encode (f.nonce <> c.encrypt (c.derive password f.salt) f.nonce f.dek)

  unfoldable pub new_record : ℕ → FreshKey → KeyRecord
  unfolding wrap_key
  new_record generation f = record {
    key_id = f.key_id;
    wrapped_key = wrap_key f;
    kek_salt = c.b64encode f.salt;
    kek_method = "pbkdf2";
    generation = generation;
    is_active = true;
    created_at = f.now;
    retired_at = none;
  }

  unfoldable pub create_key_record : ℕ → FreshKey → KeyStore → Result KeyStore
  unfolding new_record add_row
  create_key_record generation f k = add_row f.key_id (new_record generation f) k.keys >>= λ rows.
      ok (record { keys = rows; cache = insert f.key_id f.dek k.cache })

  unfoldable pub ensure_active_key : FreshKey → KeyStore → Result KeyStore
  unfolding create_key_record
  ensure_active_key f k = elim (first_active k.keys) [
    | some r ↦ ok k
    | none ↦ create_key_record 1 f k
  ]

  unfoldable pub unwrap_key : String → String → Result String
  unwrap_key wrapped salt = or_raise (c.b64decode salt) value_error >>= λ s.
      or_raise (c.b64decode wrapped) value_error >>= λ w. unwrap c password s w

  unfoldable pub load_dek : KeyRecord → KeyStore → Result (String × String × KeyStore)
  unfolding unwrap_key
  load_dek r k = elim (lookup r.key_id k.cache) [
    | some dek ↦ ok (r.key_id, dek, k)
    | none ↦ unwrap_key r.wrapped_key r.kek_salt >>= λ dek.
        ok (r.key_id, dek, record k { cache = insert r.key_id dek k.cache })
  ]

  unfoldable pub active_key : KeyStore → Result (String × String × KeyStore)
  unfolding load_dek first_active
  active_key k = or_raise (first_active k.keys) runtime_error >>= λ r. load_dek r k

  unfoldable pub key_by_id : String → KeyStore → Result (String × String × KeyStore)
  unfolding load_dek
  key_by_id key_id k = elim (lookup key_id k.cache) [
    | some dek ↦ ok (key_id, dek, k)
    | none ↦ or_raise (lookup key_id k.keys) key_error >>= λ r. load_dek r k
  ]

  unfoldable pub rotate : FreshKey → KeyStore → Result (String × KeyStore)
  unfolding first_active create_key_record
  rotate f k = or_raise (first_active k.keys) runtime_error >>= λ r.
      create_key_record (r.generation + 1) f
        (record k { keys = insert r.key_id (retired f.now r) k.keys })
      >>= λ k'. ok (f.key_id, k')

-- An entry of `list_keys`.
pub record KeyInfo : Type 0 where
  pub key_id : String
  pub generation : ℕ
  pub is_active : Bool
  pub kek_method : String
  pub created_at : String
  pub retired_at : Option String

unfoldable pub list_keys : KeyStore → List KeyInfo
list_keys k =
    map
      (λ r. record {
        key_id = r.key_id;
        generation = r.generation;
        is_active = r.is_active;
        kek_method = r.kek_method;
        created_at = r.created_at;
        retired_at = r.retired_at;
      })
      (values k.keys)

-- A new process on the same table has an empty cache.
abbrev pub reopened : KeyStore → KeyStore
reopened k = record k { cache = [] }
