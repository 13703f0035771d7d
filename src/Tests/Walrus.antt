-- ===== src/Tests/Walrus.antt =====
-- The storage adapter of walrusos/adapters/walrus.py on concrete data, with a network that names a
-- blob by its bytes.
use walrus_os.Base.{
  ℕ, zero, suc, ◌+◌, String, ◌≡◌, refl, ap, ◌∙◌, true, Option, none, some, List, [], ◌∷◌, ◌==◌,
  arith, if◌then◌else◌,
}
use walrus_os.Base.Result.{ok, err, key_destroyed}
use walrus_os.Sqlite.Tables.{empty}
use walrus_os.Sqlite.Mappings.{get_blob_manifest}
use walrus_os.Base.Dict.{lookup}
use walrus_os.Replay.BlobId.{codes}
use walrus_os.Keys.{KeyStore, key_by_id}
use walrus_os.Walrus.Network.{Service, newly_created, found, read_reply}
use walrus_os.Walrus.Crypt.{Aead, Keyring, encrypt, decrypt, shred_key, export_key}
use walrus_os.Walrus.Sealed.{Usable}
use walrus_os.Walrus.Adapter.{Adapter, Codec, strip_prefix, store_blob, retrieve_blob}
use walrus_os.Walrus.Stored.{IsReliable}
use walrus_os.Walrus.Retrieved.{IsLossless}
use walrus_os.Walrus.Roundtrip.{retrieve_blob-store_blob}
use walrus_os.Walrus.Shredded.{decrypt-shred_key}
use walrus_os.Tests.Json.{json, back, write_list, read_list, read_codes, read_codes-codes}

abbrev unary : ℕ → String → String
unary zero t = String.◌∷◌ "b" t
unary (suc n) t = String.◌∷◌ "a" (unary n t)

abbrev name : List ℕ → String
name [] = ""
name (n ∷ ns) = unary n (name ns)

unfoldable bytes_of : ℕ → String → List ℕ
bytes_of n String.[] = []
bytes_of n (String.◌∷◌ c t) =
    let more = bytes_of (n + 1) t in
    let next = bytes_of 0 t in if String.◌∷◌ c "" == "b" then n ∷ next else more

bytes_of-unary : (n m : ℕ) (t : String) → bytes_of m (unary n t) ≡ (m + n) ∷ bytes_of 0 t
unfolding bytes_of
bytes_of-unary zero m t = let same : m ≡ m + 0 = omega arith in ap (λ k. k ∷ bytes_of 0 t) same
bytes_of-unary (suc n) m t =
    let same : m + 1 + n ≡ m + suc n = omega arith in
    bytes_of-unary n (m + 1) t ∙ ap (λ k. k ∷ bytes_of 0 t) same

bytes_of-name : (ns : List ℕ) → bytes_of 0 (name ns) ≡ ns
unfolding bytes_of
bytes_of-name [] = refl
bytes_of-name (n ∷ ns) =
    let same : 0 + n ≡ n = omega arith in
    bytes_of-unary n 0 (name ns)
    ∙ ap (λ k. k ∷ bytes_of 0 (name ns)) same
    ∙ ap (λ r. n ∷ r) (bytes_of-name ns)

no_manifest : (ns : List ℕ) → strip_prefix "manifest:" (name ns) ≡ none
unfolding strip_prefix
no_manifest [] = refl
no_manifest (zero ∷ ns) = refl
no_manifest (suc n ∷ ns) = refl

abbrev network : Service Unit
network = record {
  put = λ epochs bytes w. (newly_created (name bytes) none none, w);
  get = λ i id w. found (bytes_of 0 id);
  head = λ id w. true;
}

network-IsReliable : IsReliable network
unfolding read_reply
network-IsReliable = record {
  taken = λ epochs bytes w. (_, refl, no_manifest bytes, λ i. ap found (bytes_of-name bytes));
  kept = λ epochs bytes w id b h. h;
}

abbrev read_manifest : Option (List String) → Option (List String × String)
read_manifest none = none
read_manifest (some []) = none
read_manifest (some (m ∷ ids)) = some (ids, m)

abbrev read_texts : Option String → Option (List String)
read_texts none = none
read_texts (some t) = read_list t

abbrev codec : Codec
codec = record {
  compress = λ x. x;
  decompress = λ x. some x;
  dumps_manifest = λ ids m. codes (write_list (m ∷ ids));
  loads_manifest = λ b. read_manifest (read_texts (read_codes b));
}

codec-IsLossless : IsLossless codec json
codec-IsLossless = record {
  unpacked = λ x. refl;
  manifest_back = λ ids m.
      ap (λ v. read_manifest (read_texts v)) (read_codes-codes (write_list (m ∷ ids)))
      ∙ ap read_manifest (back (m ∷ ids));
  ids_back = back;
}

abbrev opened : List ℕ → Option (List ℕ)
opened [] = none
opened (n ∷ x) = some x

abbrev sixteen : List ℕ
sixteen = 1 ∷ 2 ∷ 3 ∷ 4 ∷ 5 ∷ 6 ∷ 7 ∷ 8 ∷ 9 ∷ 10 ∷ 11 ∷ 12 ∷ 13 ∷ 14 ∷ 15 ∷ 16 ∷ []

abbrev nonce : ℕ → List ℕ
nonce i = 1 ∷ 2 ∷ 3 ∷ 4 ∷ 5 ∷ 6 ∷ 7 ∷ 8 ∷ 9 ∷ 10 ∷ 11 ∷ 12 ∷ []

abbrev aead : Aead
aead = record {
  seal = λ key n x. 0 ∷ x;
  unseal = λ key n x. opened x;
  uuid_bytes = λ id. sixteen;
  uuid_text = λ b. "k1";
  cipher = record {
    derive = λ p salt. p;
    encrypt = λ key n t. t;
    decrypt = λ key n t. some t;
    b64encode = λ t. t;
    b64decode = λ t. some t;
    split = λ t. ("n", t);
  };
  password = "pw";
}

abbrev key_store : KeyStore
key_store = record { keys = []; cache = ("k1", "dek") ∷ [] }

abbrev keyring : Keyring
keyring = record { active_kid = "k1"; active = some "dek"; key_store = some key_store }

abbrev usable : Usable aead keyring nonce
usable = record {
  key = "dek";
  there = refl;
  opens = λ i x. refl;
  twelve = λ i. refl;
  tagged = λ i x. omega arith;
  unlike = λ h i. refl;
  sixteen = λ s h. refl;
  back = λ s h. refl;
}

abbrev adapter : Adapter Unit
adapter = record { keys = keyring; sqlite = some empty; metadata = []; epochs = 5; world = tt }

abbrev payload : List ℕ
payload = 104 ∷ 101 ∷ 108 ∷ 108 ∷ 111 ∷ []

-- Three chunks of two bytes or less.
retrieve_blob-store_blob_example :
    (id : String) × (d : Adapter Unit) × (store_blob network aead codec json 2 nonce "2026"
        "text/plain" payload adapter
      ≡ (ok id, d))
    × ((n : ℕ) (later : String)
        → (retrieve_blob network aead codec json (suc (suc n)) later id d).0 ≡ ok payload)
unfolding get_blob_manifest lookup
retrieve_blob-store_blob_example =
    retrieve_blob-store_blob network aead codec json 2 nonce "2026" "text/plain" payload adapter
      codec-IsLossless network-IsReliable usable (omega arith) refl

decrypt-shred_key_example :
    (bytes : List ℕ) × (k : Keyring) × (encrypt aead (nonce 0) payload keyring ≡ ok bytes)
    × (decrypt aead bytes (shred_key keyring) ≡ ok (payload, k))
    × (encrypt aead (nonce 0) payload (shred_key keyring) ≡ err key_destroyed)
    × (export_key (shred_key keyring) ≡ err key_destroyed)
unfolding key_by_id lookup
decrypt-shred_key_example =
    decrypt-shred_key aead keyring nonce usable key_store key_store 0 payload refl refl
