-- ===== src/Keys/Header.antt =====
-- `make_v1_blob` and `parse_v1_header`, over lists of bytes.
use walrus_os.Base.{
  ℕ, String, ◌≡◌, refl, ap, Bool, true, false, ◌&&◌, Option, none, some, List, [], ◌∷◌, ◌++◌, arith,
  length, length-append, take, drop, leb, eqb, if◌then◌else◌,
}
use mathlib.Core.List.{append_assoc}
use walrus_os.Replay.BlobId.{codes}

abbrev pub same_bytes : List ℕ → List ℕ → Bool
same_bytes [] [] = true
same_bytes (x ∷ xs) (y ∷ ys) = eqb x y && same_bytes xs ys
same_bytes _ _ = false

-- `b"WKEY"` and `b"\x01"`
abbrev pub magic : List ℕ
magic = codes "WKEY"

abbrev pub version : List ℕ
version = 1 ∷ []

long_enough : (xs : List ℕ) → leb 5 (length (magic ++ (version ++ xs))) ≡ true
long_enough xs = ground arith

-- `uuid.UUID(text).bytes` and `str(uuid.UUID(bytes=...))`
module _ (uuid_bytes : String → List ℕ) (uuid_text : List ℕ → String) where
  unfoldable pub make_v1_blob : String → List ℕ → List ℕ → List ℕ
  make_v1_blob key_id nonce ciphertext =
      magic ++ (version ++ (uuid_bytes key_id ++ (nonce ++ ciphertext)))

  unfoldable pub parse_v1_header : List ℕ → Option String × List ℕ × List ℕ
  parse_v1_header bytes =
      if leb 5 (length bytes)
        && same_bytes (take 4 bytes) magic
        && same_bytes (take 1 (drop 4 bytes)) version
      then (some (uuid_text (take 16 (drop 5 bytes))), take 12 (drop 21 bytes), drop 33 bytes)
      else (none, take 12 bytes, drop 12 bytes)

  take-front : (xs ys : List ℕ) → take (length xs) (xs ++ ys) ≡ xs
  take-front [] ys = refl
  take-front (x ∷ xs) ys = ap (λ r. x ∷ r) (take-front xs ys)

  drop-front : (xs ys : List ℕ) → drop (length xs) (xs ++ ys) ≡ ys
  drop-front [] ys = refl
  drop-front (x ∷ xs) ys = drop-front xs ys

  pub take_of_length : (n : ℕ) (xs ys : List ℕ) → length xs ≡ n → take n (xs ++ ys) ≡ xs
  take_of_length n xs ys h = rw⁻¹ h (take-front xs ys)

  pub drop_of_length : (n : ℕ) (xs ys : List ℕ) → length xs ≡ n → drop n (xs ++ ys) ≡ ys
  drop_of_length n xs ys h = rw⁻¹ h (drop-front xs ys)

  -- A blob that `make_v1_blob` makes for a key id of sixteen bytes, which read back as that id, and
  -- a nonce of twelve bytes is parsed into the same id, nonce and ciphertext.
  pub parse_v1_header-make_v1_blob :
      (key_id : String) (nonce ciphertext : List ℕ)
      → length (uuid_bytes key_id) ≡ 16
      → uuid_text (uuid_bytes key_id) ≡ key_id
      → length nonce ≡ 12
      → parse_v1_header (make_v1_blob key_id nonce ciphertext) ≡ (some key_id, nonce, ciphertext)
  unfolding make_v1_blob parse_v1_header
  parse_v1_header-make_v1_blob key_id nonce ciphertext sixteen back twelve =
      let kid = uuid_bytes key_id in
      let body =
        drop_of_length 28 (kid ++ nonce) ciphertext
          (omega (arith, length-append kid nonce, sixteen, twelve)) in
      rw
        (
          long_enough (kid ++ (nonce ++ ciphertext)),
          take_of_length 16 kid (nonce ++ ciphertext) sixteen,
          drop_of_length 16 kid (nonce ++ ciphertext) sixteen,
          take_of_length 12 nonce ciphertext twelve,
          back,
        )
        (ap (λ r. (some key_id, nonce, r)) ((rw (append_assoc kid nonce ciphertext) at body)))
