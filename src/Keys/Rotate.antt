-- ===== src/Keys/Rotate.antt =====
-- Keys after a rotation: the new one is active, and the others can still be read.
use walrus_os.Base.{
  ℕ, ◌+◌, String, ◌≡◌, ◌≢◌, refl, ap, ◌∙◌, true, Option, none, some, [], ◌∷◌, ◌==◌, arith, eq_iff,
  eq_refl, Bool-cases, Option-cases, inl, inr, if◌then◌else◌, All,
}
use walrus_os.Base.Dict.{Dict, lookup, insert, lookup-insert}
use walrus_os.Base.Dict.Unique.{Unique, insert-Unique, sum, sum-insert, part}
use walrus_os.Base.Result.{Result, ok, Result-cases, key_error, or_raise, ◌>>=◌}
use walrus_os.Sqlite.Tables.{add_row_new}
use walrus_os.Sqlite.Identities.{Cipher}
use walrus_os.Keys.{
  KeyRecord, KeyStore, FreshKey, first_active, new_record, create_key_record, rotate, retired,
  key_by_id, active_key, load_dek, unwrap_key, reopened,
}

abbrev active : KeyRecord → ℕ
active r = if r.is_active then 1 else 0

abbrev pub active_count : Dict KeyRecord → ℕ
active_count d = sum active d

counts_one : (r : KeyRecord) → r.is_active ≡ true → active r ≡ 1
counts_one r h = ground arith

-- One key is active, no id is there twice, and every row is under its id.
pub record IsSound (d : Dict KeyRecord) : Type 0 where
  pub one : active_count d ≡ 1
  pub once : Unique d
  pub keyed : All (λ e. e.1.key_id ≡ e.0) d

-- The active row that is found first stands in the table.
first_active-lookup :
    (d : Dict KeyRecord)
    → Unique d
    → All (λ e. e.1.key_id ≡ e.0) d
    → active_count d ≢ 0
    → (r : KeyRecord) × (first_active d ≡ some r)
      × (lookup r.key_id d ≡ some r)
      × (r.is_active ≡ true)
unfolding first_active lookup
first_active-lookup [] u k ne = absurd (ne refl)
first_active-lookup ((j, r) ∷ d) u k ne = elim (Bool-cases r.is_active) [
  | inl p ↦ (r, rw p refl, rw (k.0, eq_refl j) refl, p)
  | inr p ↦
      let rest = first_active-lookup d u.1 k.1 (ground arith) in
      (rest.0, rw p rest.1, ground (arith, rest.2, u.0, eq_iff j rest.0.key_id), rest.3)
]

first_active-none : (d : Dict KeyRecord) → active_count d ≡ 0 → first_active d ≡ none
unfolding first_active
first_active-none [] h = refl
first_active-none ((j, r) ∷ d) h = ground (arith, first_active-none d)

first_active-insert :
    (k : String) (v : KeyRecord) (d : Dict KeyRecord)
    → lookup k d ≡ none
    → first_active d ≡ none
    → v.is_active ≡ true
    → first_active (insert k v d) ≡ some v
unfolding first_active insert lookup
first_active-insert k v [] n h p = ground arith
first_active-insert k v ((j, r) ∷ d) n h p = ground (arith, first_active-insert k v d)

keyed-insert :
    (k : String) (v : KeyRecord) (d : Dict KeyRecord)
    → v.key_id ≡ k
    → All (λ e. e.1.key_id ≡ e.0) d
    → All (λ e. e.1.key_id ≡ e.0) (insert k v d)
unfolding insert
keyed-insert k v [] p h = (p, tt)
keyed-insert k v ((j, r) ∷ d) p h = ground (arith, keyed-insert k v d p h.1, h, eq_iff j k)

module _ (c : Cipher) (password : String) (f : FreshKey) (k : KeyStore) where
  abbrev rotated : KeyRecord → KeyStore
  rotated r = record {
    keys =
        insert f.key_id (new_record c password (r.generation + 1) f)
          (insert r.key_id (retired f.now r) k.keys);
    cache = insert f.key_id f.dek k.cache;
  }

  rotate-rotated :
      (r : KeyRecord)
      → first_active k.keys ≡ some r
      → lookup f.key_id (insert r.key_id (retired f.now r) k.keys) ≡ none
      → rotate c password f k ≡ ok (f.key_id, rotated r)
  unfolding rotate create_key_record
  rotate-rotated r p n =
      rw
        (
          p,
          add_row_new f.key_id (new_record c password (r.generation + 1) f)
              (insert r.key_id (retired f.now r) k.keys) n,
        )
        refl

  rotated-IsSound :
      (r : KeyRecord)
      → IsSound k.keys
      → lookup r.key_id k.keys ≡ some r
      → r.is_active ≡ true
      → lookup f.key_id (insert r.key_id (retired f.now r) k.keys) ≡ none
      → IsSound (rotated r).keys
  unfolding new_record
  rotated-IsSound r s there live fresh = record {
    one = omega (
      arith,
      sum-insert active r.key_id (retired f.now r) k.keys,
      sum-insert active f.key_id (new_record c password (r.generation + 1) f)
          (insert r.key_id (retired f.now r) k.keys),
      ap (part active) there,
      ap (part active) fresh,
      counts_one r live,
      s.one,
    );
    once = insert-Unique _ _ _ (insert-Unique _ _ _ s.once);
    keyed = keyed-insert _ _ _ refl (keyed-insert _ _ _ refl s.keyed);
  }

  lookup-rotated :
      (r : KeyRecord) (id : String)
      → lookup id (rotated r).keys ≡ (
          if f.key_id == id
          then some (new_record c password (r.generation + 1) f)
          else if r.key_id == id
          then some (retired f.now r)
          else lookup id k.keys)
  lookup-rotated r id =
      rw
        (
          lookup-insert f.key_id id (new_record c password (r.generation + 1) f)
              (insert r.key_id (retired f.now r) k.keys),
          lookup-insert r.key_id id (retired f.now r) k.keys,
        )
        refl

  -- What a new process makes of a row.
  abbrev reading : Option KeyRecord → Result (String × String)
  reading o = or_raise o key_error >>= λ r.
      unwrap_key c password r.wrapped_key r.kek_salt >>= λ dek. ok (r.key_id, dek)

  read_again :
      (r : KeyRecord) (id dek : String)
      → lookup r.key_id k.keys ≡ some r
      → lookup f.key_id k.keys ≡ none
      → reading (lookup id k.keys) ≡ ok (id, dek)
      → reading (lookup id (rotated r).keys) ≡ ok (id, dek)
  read_again r id dek there fresh old = elim (Bool-cases (f.key_id == id)) [
    | inl new ↦ absurd (ground (arith, eq_iff f.key_id id, fresh, old))
    | inr other ↦ elim (Bool-cases (r.key_id == id)) [
      | inl same ↦ ground (arith, lookup-rotated r id, eq_iff r.key_id id, there, old)
      | inr apart ↦ ground (arith, lookup-rotated r id, old)
    ]
  ]

  key_by_id-reopened :
      (id : String) (s : KeyStore)
      → key_by_id c password id (reopened s) ≡ (
          reading (lookup id s.keys) >>= λ r. ok (r.0, r.1, record s { cache = insert r.0 r.1 [] }))
  unfolding key_by_id load_dek lookup
  key_by_id-reopened id s = ground (arith, Option-cases (lookup id s.keys))

  reading-key_by_id :
      (id dek : String) (s t : KeyStore)
      → key_by_id c password id (reopened s) ≡ ok (id, dek, t)
      → reading (lookup id s.keys) ≡ ok (id, dek)
  reading-key_by_id id dek s t h = elim (Result-cases (reading (lookup id s.keys))) [
    | inl (r, p) ↦ ground (arith, key_by_id-reopened id s, h, p)
    | inr (x, p) ↦ ground (arith, key_by_id-reopened id s, h, p)
  ]

  fresh_again :
      (r : KeyRecord)
      → lookup r.key_id k.keys ≡ some r
      → lookup f.key_id k.keys ≡ none
      → lookup f.key_id (insert r.key_id (retired f.now r) k.keys) ≡ none
  fresh_again r there fresh = ground (
    arith,
    lookup-insert r.key_id f.key_id (retired f.now r) k.keys,
    eq_iff r.key_id f.key_id,
    there,
    fresh,
  )

  load_dek-cached :
      (r : KeyRecord) (dek : String) (s : KeyStore)
      → lookup r.key_id s.cache ≡ some dek
      → load_dek c password r s ≡ ok (r.key_id, dek, s)
  unfolding load_dek
  load_dek-cached r dek s h = ground arith

  newest_key :
      (r : KeyRecord)
      → IsSound k.keys
      → lookup r.key_id k.keys ≡ some r
      → r.is_active ≡ true
      → lookup f.key_id (insert r.key_id (retired f.now r) k.keys) ≡ none
      → active_key c password (rotated r) ≡ ok (f.key_id, f.dek, rotated r)
  unfolding active_key new_record
  newest_key r s there live fresh =
      let retiring = first_active-none (insert r.key_id (retired f.now r) k.keys) (
        omega (
          arith,
          sum-insert active r.key_id (retired f.now r) k.keys,
          ap (part active) there,
          counts_one r live,
          s.one,
        )) in
      let new = new_record c password (r.generation + 1) f in
      rw
        (first_active-insert f.key_id new (insert r.key_id (retired f.now r) k.keys) fresh retiring
          refl)
        (load_dek-cached new f.dek (rotated r)
          (rw (lookup-insert f.key_id f.key_id f.dek k.cache, eq_refl f.key_id) refl))

  -- What a rotation leaves behind.
  pub record Rotated (k' : KeyStore) : Type 0 where
    pub sound : IsSound k'.keys
    pub newest : active_key c password k' ≡ ok (f.key_id, f.dek, k')
    pub old :
        (id dek : String) (t : KeyStore)
        → key_by_id c password id (reopened k) ≡ ok (id, dek, t)
        → (t' : KeyStore) × (key_by_id c password id (reopened k') ≡ ok (id, dek, t'))

  -- If exactly one key is active, no id is there twice and every row is under its id, a rotation
  -- under a new id succeeds and keeps this so. The new key is then the active one, and every key that
  -- a new process could read before can be read by a new process still, and is the same.
  pub rotate-Rotated :
      IsSound k.keys
      → lookup f.key_id k.keys ≡ none
      → (k' : KeyStore) × (rotate c password f k ≡ ok (f.key_id, k')) × Rotated k'
  rotate-Rotated s fresh =
      let r = first_active-lookup k.keys s.once s.keyed (omega (arith, s.one)) in
      let new = fresh_again r.0 r.2 fresh in
      (
        rotated r.0,
        rotate-rotated r.0 r.1 new,
        record {
          sound = rotated-IsSound r.0 s r.2 r.3 new;
          newest = newest_key r.0 s r.2 r.3 new;
          old = λ id dek t h.
              let again = read_again r.0 id dek r.2 fresh (reading-key_by_id id dek k t h) in
              (
                record { keys = (rotated r.0).keys; cache = insert id dek [] },
                key_by_id-reopened id (rotated r.0)
                    ∙ ap
                        (λ x. x >>= λ y.
                          ok (y.0, y.1, record (rotated r.0) { cache = insert (y.0) (y.1) [] }))
                        again,
              );
        },
      )
