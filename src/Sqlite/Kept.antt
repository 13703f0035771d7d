-- ===== src/Sqlite/Kept.antt =====
-- What the tables of identities, keys and tasks in the SQLite ledger keep.
use walrus_os.Base.{
  Bool, ap, ◌∙◌, Bool-cases, keep_if, [], ◌∷◌, inl, inr, ℕ, ◌+◌, String, ◌≡◌, refl, none, some,
  List, ◌==◌, arith, eq_refl, all_of, is_some, true,
}
use walrus_os.Base.Dict.{Dict, values, lookup, insert, lookup-insert}
use walrus_os.Base.Result.{Result, ok, err, value_error, ◌>>=◌, Error, all_ok, Result-cases}
use walrus_os.Model.Value.{Value, as_text}
use walrus_os.Model.Identity.{AgentIdentity, AgentStatus, active, new_reputation}
use walrus_os.Sqlite.Tables.{Database, IdentityRow, Json}
use walrus_os.Sqlite.Identities
use walrus_os.Sqlite.Identities.{
  identity_row, create_agent_identity, record_to_identity, get_agent_identity, update_agent_status,
  increment_agent_counters, update_row, status_of, list_agent_identities, of_workspace,
}

status_of-status_name : (s : AgentStatus) → status_of (Identities.status_name s) ≡ some s
unfolding status_of
status_of-status_name active = refl
status_of-status_name _ = refl

found_row :
    (json : Json) (later k : String) (r : IdentityRow) (d : Database)
    → get_agent_identity json later k (update_row k r d)
      ≡ (record_to_identity json later r >>= λ a. ok (some a))
unfolding get_agent_identity
found_row json later k r d = rw (lookup-insert k k r d.agent_identities, eq_refl k) refl

unknown_row :
    (json : Json) (later : String) (r : IdentityRow) (capabilities : List Value) (metadata : Value)
    → json.loads_values r.capabilities_json ≡ some capabilities
    → json.loads_value r.metadata_json ≡ some metadata
    → status_of r.status ≡ none
    → record_to_identity json later r ≡ err value_error
unfolding record_to_identity
unknown_row json later r capabilities metadata c m u = rw (c, m, u) refl

module _ (json : Json) (a : AgentIdentity)
    (values_back : json.loads_values (json.dumps_values a.capabilities) ≡ some a.capabilities)
    (value_back : json.loads_value (json.dumps_value a.metadata) ≡ some a.metadata) where
  row_back :
      (now later : String) (execution memory artifact : ℕ)
      → all_of (λ c. is_some (as_text c)) a.capabilities ≡ true
      → record_to_identity json later (record (identity_row json now a) {
        execution_counter = a.execution_counter + execution;
        memory_counter = a.memory_counter + memory;
        artifact_counter = a.artifact_counter + artifact;
        updated_at = later;
      })
        ≡ ok (record a {
          created_at = later;
          reputation = new_reputation;
          execution_counter = a.execution_counter + execution;
          memory_counter = a.memory_counter + memory;
          artifact_counter = a.artifact_counter + artifact;
        })
  unfolding record_to_identity identity_row
  row_back now later execution memory artifact texts =
      rw (values_back, value_back, status_of-status_name a.status, texts) refl

  row_back_new :
      (now later : String)
      → all_of (λ c. is_some (as_text c)) a.capabilities ≡ true
      → record_to_identity json later (identity_row json now a)
        ≡ ok (record a { created_at = later; reputation = new_reputation })
  unfolding record_to_identity identity_row
  row_back_new now later texts =
      rw (values_back, value_back, status_of-status_name a.status, texts) refl

  created :
      (now : String) (d : Database)
      → lookup a.agent_id d.agent_identities ≡ none
      → create_agent_identity json now a d ≡ update_row a.agent_id (identity_row json now a) d
  unfolding create_agent_identity
  created now d n = ground arith

  again :
      (now : String) (b : AgentIdentity) (r : IdentityRow) (d : Database)
      → lookup b.agent_id d.agent_identities ≡ some r
      → create_agent_identity json now b d ≡ d
  unfolding create_agent_identity
  again now b r d h = ground arith

  counted :
      (now : String) (k : String) (execution memory artifact : ℕ) (r : IdentityRow) (d : Database)
      → increment_agent_counters k execution memory artifact now (update_row k r d)
        ≡ update_row k
            (record r {
              execution_counter = r.execution_counter + execution;
              memory_counter = r.memory_counter + memory;
              artifact_counter = r.artifact_counter + artifact;
              updated_at = now;
            })
            (update_row k r d)
  unfolding increment_agent_counters
  counted now k execution memory artifact r d =
      ground (arith, lookup-insert k k r d.agent_identities, eq_refl k)

  found_counted :
      (now later : String) (execution memory artifact : ℕ)
      → all_of (λ c. is_some (as_text c)) a.capabilities ≡ true
      → (d : Database)
      → get_agent_identity json later a.agent_id (
          update_row a.agent_id
            (record (identity_row json now a) {
              execution_counter = (identity_row json now a).execution_counter + execution;
              memory_counter = (identity_row json now a).memory_counter + memory;
              artifact_counter = (identity_row json now a).artifact_counter + artifact;
              updated_at = later;
            })
            d)
        ≡ ok (
            some (record a {
              created_at = later;
              reputation = new_reputation;
              execution_counter = a.execution_counter + execution;
              memory_counter = a.memory_counter + memory;
              artifact_counter = a.artifact_counter + artifact;
            }))
  unfolding identity_row
  found_counted now later execution memory artifact texts d =
      found_row json later a.agent_id _ d
      ∙ ap (λ r. r >>= λ x. ok (some x)) (row_back now later execution memory artifact texts)

  -- If JSON reads back its capabilities and its metadata, a new identity whose capabilities are
  -- texts is found by its id with all its fields but the reputation, which is a new one, and the
  -- time of creation, which is that of the call; creating another identity with the same id changes nothing; and from then
  -- on increments of its counters add up.
  pub get_agent_identity-create_agent_identity :
      (now later : String) (b : AgentIdentity) (execution memory artifact : ℕ) (d : Database)
      → lookup a.agent_id d.agent_identities ≡ none
      → all_of (λ c. is_some (as_text c)) a.capabilities ≡ true
      → b.agent_id ≡ a.agent_id
      → let d' = create_agent_identity json now a d in
        (get_agent_identity json later a.agent_id d'
          ≡ ok (some (record a { created_at = later; reputation = new_reputation })))
        × (create_agent_identity json now b d' ≡ d')
        × (get_agent_identity json later a.agent_id
              (increment_agent_counters a.agent_id execution memory artifact later d')
            ≡ ok (
                some (record a {
                  created_at = later;
                  reputation = new_reputation;
                  execution_counter = a.execution_counter + execution;
                  memory_counter = a.memory_counter + memory;
                  artifact_counter = a.artifact_counter + artifact;
                })))
  get_agent_identity-create_agent_identity now later b execution memory artifact d n texts same =
      rw (created now d n) (
        rw
            (
              found_row json later a.agent_id (identity_row json now a) d,
              row_back_new now later texts,
            )
            refl,
        again now b (identity_row json now a) (update_row a.agent_id (identity_row json now a) d) (
            rw
              (
                same,
                lookup-insert a.agent_id a.agent_id (identity_row json now a) d.agent_identities,
                eq_refl a.agent_id,
              )
              refl),
        rw (counted later a.agent_id execution memory artifact (identity_row json now a) d) (
            found_counted now later execution memory artifact texts
              (update_row a.agent_id (identity_row json now a) d)),
      )

module _ {A B : Type 0} (f : A → Result B) (p : A → Bool) where
  -- One row that cannot be read is enough for the list to raise.
  all_ok-insert_err :
      (k : String) (v : A) (x : Error) (d : Dict A)
      → f v ≡ err x
      → p v ≡ true
      → (e : Error) × (all_ok f (keep_if p (values (insert k v d))) ≡ err e)
  unfolding all_ok insert
  all_ok-insert_err k v x [] h q = (x, ground arith)
  all_ok-insert_err k v x ((j, w) ∷ d) h q =
      let rest = all_ok-insert_err k v x d h q in
      elim (Bool-cases (j == k)) [
        | inl same ↦ (x, ground arith)
        | inr other ↦ elim (Bool-cases (p w)) [
          | inr skipped ↦ (rest.0, ground (arith, rest.1))
          | inl taken ↦ elim (Result-cases (f w)) [
            | inl (b, good) ↦ (rest.0, ground (arith, rest.1))
            | inr (e, bad) ↦ (e, ground arith)
          ]
        ]
      ]

-- A status that the model does not know is stored all the same: then, if JSON reads its row,
-- neither the identity nor the list of all identities can be read.
pub update_agent_status_unknown :
    (json : Json) (agent_id status now later : String) (r : IdentityRow) (d : Database)
    (capabilities : List Value) (metadata : Value)
    → lookup agent_id d.agent_identities ≡ some r
    → json.loads_values r.capabilities_json ≡ some capabilities
    → json.loads_value r.metadata_json ≡ some metadata
    → status_of status ≡ none
    → (d' : Database) × (update_agent_status agent_id status now d ≡ ok d')
      × (get_agent_identity json later agent_id d' ≡ err value_error)
      × ((e : Error) × (list_agent_identities json later none d' ≡ err e))
unfolding update_agent_status list_agent_identities
update_agent_status_unknown json agent_id status now later r d capabilities metadata h c m u =
    let row : IdentityRow = record r { status = status; updated_at = now } in
    let unread = unknown_row json later row capabilities metadata c m u in
    (
      update_row agent_id row d,
      rw h refl,
      rw (found_row json later agent_id row d, unread) refl,
      all_ok-insert_err (record_to_identity json later) (of_workspace none) agent_id row value_error
          d.agent_identities unread refl,
    )
