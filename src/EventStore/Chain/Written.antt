-- ===== src/EventStore/Chain/Written.antt =====
-- The row that one `EventStoreEngine.append` of walrusos/engine/event_store.py adds to the ledger of
-- walrusos/adapters/sqlite_ledger.py.
use walrus_os.Base.{
  ◌⊎◌, String, ◌≡◌, ◌≢◌, refl, Bool, Option, none, some, List, [], ◌∷◌, ◌++◌, ◌==◌, if◌then◌else◌,
  eq_iff, keep_if, or_default, ap, sym, ◌∙◌, Bool-cases, Option-cases, inl, inr,
}
use walrus_os.Base.Dict.{lookup, values}
use walrus_os.Base.Result.{ok, err, integrity_error}
use walrus_os.Sqlite.Tables.{Database, ProtocolRow, Json, add_row}
use walrus_os.Sqlite.Protocol.{protocol_row, append_protocol_event, get_latest_event_hash}
use walrus_os.EventStore.{Env, make_event, compute_event_hash}
use walrus_os.EventStore.Recorded.{anchored-fields}
use walrus_os.EventStore.Chain.{
  Call, Node, on_database, rows_of, next_event, log_event, material, Linked,
}
use walrus_os.EventStore.Chain.Rows.{last_id, keep_if-snoc, values-insert}

-- The row of an event that names the latest hash of its workspace and hashes its JSON with it.
module _ (env : Env) (json : Json) (before : String → String → Bool) where
  unfoldable pub row_of : Call → Database → ProtocolRow
  row_of c d = protocol_row json (next_event env json before c d)

  compute_event_hash-material :
      (libs : Env) (bytes : String) (previous : Option String)
      → previous ≢ some ""
      → compute_event_hash libs bytes previous ≡ libs.sha256 (material previous bytes)
  unfolding compute_event_hash
  compute_event_hash-material libs bytes none ne = refl
  compute_event_hash-material libs bytes (some h) ne = elim (Bool-cases (h == "")) [
    | inl p ↦ absurd (ne (ap some ((eq_iff h "").0 p)))
    | inr p ↦ rw p refl
  ]

  pub row_of-fields :
      (c : Call) (d : Database)
      → ((row_of c d).workspace_id ≡ c.args.workspace_id) × ((row_of c d).timestamp ≡ c.now)
  unfolding row_of next_event protocol_row make_event
  row_of-fields c d =
      let libs : Env = on_database env json before d in
      let bytes = json.dumps_payload c.args.payload in
      let kept = anchored-fields libs (make_event libs c.args (env.sha256 bytes) c.now) in
      (kept.workspace_id, kept.timestamp)

  pub row_of-Linked :
      (c : Call) (d : Database)
      → get_latest_event_hash before c.args.workspace_id d ≢ some ""
      → Linked env.sha256 (get_latest_event_hash before c.args.workspace_id d) (row_of c d ∷ [])
  unfolding row_of next_event protocol_row make_event
  row_of-Linked c d ne =
      let libs : Env = on_database env json before d in
      let bytes = json.dumps_payload c.args.payload in
      let latest = get_latest_event_hash before c.args.workspace_id d in
      let kept = anchored-fields libs (make_event libs c.args (env.sha256 bytes) c.now) in
      (
        kept.previous_hash,
        kept.event_id
            ∙ compute_event_hash-material libs bytes latest ne
            ∙ ap (λ p. env.sha256 (material latest (json.dumps_payload p))) (sym kept.payload),
        kept.blob_hash ∙ ap (λ p. some (env.sha256 (json.dumps_payload p))) (sym kept.payload),
        tt,
      )

  pub last_id-nonempty :
      ((t : String) → env.sha256 t ≢ "")
      → (previous : Option String) (rs : List ProtocolRow) → Linked env.sha256 previous rs
      → previous ≢ some ""
      → last_id previous rs ≢ some ""
  last_id-nonempty law previous [] h ne = ne
  last_id-nonempty law previous (r ∷ rs) h ne =
      last_id-nonempty law (some r.event_id) rs h.3
        (λ p. law (material previous r.payload_json) (sym h.1 ∙ ap (λ o. or_default o "") p))

  unfoldable pub kept_rows : String → Call → Database → List ProtocolRow
  kept_rows w c d = if c.args.workspace_id == w then rows_of w d ++ row_of c d ∷ [] else rows_of w d

  pub log_event-cases :
      (c : Call) (n : Node)
      → ((log_event env json before c n).0 ≡ err integrity_error)
          × ((log_event env json before c n).1.database ≡ n.database)
        ⊎ ((log_event env json before c n).0 ≡ ok (next_event env json before c n.database))
          × (values (log_event env json before c n).1.database.protocol_events
              ≡ values n.database.protocol_events ++ row_of c n.database ∷ [])
  unfolding log_event append_protocol_event add_row row_of
  log_event-cases c n =
      let e = next_event env json before c n.database in
      elim (Option-cases (lookup e.event_id n.database.protocol_events)) [
        | inl p ↦ inr (
          rw (log_event, append_protocol_event, add_row, p) refl,
          rw (log_event, append_protocol_event, add_row, p)
              (values-insert e.event_id (protocol_row json e) n.database.protocol_events p),
        )
        | inr (r, p) ↦ inl (
          rw (log_event, append_protocol_event, add_row, p) refl,
          rw (log_event, append_protocol_event, add_row, p) refl,
        )
      ]

  pub rows_of-logged :
      (w : String) (c : Call) (d d' : Database)
      → values d'.protocol_events ≡ values d.protocol_events ++ row_of c d ∷ []
      → rows_of w d' ≡ kept_rows w c d
  unfolding kept_rows
  rows_of-logged w c d d' h =
      ap (keep_if (λ r. r.workspace_id == w)) h
      ∙ keep_if-snoc (λ r. r.workspace_id == w) (values d.protocol_events) (row_of c d)
      ∙ ap (λ x. if x == w then rows_of w d ++ row_of c d ∷ [] else rows_of w d)
          (row_of-fields c d).0
