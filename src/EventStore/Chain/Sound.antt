-- ===== src/EventStore/Chain/Sound.antt =====
-- The hash chain of a workspace after a run of `EventStoreEngine.append` of
-- walrusos/engine/event_store.py over the ledger of walrusos/adapters/sqlite_ledger.py.
use walrus_os.Base.{
  All, All-append, All-weaken, String, ◌≡◌, ◌≢◌, refl, Bool, true, none, some, List, [], ◌∷◌, ◌++◌,
  ◌==◌, arith, eq_iff, keep_if, map, ap, sym, ◌∙◌, Bool-cases, inl, inr,
}
use mathlib.Core.Path.{subst}
use mathlib.Core.List.{append-nil, append_assoc}
use walrus_os.Model.Event.{ProtocolEvent}
use walrus_os.Adapters.Storage.{Storage}
use walrus_os.Sqlite.Tables.{Database, ProtocolRow, Json, empty}
use walrus_os.Sqlite.Protocol.{protocol_row, get_latest_event_hash}
use walrus_os.EventStore.{Env}
use walrus_os.EventStore.Chain.{
  collect, Call, Node, rows_of, next_event, log_event, log_all, Rises, Linked,
}
use walrus_os.EventStore.Chain.Rows.{Rising, Linked-snoc, Rising-snoc, latest-last_id}
use walrus_os.EventStore.Chain.Written.{
  row_of, row_of-fields, row_of-Linked, last_id-nonempty, log_event-cases, kept_rows,
  rows_of-logged,
}

module _ (env : Env) (json : Json) (before : String → String → Bool) where
  -- What holds of the rows of a workspace while calls are to come.
  record Before (cs : List Call) (rs : List ProtocolRow) : Type 0 where
    linked : Linked env.sha256 none rs
    rising : Rising before rs
    earlier : All (λ r. All (λ c. before r.timestamp c.now ≡ true) cs) rs

  Before-tail :
      (c : Call) (cs : List Call) (rs : List ProtocolRow) → Before (c ∷ cs) rs → Before cs rs
  Before-tail c cs rs h = record {
    linked = h.linked;
    rising = h.rising;
    earlier =
        All-weaken (λ r. All (λ d. before r.timestamp d.now ≡ true) (c ∷ cs)) rs (λ r k. k.1)
          h.earlier;
  }

  Before-snoc :
      (c : Call) (cs : List Call) (d : Database)
      → ((t : String) → env.sha256 t ≢ "")
      → All (λ x. before c.now x.now ≡ true) cs
      → Before (c ∷ cs) (rows_of c.args.workspace_id d)
      → Before cs (rows_of c.args.workspace_id d ++ row_of env json before c d ∷ [])
  Before-snoc c cs d law later h =
      let w = c.args.workspace_id in
      let rs = rows_of w d in
      let latest = latest-last_id before w d h.rising in
      let ne : get_latest_event_hash before w d ≢ some "" =
        rw latest
          (last_id-nonempty env json before law none rs h.linked (λ p. absurd (ground arith))) in
      let time = (row_of-fields env json before c d).1 in
      let rest = Before-tail c cs rs h in
      record {
        linked = Linked-snoc env.sha256 none rs (row_of env json before c d) h.linked (
            subst (λ p. Linked env.sha256 p (row_of env json before c d ∷ [])) latest
              (row_of-Linked env json before c d ne));
        rising = Rising-snoc before rs (row_of env json before c d) h.rising (
            rw time (
              All-weaken (λ r. All (λ x. before r.timestamp x.now ≡ true) (c ∷ cs)) rs (λ r k. k.0)
                h.earlier));
        earlier =
            All-append (λ r. All (λ x. before r.timestamp x.now ≡ true) cs) rs
              (row_of env json before c d ∷ []) rest.earlier (rw time later, tt);
      }

  Before-logged :
      (w : String) (c : Call) (cs : List Call) (d : Database)
      → ((t : String) → env.sha256 t ≢ "")
      → All (λ x. before c.now x.now ≡ true) cs
      → Before (c ∷ cs) (rows_of w d)
      → Before cs (kept_rows env json before w c d)
  unfolding kept_rows
  Before-logged w c cs d law later h = elim (Bool-cases (c.args.workspace_id == w)) [
    | inl p ↦
        let same = (eq_iff c.args.workspace_id w).0 p in
        rw p (
          subst (λ v. Before cs (rows_of v d ++ row_of env json before c d ∷ [])) same
            (Before-snoc c cs d law later
              (subst (λ v. Before (c ∷ cs) (rows_of v d)) (sym same) h)))
    | inr p ↦ rw p (Before-tail c cs (rows_of w d) h)
  ]

  Before-log_event :
      (w : String) (c : Call) (cs : List Call) (n : Node)
      → ((t : String) → env.sha256 t ≢ "")
      → All (λ x. before c.now x.now ≡ true) cs
      → Before (c ∷ cs) (rows_of w n.database)
      → Before cs (rows_of w (log_event env json before c n).1.database)
  Before-log_event w c cs n law later h = elim (log_event-cases env json before c n) [
    | inl (r, same) ↦
        subst (λ d. Before cs (rows_of w d)) (sym same) (Before-tail c cs (rows_of w n.database) h)
    | inr (r, ended) ↦
        subst (λ rs. Before cs rs)
          (sym (
            rows_of-logged env json before w c n.database (log_event env json before c n).1.database
              ended))
          (Before-logged w c cs n.database law later h)
  ]

  Before-log_all :
      (w : String) (cs : List Call) (n : Node)
      → ((t : String) → env.sha256 t ≢ "")
      → Rises before cs
      → Before cs (rows_of w n.database)
      → Before [] (rows_of w (log_all env json before cs n).1.database)
  unfolding log_all
  Before-log_all w [] n law up h = h
  Before-log_all w (c ∷ cs) n law up h =
      Before-log_all w cs (log_event env json before c n).1 law up.1
        (Before-log_event w c cs n law up.0 h)

  abbrev of_workspace : String → List ProtocolEvent → List ProtocolRow
  of_workspace w es = map (protocol_row json) (keep_if (λ e. e.workspace_id == w) es)

  kept_rows-append :
      (w : String) (c : Call) (d : Database) (es : List ProtocolEvent)
      → kept_rows env json before w c d ++ of_workspace w es
        ≡ rows_of w d ++ of_workspace w (next_event env json before c d ∷ es)
  unfolding kept_rows row_of
  kept_rows-append w c d es =
      let e = next_event env json before c d in
      let same : (e.workspace_id == w) ≡ (c.args.workspace_id == w) =
        ap (λ x. x == w) (unfold row_of protocol_row in (row_of-fields env json before c d).0) in
      elim (Bool-cases (c.args.workspace_id == w)) [
        | inl p ↦
            rw (p, same ∙ p)
              (append_assoc (rows_of w d) (row_of env json before c d ∷ []) (of_workspace w es))
        | inr p ↦ rw (p, same ∙ p) refl
      ]

  -- The rows that a run adds to a workspace.
  rows_of-log_all :
      (w : String) (cs : List Call) (n : Node)
      → rows_of w (log_all env json before cs n).1.database
        ≡ rows_of w n.database ++ of_workspace w (log_all env json before cs n).0
  unfolding log_all
  rows_of-log_all w [] n = sym (append-nil (rows_of w n.database))
  rows_of-log_all w (c ∷ cs) n =
      let n' = (log_event env json before c n).1 in
      let es = (log_all env json before cs n').0 in
      rows_of-log_all w cs n' ∙ elim (log_event-cases env json before c n) [
        | inl (r, same) ↦
            ap (λ d. rows_of w d ++ of_workspace w es) same
            ∙ ap (λ x. rows_of w n.database ++ of_workspace w (collect x es)) (sym r)
        | inr (r, ended) ↦
            ap (λ rs. rs ++ of_workspace w es)
              (rows_of-logged env json before w c n.database n'.database ended)
            ∙ kept_rows-append w c n.database es
            ∙ ap (λ x. rows_of w n.database ++ of_workspace w (collect x es)) (sym r)
      ]

-- Over an empty SQLite database, let a run of appends have times that rise in the order of the
-- database, and let the hash of no text be empty. Then the rows of each workspace are those of the
-- events of the workspace that the appends have written, in their order, and they form a chain: each
-- names the id of the row before it as its previous hash, the first none; its id is the SHA-256 of
-- its JSON after that id and a colon, or of its JSON alone in the first row; and its blob hash is
-- that of its JSON.
pub log_all-Linked :
    (env : Env) (json : Json) (before : String → String → Bool) (cs : List Call) (w : String)
    (storage : Storage)
    → ((t : String) → env.sha256 t ≢ "")
    → Rises before cs
    → let (events, n) =
        log_all env json before cs (record { storage = storage; database = empty }) in
      (rows_of w n.database ≡ map (protocol_row json) (keep_if (λ e. e.workspace_id == w) events))
      × Linked env.sha256 none (rows_of w n.database)
log_all-Linked env json before cs w storage law up =
    let start : Node = record { storage = storage; database = empty } in
    (
      rows_of-log_all env json before w cs start,
      (Before-log_all env json before w cs start law up
          (record { linked = tt; rising = tt; earlier = tt })).linked,
    )
