-- ===== src/EventStore/Chain/Rows.antt =====
-- The rows of a workspace in walrusos/adapters/sqlite_ledger.py: the latest one, and one more.
use walrus_os.Base.{
  ◌⊎◌, All, All-append, String, ◌≡◌, refl, Bool, true, Option, none, some, List, [], ◌∷◌, ◌++◌,
  if◌then◌else◌, arith, keep_if, or_default, ap, sym, ◌∙◌, Bool-cases, Option-cases, inl, inr,
}
use walrus_os.Base.Dict.{Dict, lookup, insert, values}
use walrus_os.Sqlite.Tables.{Database, ProtocolRow}
use walrus_os.Sqlite.Protocol.{last_row, get_latest_event_hash}
use walrus_os.EventStore.Chain.{rows_of, Linked}

abbrev pub last_id : Option String → List ProtocolRow → Option String
last_id previous [] = previous
last_id previous (r ∷ rs) = last_id (some r.event_id) rs

pub Linked-snoc :
    (sha256 : String → String) (previous : Option String) (rs : List ProtocolRow) (r : ProtocolRow)
    → Linked sha256 previous rs
    → Linked sha256 (last_id previous rs) (r ∷ [])
    → Linked sha256 previous (rs ++ r ∷ [])
Linked-snoc sha256 previous [] r h k = k
Linked-snoc sha256 previous (x ∷ rs) r h k =
    (h.0, h.1, h.2, Linked-snoc sha256 (some x.event_id) rs r h.3 k)

pub keep_if-snoc {ℓ} :
    {A : Type ℓ} (p : A → Bool) (xs : List A) (x : A)
    → keep_if p (xs ++ x ∷ []) ≡ (if p x then keep_if p xs ++ x ∷ [] else keep_if p xs)
keep_if-snoc p [] x = refl
keep_if-snoc p (y ∷ ys) x = ground (arith, keep_if-snoc p ys x)

pub values-insert :
    (k : String) (r : ProtocolRow) (d : Dict ProtocolRow)
    → lookup k d ≡ none
    → values (insert k r d) ≡ values d ++ r ∷ []
unfolding lookup insert
values-insert k r [] h = refl
values-insert k r ((j, v) ∷ d) h = ground (arith, values-insert k r d)

the_row : (x r : ProtocolRow) → ◌≡◌ {A = Option ProtocolRow} (some x) (some r) → x ≡ r
the_row x r p = ap (λ o. or_default o x) p

module _ (before : String → String → Bool) where
  -- Each row is earlier than all that follow it.
  abbrev pub Rising : List ProtocolRow → Type 0
  Rising [] = Unit
  Rising (r ∷ rs) = All (λ x. before r.timestamp x.timestamp ≡ true) rs × Rising rs

  pub Rising-snoc :
      (rs : List ProtocolRow) (r : ProtocolRow)
      → Rising rs
      → All (λ x. before x.timestamp r.timestamp ≡ true) rs
      → Rising (rs ++ r ∷ [])
  Rising-snoc [] r h k = (tt, tt)
  Rising-snoc (x ∷ rs) r h k = (
    All-append (λ y. before x.timestamp y.timestamp ≡ true) rs (r ∷ []) h.0 (k.0, tt),
    Rising-snoc rs r h.1 k.1,
  )

  last_row-cons :
      (x : ProtocolRow) (rs : List ProtocolRow)
      → (last_row before (x ∷ rs) ≡ some x) ⊎ (last_row before (x ∷ rs) ≡ last_row before rs)
  unfolding last_row
  last_row-cons x rs = elim (Option-cases (last_row before rs)) [
    | inl n ↦ inl (rw (last_row, n) refl)
    | inr (y, q) ↦ elim (Bool-cases (before x.timestamp y.timestamp)) [
      | inl b ↦ inr (rw (last_row, q, b) refl)
      | inr b ↦ inl (rw (last_row, q, b) refl)
    ]
  ]

  last_row-All :
      (P : ProtocolRow → Type 0) (rs : List ProtocolRow) (r : ProtocolRow)
      → All P rs
      → last_row before rs ≡ some r
      → P r
  unfolding last_row
  last_row-All P [] r h p = absurd (ground arith)
  last_row-All P (x ∷ rs) r h p = elim (last_row-cons x rs) [
    | inl q ↦ rw (← the_row x r (sym q ∙ p)) h.0
    | inr q ↦ last_row-All P rs r h.1 (sym q ∙ p)
  ]

  last_row-last_id :
      (previous : Option String) (r : ProtocolRow) (rs : List ProtocolRow)
      → Rising (r ∷ rs)
      → (x : ProtocolRow) × (last_row before (r ∷ rs) ≡ some x)
        × (last_id previous (r ∷ rs) ≡ some x.event_id)
  unfolding last_row
  last_row-last_id previous r [] h = (r, refl, refl)
  last_row-last_id previous r (y ∷ rs) h =
      let (x, found, named) = last_row-last_id (some r.event_id) y rs h.1 in
      let later : before r.timestamp x.timestamp ≡ true =
        last_row-All (λ z. before r.timestamp z.timestamp ≡ true) (y ∷ rs) x h.0 found in
      (x, rw (last_row, found, later) refl, named)

  latest_of :
      (rs : List ProtocolRow)
      → Rising rs
      → (elim (last_row before rs) [ none ↦ none | some r ↦ some r.event_id ]) ≡ last_id none rs
  unfolding last_row
  latest_of [] h = refl
  latest_of (r ∷ rs) h =
      let (x, found, named) = last_row-last_id none r rs h in rw (found, named) refl

  pub latest-last_id :
      (w : String) (d : Database)
      → Rising (rows_of w d)
      → get_latest_event_hash before w d ≡ last_id none (rows_of w d)
  unfolding get_latest_event_hash
  latest-last_id w d h = latest_of (rows_of w d) h
