-- ===== src/Context/Sources.antt =====
-- The sources that `build_recall_context` names.
use walrus_os.Base.{
  take, ℕ, ◌+◌, ◌*◌, ◌≤◌, String, ◌<>◌, ◌≡◌, refl, Bool, true, false, not, Option, none, some, List,
  [], ◌∷◌, arith, length, keep_if, contains_text, if◌then◌else◌, eq_refl, All, All-append,
  All-keep_if, All-take, All-weaken, map, Bool-cases, Option-cases, ◌∙◌,
}
use walrus_os.Model.Value.{Value}
use walrus_os.Adapters.Ledger.{stored_id}
use walrus_os.Context.Budget.{text_length}
use walrus_os.Context.Entry.{
  Entry, content_of, place_down, sort_down, latest_of, rank_events, is_summary,
}
use walrus_os.Context.Recall.{
  Draft, new_draft, offer, offer_checkpoint, offer_ranked, offer_recent, assemble, ranked_line,
  build_recall_context, is_checkpoint, less_epoch,
}
use walrus_os.Context.Bound.{
  IsWithin, new_draft-IsWithin, offer_checkpoint-IsWithin, offer_ranked-IsWithin,
  offer_recent-IsWithin, unrepeated, join-le-cost_of,
}

module _ {A : Type 0} (P : A → Type 0) (less : A → A → Bool) where
  All-place_down : (x : A) (xs : List A) → P x → All P xs → All P (place_down less x xs)
  unfolding place_down
  All-place_down x [] p h = (p, tt)
  All-place_down x (y ∷ ys) p h = ground (arith, All-place_down x ys p h.1, h, p)

  pub All-sort_down : (xs : List A) → All P xs → All P (sort_down less xs)
  unfolding sort_down
  All-sort_down [] h = tt
  All-sort_down (x ∷ xs) h = All-place_down x (sort_down less xs) h.0 (All-sort_down xs h.1)

abbrev Holds : (Entry → Type 0) → Option Entry → Type 0
Holds P none = Unit
Holds P (some e) = P e

latest_of-Holds : (P : Entry → Type 0) (es : List Entry) → All P es → Holds P (latest_of es)
unfolding latest_of
latest_of-Holds P [] h = tt
latest_of-Holds P (e ∷ es) h =
    ground (arith, latest_of-Holds P es h.1, h.0, Option-cases (latest_of es))

abbrev ids : List Entry → List String
ids es = map (λ e. stored_id e.0) es

abbrev Listed : List String → Entry → Type 0
Listed xs e = contains_text (stored_id e.0) xs ≡ true

All-Listed : (es : List Entry) → All (Listed (ids es)) es
All-Listed [] = tt
All-Listed (e ∷ es) = (
  rw (eq_refl (stored_id e.0)) refl,
  All-weaken (Listed (ids es)) es (λ x h. ground (arith, h)) (All-Listed es),
)

module _ (show : Value → String) (P : String → Type 0) where
  offer-All :
      (eid content line : String) (d : Draft)
      → P eid
      → All P d.sources
      → All P (offer eid content line d).1.sources
  unfolding offer
  offer-All eid content line d p h = ground (arith, All-append P d.sources (eid ∷ []) h (p, tt), h)

  offer_ranked-All :
      (es : List Entry) (d : Draft)
      → All (λ e. P (stored_id e.0)) es
      → All P d.sources
      → All P (offer_ranked show es d).sources
  unfolding offer_ranked
  offer_ranked-All [] d p h = h
  offer_ranked-All (e ∷ es) d p h =
      let line = ranked_line show e in
      let one = offer-All (stored_id e.0) (content_of e.1) line d p.0 h in
      let rest = offer_ranked-All es (offer (stored_id e.0) (content_of e.1) line d).1 p.1 one in
      ground (arith, one, rest, Bool-cases (offer (stored_id e.0) (content_of e.1) line d).0)

  offer_recent-All :
      (es : List Entry) (d : Draft)
      → All (λ e. P (stored_id e.0)) es
      → All P d.sources
      → All P (offer_recent show es d).sources
  unfolding offer_recent
  offer_recent-All [] d p h = h
  offer_recent-All (e ∷ es) d p h =
      offer_recent-All es _ p.1
        (offer-All (stored_id e.0) (content_of e.1) ("[recent] " <> ranked_line show e) d p.0 h)

  offer_checkpoint-All :
      (m : ℕ) (o : Option Entry)
      → Holds (λ e. P (stored_id e.0)) o
      → All P (offer_checkpoint show o (new_draft m)).sources
  unfolding offer_checkpoint
  offer_checkpoint-All m none p = tt
  offer_checkpoint-All m (some e) p = ground (arith, p)

  assemble-All :
      (less : List Entry → Entry → Entry → Bool) (m : ℕ) (cps : Bool) (es : List Entry)
      → All (λ e. P (stored_id e.0)) es
      → All P (assemble show less m cps es).sources
  unfolding assemble rank_events
  assemble-All less m cps es p =
      let others = All-keep_if (λ e. P (stored_id e.0)) (λ e. not (is_summary e.0)) es p in
      offer_recent-All _ _
        (All-take (λ e. P (stored_id e.0)) 2 _ (All-sort_down _ (less_epoch show) _ others))
        (offer_ranked-All _ _ (All-sort_down _ (less _) _ others) (start cps))
    where
      start :
          (b : Bool)
          → All P
              (if b
                then offer_checkpoint show (latest_of (keep_if is_checkpoint es)) (new_draft m)
                else new_draft m).sources
      start true = offer_checkpoint-All m _ (latest_of-Holds _ _ (All-keep_if _ is_checkpoint es p))
      start false = tt

assemble-IsWithin :
    (show : Value → String) (less : List Entry → Entry → Entry → Bool) (m : ℕ) (cps : Bool)
    (es : List Entry)
    → IsWithin m (assemble show less m cps es)
unfolding assemble
assemble-IsWithin show less m cps es =
    offer_recent-IsWithin show m (take 2 (sort_down (less_epoch show) others)) _
      (offer_ranked-IsWithin show m (rank_events less others) _ (start cps))
  where
    others : List Entry
    others = keep_if (λ e. not (is_summary e.0)) es

    start :
        (b : Bool)
        → IsWithin m (
            if b
            then offer_checkpoint show (latest_of (keep_if is_checkpoint es)) (new_draft m)
            else new_draft m)
    start true = offer_checkpoint-IsWithin show m (latest_of (keep_if is_checkpoint es))
    start false = new_draft-IsWithin m

-- Whatever the scores, a recall context counts at most the tokens of its budget, and has at most
-- nine characters for each of these. It names as many sources as it includes events and checkpoints,
-- none twice, and each is the id of an event of the stream.
pub build_recall_context-IsBounded :
    (show : Value → String) (less : List Entry → Entry → Entry → Bool) (max_tokens : ℕ)
    (checkpoints : Bool) (es : List Entry)
    → let r = build_recall_context show less max_tokens checkpoints es in
      (r.token_estimate ≤ max_tokens)
      × (text_length r.context ≤ 9 * max_tokens)
      × (length r.sources ≡ r.events_included + r.checkpoints_included)
      × (unrepeated r.sources ≡ true)
      × All (λ s. contains_text s (map (λ e. stored_id e.0) es) ≡ true) r.sources
unfolding build_recall_context
build_recall_context-IsBounded show less m cps es =
    let w = assemble-IsWithin show less m cps es in
    let d = assemble show less m cps es in
    (
      w.within,
      omega (arith, join-le-cost_of d.parts, w.paid, w.within),
      w.sourced ∙ w.counted,
      w.once,
      assemble-All show (λ s. contains_text s (ids es) ≡ true) less m cps es (All-Listed es),
    )
