-- ===== src/Context/Bound.antt =====
-- What `build_recall_context` promises of its result: the budget, the sources and the counts.
use walrus_os.Base.{
  ℕ, ◌+◌, ◌*◌, ◌≤◌, String, ◌<>◌, ◌≡◌, refl, Bool, true, false, not, ◌&&◌, ◌||◌, Option, none, some,
  List, [], ◌∷◌, ◌++◌, ◌==◌, arith, length, length-append, contains_text, eq_iff, Bool-cases,
}
use walrus_os.Model.Value.{Value}
use walrus_os.Recovery.Engine.{join}
use walrus_os.Context.Budget.{
  TokenBudget, add, estimate_tokens, text_length, text_length-estimate_tokens, estimate_tokens-pos,
  codes-append,
}
use walrus_os.Adapters.Ledger.{stored_id}
use walrus_os.Context.Entry.{Entry, content_of}
use walrus_os.Context.Recall.{
  Draft, new_draft, offer, offer_checkpoint, offer_ranked, offer_recent, ranked_line,
}

abbrev pub cost_of : List String → ℕ
cost_of [] = 0
cost_of (t ∷ ts) = estimate_tokens t + cost_of ts

-- No text is twice in the list.
abbrev pub unrepeated : List String → Bool
unrepeated [] = true
unrepeated (x ∷ xs) = not (contains_text x xs) && unrepeated xs

pub record IsWithin (max_tokens : ℕ) (d : Draft) : Type 0 where
  pub whole : d.budget.max_tokens ≡ max_tokens
  pub within : d.budget.used ≤ max_tokens
  pub paid : cost_of d.parts ≡ d.budget.used
  pub counted : length d.parts ≡ d.included + d.checkpoints
  pub sourced : length d.sources ≡ length d.parts
  pub once : unrepeated d.sources ≡ true

cost_of-append :
    (ts : List String) (t : String) → cost_of (ts ++ t ∷ []) ≡ cost_of ts + estimate_tokens t
cost_of-append [] t = omega arith
cost_of-append (x ∷ ts) t = omega (arith, cost_of-append ts t)

contains-append :
    (x y : String) (xs : List String)
    → contains_text x (xs ++ y ∷ []) ≡ (contains_text x xs || (y == x))
contains-append x y [] = ground arith
contains-append x y (z ∷ xs) = ground (arith, contains-append x y xs)

pub unrepeated-append :
    (y : String) (xs : List String)
    → contains_text y xs ≡ false
    → unrepeated xs ≡ true
    → unrepeated (xs ++ y ∷ []) ≡ true
unrepeated-append y [] n h = refl
unrepeated-append y (x ∷ xs) n h =
    ground (arith, contains-append x y xs, unrepeated-append y xs, eq_iff x y, eq_iff y x)

add_lem :
    (text : String) (b : TokenBudget)
    → ((add text b).0 ≡ true)
    → ((add text b).1.used ≡ b.used + estimate_tokens text)
      × ((add text b).1.max_tokens ≡ b.max_tokens)
      × (b.used + estimate_tokens text ≤ b.max_tokens)
unfolding add
add_lem text b h = ground arith

offer-IsWithin :
    (m : ℕ) (eid content line : String) (d : Draft)
    → IsWithin m d
    → IsWithin m (offer eid content line d).1
unfolding offer
offer-IsWithin m eid content line d w = record {
  whole = ground (arith, w.whole);
  within = ground (arith, w.whole, w.within);
  paid = ground (arith, cost_of-append d.parts line, w.paid);
  counted = ground (arith, length-append d.parts (line ∷ []), w.counted);
  sourced =
      ground
        (arith, length-append d.parts (line ∷ []), length-append d.sources (eid ∷ []), w.sourced);
  once = ground (arith, unrepeated-append eid d.sources, w.once);
}

pub new_draft-IsWithin : (m : ℕ) → IsWithin m (new_draft m)
new_draft-IsWithin m = record {
  whole = refl;
  within = omega arith;
  paid = refl;
  counted = refl;
  sourced = refl;
  once = refl;
}

pub join-le-cost_of : (ts : List String) → text_length (join "\n\n" ts) ≤ 9 * cost_of ts
unfolding join
join-le-cost_of [] = omega arith
join-le-cost_of (t ∷ []) = omega (arith, text_length-estimate_tokens t, estimate_tokens-pos t)
join-le-cost_of (t ∷ u ∷ ts) = omega (
  arith,
  text_length-estimate_tokens t,
  estimate_tokens-pos t,
  join-le-cost_of (u ∷ ts),
  codes-append t ("\n\n" <> join "\n\n" (u ∷ ts)),
  codes-append "\n\n" (join "\n\n" (u ∷ ts)),
)

module _ (show : Value → String) where
  pub offer_ranked-IsWithin :
      (m : ℕ) (es : List Entry) (d : Draft) → IsWithin m d → IsWithin m (offer_ranked show es d)
  unfolding offer_ranked
  offer_ranked-IsWithin m [] d w = w
  offer_ranked-IsWithin m (e ∷ es) d w =
      let line = ranked_line show e in
      let one = offer-IsWithin m (stored_id e.0) (content_of e.1) line d w in
      let rest = offer_ranked-IsWithin m es (offer (stored_id e.0) (content_of e.1) line d).1 one in
      ground (arith, one, rest, Bool-cases (offer (stored_id e.0) (content_of e.1) line d).0)

  pub offer_recent-IsWithin :
      (m : ℕ) (es : List Entry) (d : Draft) → IsWithin m d → IsWithin m (offer_recent show es d)
  unfolding offer_recent
  offer_recent-IsWithin m [] d w = w
  offer_recent-IsWithin m (e ∷ es) d w =
      offer_recent-IsWithin m es _
        (offer-IsWithin m (stored_id e.0) (content_of e.1) ("[recent] " <> ranked_line show e) d w)

  pub offer_checkpoint-IsWithin :
      (m : ℕ) (o : Option Entry) → IsWithin m (offer_checkpoint show o (new_draft m))
  unfolding offer_checkpoint
  offer_checkpoint-IsWithin m none = new_draft-IsWithin m
  offer_checkpoint-IsWithin m (some e) = record {
    whole = ground arith;
    within = ground arith;
    paid = ground arith;
    counted = ground arith;
    sourced = ground arith;
    once = ground arith;
  }
