-- ===== src/Context/Recall.antt =====
-- `ContextBuilder.build_recall_context` of walrusos/engine/context.py
use walrus_os.Base.{
  ℕ, ◌+◌, String, ◌<>◌, Bool, true, false, not, ◌&&◌, Option, none, some, List, [], ◌∷◌, ◌++◌, ◌==◌,
  length, ltb, keep_if, take, contains_text, if◌then◌else◌,
}
use walrus_os.Model.Value.{Value, str, get_or, truthy}
use walrus_os.Adapters.Ledger.{stored_id}
use walrus_os.Recovery.Engine.{join}
use walrus_os.Context.Budget.{TokenBudget, new_budget, add}
use walrus_os.Context.Entry.{
  Entry, is_summary, tags_of, epoch_of, author_label, content_of, sort_down, latest_of, rank_events,
}

-- The state of the assembly.
pub record Draft : Type 0 where
  pub budget : TokenBudget
  pub parts : List String
  pub sources : List String
  pub included : ℕ
  pub checkpoints : ℕ

abbrev pub new_draft : ℕ → Draft
new_draft max_tokens = record {
  budget = new_budget max_tokens;
  parts = [];
  sources = [];
  included = 0;
  checkpoints = 0;
}

pub record RecallContext : Type 0 where
  pub context : String
  pub token_estimate : ℕ
  pub events_considered : ℕ
  pub events_included : ℕ
  pub checkpoints_included : ℕ
  pub sources : List String

-- One event with its line: passed over if it is there or has no content, and taken if it fits.
-- `false` says that it did not fit.
unfoldable pub offer : String → String → String → Draft → Bool × Draft
unfolding add
offer eid content line d =
    let (fits, b) = add line d.budget in
    let d' : Draft = record d {
      budget = b;
      parts = d.parts ++ line ∷ [];
      sources = d.sources ++ eid ∷ [];
      included = d.included + 1;
    } in
    if contains_text eid d.sources
    then (true, d)
    else if content == ""
    then (true, d)
    else if fits
    then (true, d')
    else (false, d)

abbrev pub is_checkpoint : Entry → Bool
is_checkpoint e = is_summary e.0 && contains_text "checkpoint" (tags_of e.0)

-- `show` is `str` of a value, and `less` compares the scores for the query.
module _ (show : Value → String) where
  -- The summary of the last checkpoint, if it fits.
  unfoldable pub offer_checkpoint : Option Entry → Draft → Draft
  unfolding add
  offer_checkpoint none d = d
  offer_checkpoint (some e) d =
      let summary = get_or "checkpoint_summary" (str "") e.1 in
      let text = "[Summary] " <> show summary in
      let (fits, b) = add text d.budget in
      let d' : Draft = record d {
        budget = b;
        parts = d.parts ++ text ∷ [];
        sources = d.sources ++ stored_id e.0 ∷ [];
        checkpoints = 1;
      } in
      if truthy summary then if fits then d' else d else d

  unfoldable pub ranked_line : Entry → String
  ranked_line e = "[" <> author_label show e.0 e.1 <> "] " <> content_of e.1

  -- The loop over the ranked events stops at the first that does not fit.
  unfoldable pub offer_ranked : List Entry → Draft → Draft
  unfolding offer ranked_line
  offer_ranked [] d = d
  offer_ranked (e ∷ es) d =
      let r = offer (stored_id e.0) (content_of e.1) (ranked_line e) d in
      let rest = offer_ranked es r.1 in if r.0 then rest else r.1

  -- The loop over the most recent events goes on.
  unfoldable pub offer_recent : List Entry → Draft → Draft
  unfolding offer ranked_line
  offer_recent [] d = d
  offer_recent (e ∷ es) d =
      offer_recent es (offer (stored_id e.0) (content_of e.1) ("[recent] " <> ranked_line e) d).1

  abbrev pub less_epoch : Entry → Entry → Bool
  less_epoch a b = ltb (epoch_of a.0) (epoch_of b.0)

  unfoldable pub assemble : (List Entry → Entry → Entry → Bool) → ℕ → Bool → List Entry → Draft
  unfolding offer_checkpoint offer_ranked offer_recent latest_of sort_down rank_events
  assemble less max_tokens include_checkpoints all_events =
      let others = keep_if (λ e. not (is_summary e.0)) all_events in
      let start =
        (if include_checkpoints
          then offer_checkpoint (latest_of (keep_if is_checkpoint all_events))
              (new_draft max_tokens)
          else new_draft max_tokens) in
      offer_recent (take 2 (sort_down less_epoch others))
        (offer_ranked (rank_events less others) start)

  unfoldable pub build_recall_context :
      (List Entry → Entry → Entry → Bool) → ℕ → Bool → List Entry → RecallContext
  unfolding assemble
  build_recall_context less max_tokens include_checkpoints all_events =
      let d = assemble less max_tokens include_checkpoints all_events in
      record {
        context = join "\n\n" d.parts;
        token_estimate = d.budget.used;
        events_considered = length all_events;
        events_included = d.included;
        checkpoints_included = d.checkpoints;
        sources = d.sources;
      }
