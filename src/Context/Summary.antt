-- ===== src/Context/Summary.antt =====
-- `MemorySummarizer` of walrusos/engine/summarizer.py. The first sentence of a text is a regular
-- expression's work.
use walrus_os.Base.{
  ℕ, ◌%◌, String, ◌<>◌, not, Option, none, some, List, [], ◌∷◌, ◌++◌, ◌==◌, length, eqb, keep_if,
  contains_text, if◌then◌else◌,
}
use mathlib.Core.List.{reverse}
use walrus_os.Base.Result.{Result, ok, err, zero_division_error}
use walrus_os.Model.Value.{Payload, Value, str}
use walrus_os.Recovery.Engine.{join}
use walrus_os.Context.Entry.{Entry}
use walrus_os.Context.Recall.{is_checkpoint}
use walrus_os.Context.Search.{shown_values}
use walrus_os.Context.Build.{is_private}

-- What a checkpoint asks the stream to append.
pub record Note : Type 0 where
  pub payload : Payload
  pub memory_type : String
  pub importance : String
  pub tags : List String

module _ (show : Value → Option String) (first_sentence : String → String) where
  unfoldable pub public_text : Payload → String
  unfolding shown_values is_private
  public_text p = join " " (shown_values show (keep_if (λ e. not (is_private e.0)) p))

  -- The loop, with the sentences so far.
  unfoldable pub sentences : List Entry → List String → List String
  unfolding public_text
  sentences [] seen = seen
  sentences (e ∷ es) seen =
      let text = public_text e.1 in
      let first = first_sentence text in
      sentences es (
        if text == ""
        then seen
        else if first == ""
        then seen
        else if contains_text first seen
        then seen
        else seen ++ first ∷ [])

  unfoldable pub summarize_session : List Entry → String
  unfolding sentences
  summarize_session events = join " " (sentences events [])

  -- The walk back from the newest event; `recent` are the events since, the newest first.
  unfoldable pub back_to_checkpoint : List Entry → List Entry → List Entry
  back_to_checkpoint [] recent = recent
  back_to_checkpoint (e ∷ es) recent =
      let rest = back_to_checkpoint es (recent ++ e ∷ []) in
      if is_checkpoint e then recent else rest

  unfoldable pub uncheckpointed : List Entry → List Entry
  unfolding back_to_checkpoint
  uncheckpointed timeline = reverse (back_to_checkpoint (reverse timeline) [])

  -- The event that `create_checkpoint` appends, if any.
  unfoldable pub create_checkpoint : String → List Entry → Option Note
  unfolding uncheckpointed summarize_session
  create_checkpoint label timeline =
      let text = summarize_session (uncheckpointed timeline) in
      if text == ""
      then none
      else some (record {
        payload = ("checkpoint_summary", str text) ∷ ("label", str label) ∷ [];
        memory_type = "summary";
        importance = "1.0";
        tags = "checkpoint" ∷ label ∷ [];
      })

  -- `auto_checkpoint`; `show_nat` is `str` of a number. Python's `%` raises on zero.
  unfoldable pub auto_checkpoint : (ℕ → String) → ℕ → List Entry → Result (Option Note)
  unfolding create_checkpoint
  auto_checkpoint show_nat every_n_events timeline =
      let total = length timeline in
      let label = "Auto-checkpoint at event " <> show_nat total in
      if eqb total 0
      then ok none
      else if eqb every_n_events 0
      then err zero_division_error
      else if eqb (total % every_n_events) 0
      then ok (create_checkpoint label timeline)
      else ok none
