-- ===== src/Context/Build.antt =====
-- `ContextBuilder.build_context` of walrusos/engine/context.py
use walrus_os.Base.{
  or_default, ℕ, ◌+◌, ◌/◌, String, ◌<>◌, Bool, false, not, ◌&&◌, List, [], ◌∷◌, ◌++◌, ◌==◌, leb,
  ltb, keep_if, contains_text, map, if◌then◌else◌,
}
use mathlib.Core.List.{reverse}
use walrus_os.Base.Result.{Result, ok, err, value_error}
use walrus_os.Model.Value.{Payload, Value, str, get, get_or, truthy}
use walrus_os.Recovery.Engine.{join}
use walrus_os.Context.Budget.{text_length}
use walrus_os.Context.Entry.{Entry, agent_id_of, epoch_of}
use walrus_os.Context.Recall.{is_checkpoint}
use walrus_os.Context.Search.{last_n}

-- `_estimate_tokens`: a text of less than four characters costs nothing.
unfoldable pub estimate : String → ℕ
estimate text = text_length text / 4

abbrev pub hidden_keys : List String
hidden_keys = "timestamp" ∷ "author" ∷ "agent_id" ∷ "class_type" ∷ "memory_type" ∷ "stream_id" ∷ []

-- `k.startswith("_")`
unfoldable pub is_private : String → Bool
is_private String.[] = false
is_private (String.◌∷◌ c s) = String.◌∷◌ c "" == "_"

-- `show` is `str` of a value, `show_nat` of a number, and `show_agent` of an agent id or `None`.
module _ (show : Value → String) (show_nat : ℕ → String) where
  abbrev pub field : String × Value → String
  field e = e.0 <> ": " <> show e.1

  unfoldable pub clean : Payload → Payload
  unfolding is_private
  clean p = keep_if (λ e. not (is_private e.0)) p

  abbrev pub stamp : Entry → String
  stamp e =
      if truthy (get "timestamp" e.1)
      then show (get "timestamp" e.1)
      else "Epoch " <> show_nat (epoch_of e.0)

  abbrev pub writer : Entry → String
  writer e =
      if truthy (get "author" e.1)
      then show (get "author" e.1)
      else or_default (agent_id_of e.0) "None"

  unfoldable pub format_event : Entry → String
  unfolding clean
  format_event e =
      "["
      <> stamp e
      <> "] "
      <> writer e
      <> ": "
      <> join " | " (map field (keep_if (λ f. not (contains_text f.0 hidden_keys)) (clean e.1)))

  -- The loops of all strategies: texts are taken in order up to the first that does not fit.
  unfoldable pub fill : ℕ → ℕ → List String → List String × ℕ
  unfolding estimate
  fill max_tokens current [] = ([], current)
  fill max_tokens current (t ∷ ts) =
      let rest = fill max_tokens (current + estimate t) ts in
      if leb (current + estimate t) max_tokens then (t ∷ rest.0, rest.1) else ([], current)

  -- "latest"
  unfoldable pub latest_blocks : ℕ → List Entry → List String
  unfolding fill format_event
  latest_blocks max_tokens events = reverse (fill max_tokens 0 (map format_event events)).0

  abbrev pub match_text : String → Payload → String
  match_text label p = label <> join " | " (map field (clean p))

  -- "search": a stream client gives every hit the score one.
  unfoldable pub search_blocks : ℕ → List Payload → List String
  unfolding fill clean
  search_blocks max_tokens found =
      (fill max_tokens 0 (map (match_text "[Search Match | Score: 1.00] ") found)).0

  -- The walk back from the newest event to the last checkpoint: its text, and the events after it,
  -- the newest first.
  unfoldable pub since_checkpoint : List Entry → List Entry → Value × List Entry
  since_checkpoint [] recent = (str "", recent)
  since_checkpoint (e ∷ es) recent =
      let rest = since_checkpoint es (recent ++ e ∷ []) in
      if is_checkpoint e then (get_or "checkpoint_summary" (str "") e.1, recent) else rest

  abbrev pub checkpoint_text : Value → String
  checkpoint_text v = "--- PREVIOUS CHECKPOINT ---\n" <> show v <> "\n---------------------------"

  -- The first step of "smart": the checkpoint, if it fits.
  unfoldable pub checkpoint_block : ℕ → Value → List String × ℕ
  unfolding estimate
  checkpoint_block max_tokens v =
      let text = checkpoint_text v in
      if truthy v && leb (estimate text) max_tokens then (text ∷ [], estimate text) else ([], 0)

  abbrev pub headed : List String → List String
  headed [] = []
  headed (b ∷ bs) = "--- RELEVANT PAST EVENTS ---" ∷ b ∷ bs

  -- Its last step: hits of the search, under a heading that is not counted.
  unfoldable pub match_blocks : ℕ → ℕ → List Payload → List String
  unfolding fill clean
  match_blocks max_tokens current found =
      let blocks = (fill max_tokens current (map (match_text "[Search Match] ") found)).0 in
      if ltb current max_tokens then headed blocks else []

  unfoldable pub smart_blocks : ℕ → List Entry → List Payload → List String
  unfolding checkpoint_block since_checkpoint fill match_blocks last_n format_event
  smart_blocks max_tokens timeline found =
      let since = since_checkpoint (reverse timeline) [] in
      let head = checkpoint_block max_tokens since.0 in
      let events = fill max_tokens head.1 (map format_event (last_n 10 (reverse since.1))) in
      head.0 ++ events.0 ++ match_blocks max_tokens events.1 found

  -- `latest` are the last fifty events, `hits` the payloads that a search finds with each limit.
  unfoldable pub build_context :
      String → ℕ → List Entry → List Entry → (ℕ → List Payload) → Result String
  unfolding latest_blocks search_blocks smart_blocks
  build_context strategy max_tokens latest timeline hits =
      if strategy == "latest"
      then ok (join "\n" (latest_blocks max_tokens latest))
      else if strategy == "search"
      then ok (join "\n" (search_blocks max_tokens (hits 20)))
      else if strategy == "smart"
      then ok (join "\n" (smart_blocks max_tokens timeline (hits 5)))
      else err value_error
