-- ===== src/Tests/Context.antt =====
-- Contexts of walrusos/engine/context.py on a concrete timeline.
use walrus_os.Base.{
  ℕ, ◌+◌, ◌*◌, ◌≤◌, String, ◌≡◌, refl, Bool, true, false, none, some, List, [], ◌∷◌, length, map,
  contains_text, All,
}
use mathlib.Core.List.{reverse}
use walrus_os.Base.Dict.{lookup}
use walrus_os.Recovery.Engine.{join}
use walrus_os.Model.Value.{Value, str, truthy, get_or, get, text_values}
use walrus_os.Model.Event.{MemoryEvent}
use walrus_os.Adapters.Ledger.{memory, stored_id}
use walrus_os.Context.Budget.{text_length, estimate_tokens}
use walrus_os.Context.Entry.{Entry, content_of, author_label}
use walrus_os.Context.Recall.{build_recall_context}
use walrus_os.Context.Bound.{unrepeated}
use walrus_os.Context.Sources.{build_recall_context-IsBounded}
use walrus_os.Context.Build.{format_event, latest_blocks}
use walrus_os.Context.Longest.{Longest, latest_blocks-Longest}

abbrev event : String → ℕ → String → List String → MemoryEvent
event id epoch kind tags = record {
  id = id;
  stream_id = "s1";
  parent_id = "genesis";
  epoch = epoch;
  memory_type = kind;
  tags = tags;
  importance = "0.5";
  summary = none;
  embedding = none;
  project = none;
  content_blob_id = "b";
  attributions = [];
  agent_id = some "a1";
  event_hash = none;
  signature = none;
  public_key = none;
}

abbrev timeline : List Entry
timeline =
    (memory (event "e1" 1 "episodic" []), ("text", str "the first thing that was seen") ∷ [])
    ∷ (
      memory (event "e2" 2 "summary" ("checkpoint" ∷ [])),
      ("checkpoint_summary", str "seen so far") ∷ [],
    )
    ∷ (memory (event "e3" 3 "episodic" []), ("text", str "the last thing") ∷ [])
    ∷ []

abbrev show : Value → String
show (str s) = s
show _ = "?"

-- No score is less than another.
abbrev level : List Entry → Entry → Entry → Bool
level es a b = false

build_recall_context-IsBounded_example :
    let r = build_recall_context show level 12 true timeline in
    (r.token_estimate ≤ 12)
    × (text_length r.context ≤ 9 * 12)
    × (length r.sources ≡ r.events_included + r.checkpoints_included)
    × (unrepeated r.sources ≡ true)
    × All (λ s. contains_text s (map (λ e. stored_id e.0) timeline) ≡ true) r.sources
build_recall_context-IsBounded_example = build_recall_context-IsBounded show level 12 true timeline

-- The budget holds the checkpoint and the newest event, and not the older one.
recall_sources : (build_recall_context show level 12 true timeline).sources ≡ "e2" ∷ "e3" ∷ []
unfolding build_recall_context truthy get_or lookup estimate_tokens content_of join text_values
    author_label get
recall_sources = refl

latest_blocks-Longest_example :
    Longest 8 0
      (map (format_event show (λ n. "1")) timeline)
      (reverse (latest_blocks show (λ n. "1") 8 timeline))
latest_blocks-Longest_example = latest_blocks-Longest show (λ n. "1") 8 timeline
