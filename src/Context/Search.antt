-- ===== src/Context/Search.antt =====
-- `MemorySearch` of walrusos/engine/search.py, over the in-memory ledger. The vector index ranks by
-- floats: the ids that it finds for a query and a limit are a parameter.
use walrus_os.Base.{
  ℕ, ◌-◌, String, Bool, false, Option, none, some, List, [], ◌∷◌, ◌==◌, length, drop, take, keep_if,
  eqb, contains_text, or_default, if◌then◌else◌,
}
use walrus_os.Base.Result.{ok, err}
use walrus_os.Model.Value.{Payload, Value, get, truthy}
use walrus_os.Adapters.Ledger.{get_event, memory, protocol, StoredEvent}
use walrus_os.Recovery.Engine.{join}
use walrus_os.Memory.State.{Engine, Env}
use walrus_os.Memory.Read.{read, timeline}
use walrus_os.Context.Entry.{Entry, memory_type_of, tags_of}

-- `xs[-n:]`: all of them for zero
unfoldable pub last_n : {A : Type 0} → ℕ → List A → List A
last_n n xs = if eqb n 0 then xs else drop (length xs - n) xs

-- One hit: an empty id, a missing event and an error of `read` are passed over.
unfoldable pub hit : Env → String → Engine → Option Entry
hit env doc_id s = elim (get_event doc_id s.ledger) [
  | none ↦ none
  | some e ↦ elim (read env doc_id s) [
    | err x ↦ none
    | ok p ↦ if doc_id == "" then none else some (e, p)
  ]
]

unfoldable pub hits : Env → List String → Engine → List Entry
unfolding hit
hits env [] s = []
hits env (d ∷ ds) s =
    let rest = hits env ds s in elim (hit env d s) [ none ↦ rest | some e ↦ e ∷ rest ]

-- The stream of the search is not asked for.
unfoldable pub search : Env → (String → ℕ → List String) → String → ℕ → Engine → List Entry
unfolding hits
search env find query limit s = take limit (hits env (find query limit) s)

unfoldable pub latest : Env → String → ℕ → Engine → List Entry
unfolding last_n
latest env stream_id n s = last_n n (timeline env stream_id s)

-- `getattr(ev, "agent_id", None) == agent_id`
abbrev pub is_by : StoredEvent → String → Bool
is_by (memory e) a = elim e.agent_id [ none ↦ false | some b ↦ b == a ]
is_by (protocol e) a = elim e.agent_id [ none ↦ false | some b ↦ b == a ]

unfoldable pub by_agent : Env → String → String → ℕ → Engine → List Entry
unfolding last_n
by_agent env stream_id agent_id limit s =
    last_n limit (keep_if (λ e. is_by e.0 agent_id) (timeline env stream_id s))

-- A protocol event has no memory type; the type asked for is not empty.
unfoldable pub by_type : Env → String → String → ℕ → Engine → List Entry
unfolding last_n
by_type env stream_id memory_type limit s =
    last_n limit (keep_if (λ e. memory_type_of e.0 == memory_type) (timeline env stream_id s))

unfoldable pub by_tag : Env → String → String → ℕ → Engine → List Entry
unfolding last_n
by_tag env stream_id tag limit s =
    last_n limit (keep_if (λ e. contains_text tag (tags_of e.0)) (timeline env stream_id s))

-- `within` parses a time and says whether it is in the range; `none` where it raises, or where the
-- time is no text.
unfoldable pub timeline_between : Env → (Value → Option Bool) → String → Engine → List Entry
timeline_between env within stream_id s =
    keep_if
      (λ e.
        if truthy (get "timestamp" e.1)
        then or_default (within (get "timestamp" e.1)) false
        else false)
      (timeline env stream_id s)

-- The text and number values of a payload; `show` is `none` for any other value.
unfoldable pub shown_values : (Value → Option String) → Payload → List String
shown_values show [] = []
shown_values show ((k, v) ∷ p) =
    let rest = shown_values show p in elim (show v) [ none ↦ rest | some t ↦ t ∷ rest ]

unfoldable pub related :
    Env → (String → ℕ → List String) → String → String → ℕ → Engine → List Entry
unfolding shown_values search latest
related env find stream_id event_id limit s = elim (read env event_id s) [
  | err x ↦ latest env stream_id limit s
  | ok p ↦ search env find (join " " (shown_values env.show p)) limit s
]
