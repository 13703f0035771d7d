-- ===== src/Context/Entry.antt =====
-- The events of a timeline with their payloads, and the parts of them that contexts show.
use walrus_os.Base.{
  ℕ, zero, suc, String, Bool, not, Option, none, some, List, [], ◌∷◌, ◌==◌, or_default, ltb,
  contains_text, keep_if, if◌then◌else◌,
}
use walrus_os.Model.Value.{Payload, Value, get, truthy, text_values}
use walrus_os.Adapters.Ledger.{StoredEvent, memory, protocol}
use walrus_os.Recovery.Engine.{join}

abbrev pub Entry : Type 0
Entry = StoredEvent × Payload

-- `_INTERNAL_PAYLOAD_KEYS`
abbrev pub internal_keys : List String
internal_keys =
    "author" ∷ "agent_id" ∷ "trust_root" ∷ "public_key" ∷ "workspace_id" ∷ "stream_id"
    ∷ "class_type" ∷ "memory_type" ∷ []

unfoldable pub strip_internal : Payload → Payload
strip_internal p = keep_if (λ e. not (contains_text e.0 internal_keys)) p

-- `getattr(ev, "memory_type", "")`, and so for the other fields that a protocol event has not
abbrev pub memory_type_of : StoredEvent → String
memory_type_of (memory e) = e.memory_type
memory_type_of (protocol e) = ""

abbrev pub tags_of : StoredEvent → List String
tags_of (memory e) = e.tags
tags_of (protocol e) = []

abbrev pub epoch_of : StoredEvent → ℕ
epoch_of (memory e) = e.epoch
epoch_of (protocol e) = 0

abbrev pub agent_id_of : StoredEvent → Option String
agent_id_of (memory e) = e.agent_id
agent_id_of (protocol e) = e.agent_id

abbrev pub is_summary : StoredEvent → Bool
is_summary e = memory_type_of e == "summary"

-- `text[:n]`
unfoldable pub prefix : ℕ → String → String
prefix zero s = ""
prefix (suc n) String.[] = ""
prefix (suc n) (String.◌∷◌ c s) = String.◌∷◌ c (prefix n s)

abbrev pub or_text : String → String → String
or_text s t = if s == "" then t else s

-- `payload.get("author") or (ev.agent_id or "")[:8] or "agent"`; `show` is `str` of a value.
unfoldable pub author_label : (Value → String) → StoredEvent → Payload → String
unfolding prefix
author_label show e p =
    if truthy (get "author" p)
    then show (get "author" p)
    else or_text (prefix 8 (or_default (agent_id_of e) "")) "agent"

-- `" ".join(v for v in stripped.values() if isinstance(v, str) and v)`
unfoldable pub content_of : Payload → String
unfolding strip_internal
content_of p = join " " (keep_if (λ s. not (s == "")) (text_values (strip_internal p)))

-- `list.sort(key=..., reverse=True)`: highest first; entries that tie keep their order. `less a b`
-- says that the key of `a` is less than that of `b`.
module _ {A : Type 0} (less : A → A → Bool) where
  unfoldable pub place_down : A → List A → List A
  place_down x [] = x ∷ []
  place_down x (y ∷ ys) = let rest = place_down x ys in if less x y then y ∷ rest else x ∷ y ∷ ys

  unfoldable pub sort_down : List A → List A
  unfolding place_down
  sort_down [] = []
  sort_down (x ∷ xs) = place_down x (sort_down xs)

-- `rank_events`: the scores are floats, and `less` compares those that the events have in the list.
unfoldable pub rank_events : (List Entry → Entry → Entry → Bool) → List Entry → List Entry
unfolding sort_down
rank_events less events = sort_down (less events) events

-- `max(xs, key=...)`: the first of the highest.
unfoldable pub latest_of : List Entry → Option Entry
latest_of [] = none
latest_of (x ∷ xs) = elim (latest_of xs) [
  | none ↦ some x
  | some y ↦ some (if ltb (epoch_of x.0) (epoch_of y.0) then y else x)
]
