-- ===== src/TimeTravel.antt =====
-- walrusos/engine/time_travel.py: `TimeTravelEngine`, over streams of events of both kinds.
pub mod Ancestor
pub mod Graft
pub mod Sealed
use walrus_os.Base.{
  ℕ, ◌+◌, String, Bool, true, false, Option, none, some, List, [], ◌∷◌, ◌==◌, any_of, map, drop,
  length, if◌then◌else◌,
}
use Prim.Native.String.{compare}
use Prim.Native.Nat.{Ordering}
use walrus_os.Base.Result.{
  Result, ok, err, value_error, crypto_error, attribute_error, or_raise, ◌>>=◌,
}
use walrus_os.Model.Value.{Payload, str, num}
use walrus_os.Model.Event.{ProtocolEvent, EventType, memory_forked, memory_merged, is_memory_forked}
use walrus_os.Model.Crypto.{Primitives, canonicalize_payload, hash_payload}
use walrus_os.Adapters.Ledger.{
  Ledger, StoredEvent, memory, protocol, stored_id, list_events, append_event,
}
use walrus_os.Projection.Workspace.{Workspace, apply_workspace_event}
use walrus_os.Replay.Engine
use walrus_os.Replay.Fetch.{fetch_events}

-- When the `i`th event of a list is asked for its timestamp: a memory event answers with the time of
-- the clock.
abbrev pub Clock : Type 0
Clock = ℕ → String

abbrev pub timestamp : Clock → ℕ → StoredEvent → String
timestamp clock i (memory e) = clock i
timestamp clock i (protocol e) = e.timestamp

-- The sort asks each event once, in the order of the list.
unfoldable pub stamped : Clock → ℕ → List StoredEvent → List (String × StoredEvent)
stamped clock i [] = []
stamped clock i (e ∷ es) = (timestamp clock i e, e) ∷ stamped clock (i + 1) es

-- `s < t`, as texts
abbrev pub earlier : String → String → Bool
earlier s t = elim (compare s t) [ Ordering.lt ↦ true | _ ↦ false ]

-- `sorted` by the timestamp, which keeps the order of equal ones.
unfoldable pub place :
    String × StoredEvent → List (String × StoredEvent) → List (String × StoredEvent)
place e [] = e ∷ []
place e (x ∷ xs) = let rest = place e xs in if earlier x.0 e.0 then x ∷ rest else e ∷ x ∷ xs

unfoldable pub sort : List (String × StoredEvent) → List (String × StoredEvent)
unfolding place
sort [] = []
sort (e ∷ es) = place e (sort es)

unfoldable pub get_stream_lineage : Clock → String → Ledger → List StoredEvent
unfolding sort stamped
get_stream_lineage clock stream_id l =
    map (λ r. r.1) (sort (stamped clock 0 (list_events stream_id l)))

-- The loop over the pairs: the last common event and how many are common.
unfoldable pub walk :
    Option StoredEvent → ℕ → List StoredEvent → List StoredEvent → Option StoredEvent × ℕ
walk lca n [] ys = (lca, n)
walk lca n (a ∷ xs) [] = (lca, n)
walk lca n (a ∷ xs) (b ∷ ys) =
    let rest = walk (some a) (n + 1) xs ys in if stored_id a == stored_id b then rest else (lca, n)

-- The first event of the id, and the index after it.
unfoldable pub find_parent : Option String → ℕ → List StoredEvent → Option (StoredEvent × ℕ)
find_parent none n xs = none
find_parent (some id) n [] = none
find_parent (some id) n (a ∷ xs) =
    let rest = find_parent (some id) (n + 1) xs in
    if stored_id a == id then some (a, n + 1) else rest

abbrev pub Divergence : Type 0
Divergence = Option StoredEvent × List StoredEvent × List StoredEvent

abbrev pub by_parent : Option (StoredEvent × ℕ) → List StoredEvent → List StoredEvent → Divergence
by_parent none xs ys = (none, xs, ys)
by_parent (some (a, n)) xs ys = (some a, drop n xs, ys)

-- The case that a branch starts with a fork of the other stream. A memory event has no event type.
abbrev pub by_fork : List StoredEvent → List StoredEvent → Result Divergence
by_fork xs [] = ok (none, xs, [])
by_fork xs (memory b ∷ ys) = err attribute_error
by_fork xs (protocol b ∷ ys) = ok (
    if is_memory_forked b.event_type
    then by_parent (find_parent b.parent_event 0 xs) xs (protocol b ∷ ys)
    else (none, xs, protocol b ∷ ys))

abbrev pub after_walk :
    Option StoredEvent × ℕ → List StoredEvent → List StoredEvent → Result Divergence
after_walk (none, n) xs ys = by_fork (drop n xs) (drop n ys)
after_walk (some e, n) xs ys = ok (some e, drop n xs, drop n ys)

unfoldable pub diverge : List StoredEvent → List StoredEvent → Result Divergence
unfolding walk find_parent
diverge xs ys = after_walk (walk none 0 xs ys) xs ys

-- The lineages are read one after the other, each at its times.
unfoldable pub find_lca : Clock → Clock → String → String → Ledger → Result Divergence
unfolding diverge get_stream_lineage
find_lca first second stream_a stream_b l =
    diverge (get_stream_lineage first stream_a l) (get_stream_lineage second stream_b l)

abbrev pub fork_payload : String → String → String → Payload
fork_payload new_stream original_stream fork_event_id =
    ("stream_id", str new_stream)
    ∷ ("original_stream_id", str original_stream)
    ∷ ("forked_at", str fork_event_id)
    ∷ []

-- A new event whose id is the hash of its payload.
abbrev pub branch_event :
    EventType
    → String
    → String
    → String
    → String
    → Payload
    → String
    → String
    → String
    → ProtocolEvent
branch_event type workspace_id agent_id wallet parent payload hash signature now = record {
  event_id = hash;
  event_type = type;
  workspace_id = workspace_id;
  agent_id = some agent_id;
  wallet = wallet;
  blob_id = none;
  blob_hash = none;
  parent_event = some parent;
  previous_hash = some parent;
  signature = signature;
  timestamp = now;
  transaction_digest = none;
  payload = payload;
}

-- `lineage[0].workspace_id if lineage else "unknown"`: a memory event has no workspace.
abbrev pub first_workspace : List StoredEvent → Result String
first_workspace [] = ok "unknown"
first_workspace (memory e ∷ es) = err attribute_error
first_workspace (protocol e ∷ es) = ok e.workspace_id

abbrev pub last_id : List StoredEvent → Option StoredEvent → String
last_id [] none = "genesis"
last_id [] (some e) = stored_id e
last_id (e ∷ es) lca = last_id es (some e)

abbrev pub merge_payload : String → String → ℕ → Payload
merge_payload target_stream source_stream n =
    ("stream_id", str target_stream)
    ∷ ("merged_from_stream", str source_stream)
    ∷ ("divergent_events_merged", num n)
    ∷ []

module _ (c : Primitives) where
  -- A signature is a text, which has no method `hex`.
  abbrev pub signed : Option String → Result String
  signed none = err crypto_error
  signed (some s) = err attribute_error

  -- The signature of a new event: without a key it is that of the migration.
  unfoldable pub sign_with : String → String → Result String
  sign_with private_key_hex hash =
      if private_key_hex == ""
      then ok "v0_migration"
      else or_raise (c.from_hex private_key_hex) value_error >>= λ key.
          if key == "" then ok "v0_migration" else signed (c.sign key hash)

  -- The hash and the signature of a payload.
  unfoldable pub seal : String → Payload → Result (String × String)
  unfolding sign_with
  seal private_key_hex payload = or_raise (canonicalize_payload c payload) value_error >>= λ bytes.
      sign_with private_key_hex (hash_payload c bytes) >>= λ signature.
      ok (hash_payload c bytes, signature)

  unfoldable pub fork_stream :
      Clock
      → String
      → String
      → String
      → String
      → String
      → String
      → String
      → Ledger
      → Result (String × Ledger)
  unfolding seal get_stream_lineage
  fork_stream clock agent_id wallet original_stream fork_event_id private_key_hex new_stream now l =
      let lineage = get_stream_lineage clock original_stream l in
      let payload = fork_payload new_stream original_stream fork_event_id in
      if any_of (λ e. stored_id e == fork_event_id) lineage
      then (seal private_key_hex payload >>= λ r. first_workspace lineage >>= λ workspace_id.
          append_event new_stream
            (protocol (
              branch_event memory_forked workspace_id agent_id wallet fork_event_id payload r.0 r.1
                now))
            l
          >>= λ l'. ok (new_stream, l'))
      else err value_error

  unfoldable pub merge_streams :
      Clock
      → Clock
      → String
      → String
      → String
      → String
      → String
      → String
      → Ledger
      → Result (String × Ledger)
  unfolding seal find_lca
  merge_streams first second agent_id wallet source_stream target_stream private_key_hex now l =
      find_lca first second target_stream source_stream l
      >>= λ (lca, divergent_target, divergent_source).
          let payload = merge_payload target_stream source_stream (length divergent_source) in
          seal private_key_hex payload >>= λ r.
          append_event target_stream
            (protocol (
              branch_event memory_merged "unknown" agent_id wallet (last_id divergent_target lca)
                payload r.0 r.1 now))
            l
          >>= λ l'. ok (r.0, l')

-- The fold of `project_to_time`, which does not catch what an event raises.
unfoldable pub project : Option Workspace → List ProtocolEvent → Result (Option Workspace)
project state [] = ok state
project state (e ∷ es) = apply_workspace_event state e >>= λ w. project (some w) es

-- `project_to_time`: the checks of the replay are on, as by default.
unfoldable pub project_to_time :
    Primitives
    → (String → String → Option Bool)
    → String
    → String
    → Ledger
    → Result (Option Workspace)
unfolding project
project_to_time c later workspace_id timestamp l =
    Engine.replay c later
      (record {
        until_timestamp = some timestamp;
        until_event = none;
        verify_crypto = true;
        verify_capabilities = true;
      })
      (fetch_events (some workspace_id) none none l)
    >>= λ es. project none es
