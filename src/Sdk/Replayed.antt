-- ===== src/Sdk/Replayed.antt =====
-- What the clients of streams return, against the memory engine.
use walrus_os.Base.{
  ℕ, ◌+◌, String, ◌≡◌, refl, not, Option, none, List, [], ◌∷◌, arith, map, if◌then◌else◌,
  contains_text,
}
use walrus_os.Base.Dict.{lookup, lookup-keep_if}
use walrus_os.Base.Result.{err, key_error}
use walrus_os.Model.Value.{Payload}
use walrus_os.Adapters.Ledger.{get_event}
use walrus_os.Memory.State.{Engine, Env}
use walrus_os.Memory.Read
use walrus_os.Memory.Read.{in_range}
use walrus_os.Context.Entry.{Entry, strip_internal, internal_keys}
use walrus_os.Sdk.Stream
use walrus_os.Sdk.Stream.{StreamClient, strip_entry, keep_range}

keep_range-strip :
    (up_to : Option ℕ) (first i : ℕ) (tl : List Entry)
    → map (λ e. e.1) (keep_range up_to first i (map strip_entry tl))
      ≡ map strip_internal (in_range up_to first i tl)
unfolding keep_range in_range strip_internal
keep_range-strip up_to first i [] = refl
keep_range-strip up_to first i ((e, p) ∷ tl) =
    ground (arith, keep_range-strip up_to first (i + 1) tl)

pub lookup-strip_internal :
    (k : String) (p : Payload)
    → lookup k (strip_internal p)
      ≡ (if not (contains_text k internal_keys) then lookup k p else none)
unfolding strip_internal
lookup-strip_internal k p = lookup-keep_if (λ j. not (contains_text j internal_keys)) k p

-- The replay of a stream client returns, event by event, the payloads that the replay of the
-- memory engine returns for the same range, less the internal keys.
pub replay_agrees :
    (env : Env) (up_to : Option ℕ) (first : ℕ) (c : StreamClient) (s : Engine)
    → map (λ e. e.1) (Stream.replay env up_to first c s)
      ≡ map strip_internal (Read.replay env c.stream_id up_to first s)
unfolding Stream.replay Stream.timeline Read.replay
replay_agrees env up_to first c s = keep_range-strip up_to first 1 (Read.timeline env c.stream_id s)

-- An event that the ledger does not have is a `KeyError` for `get`, not `None`.
pub get_missing :
    (env : Env) (event_id : String) (s : Engine)
    → get_event event_id s.ledger ≡ none
    → Stream.get env event_id s ≡ err key_error
unfolding Stream.get Read.read
get_missing env event_id s h = rw h refl
