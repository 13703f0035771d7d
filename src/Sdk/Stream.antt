-- ===== src/Sdk/Stream.antt =====
-- `StreamClient` of walrusos/sdk/stream.py over the memory engine: reading, replaying, branching.
use walrus_os.Base.{
  ℕ, ◌+◌, String, Bool, true, false, ◌&&◌, Option, none, some, List, [], ◌∷◌, leb, map,
  if◌then◌else◌,
}
use walrus_os.Base.Result.{Result, ok, ◌>>=◌}
use walrus_os.Model.Value.{Payload}
use walrus_os.Model.Event.{MemoryEvent}
use walrus_os.Memory.State.{Engine, Env, Fresh}
use walrus_os.Memory.Read
use walrus_os.Memory.Read.{epoch_or, at_most}
use walrus_os.Memory.Branch
use walrus_os.Context.Entry.{Entry, strip_internal}

-- A client: its stream, whether it has been registered, and the agent that it is bound to.
pub record StreamClient : Type 0 where
  pub stream_id : String
  pub initialized : Bool
  pub bound_agent : Option String

abbrev pub strip_entry : Entry → Entry
strip_entry e = (e.0, strip_internal e.1)

-- `_ensure_initialized`: without an agent nothing is registered, but the flag is set.
unfoldable pub ensure_initialized : Option String → StreamClient → Engine → StreamClient × Engine
ensure_initialized agent_id c s =
    let s' : Engine = elim agent_id [
      | some a ↦ Branch.register_stream c.stream_id s
      | none ↦ elim c.bound_agent [ some a ↦ Branch.register_stream c.stream_id s | none ↦ s ]
    ] in
    if c.initialized then (c, s) else (record c { initialized = true }, s')

-- The reading part of `timeline`, after the registration.
unfoldable pub timeline : Env → Bool → StreamClient → Engine → List Entry
unfolding strip_internal
timeline env include_metadata c s =
    let raw = Read.timeline env c.stream_id s in
    if include_metadata then raw else map strip_entry raw

-- `_strip_internal(raw) if raw else None`; a missing event raises in `read`.
unfoldable pub get : Env → String → Engine → Result (Option Payload)
unfolding strip_internal
get env event_id s = Read.read env event_id s >>= λ raw.
    ok (elim raw [ [] ↦ none | x ∷ xs ↦ some (strip_internal (x ∷ xs)) ])

-- The loop of `replay`, with its counter.
unfoldable pub keep_range : Option ℕ → ℕ → ℕ → List Entry → List Entry
keep_range up_to first i [] = []
keep_range up_to first i ((e, p) ∷ full) =
    let rest = keep_range up_to first (i + 1) full in
    if leb first (epoch_or e i) && at_most (epoch_or e i) up_to then (e, p) ∷ rest else rest

unfoldable pub replay : Env → Option ℕ → ℕ → StreamClient → Engine → List Entry
unfolding keep_range timeline
replay env up_to first c s = keep_range up_to first 1 (timeline env false c s)

-- The client of the new branch has the agent of this one.
unfoldable pub fork :
    Env → String → String → Fresh → StreamClient → Engine → Result StreamClient × Engine
fork env from_event_id new_id f c s =
    let r = Branch.fork env c.stream_id from_event_id new_id f s in
    (
      r.0 >>= λ new_stream.
          ok (record { stream_id = new_stream; initialized = true; bound_agent = c.bound_agent }),
      r.1,
    )

unfoldable pub merge :
    Env → StreamClient → Fresh → StreamClient → Engine → Result MemoryEvent × Engine
merge env source f c s = Branch.merge env c.stream_id source.stream_id f s
