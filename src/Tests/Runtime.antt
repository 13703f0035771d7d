-- ===== src/Tests/Runtime.antt =====
-- The event mesh and the presence store of walrusos/runtime on concrete data.
use walrus_os.Base.{String, ◌≡◌, refl, true, false, none, some, List, [], ◌∷◌}
use walrus_os.Base.Dict.{lookup}
use walrus_os.Model.Event.{MemoryEvent}
use walrus_os.Runtime.Pattern.{matches}
use walrus_os.Runtime.Mesh
use walrus_os.Runtime.Mesh.{Mesh, poll, subscribe}
use walrus_os.Runtime.Mesh.Queue.{publish_all, poll-subscribe}
use walrus_os.Runtime.Session.{Session, new_session, is_stale}

wildcard_matches : matches "memory.*" "memory.created" ≡ true
unfolding matches
wildcard_matches = refl

wildcard_needs_dot : matches "memory.*" "memory" ≡ false
unfolding matches
wildcard_needs_dot = refl

abbrev note : String → MemoryEvent
note id = record {
  id = id;
  stream_id = "s";
  parent_id = "genesis";
  epoch = 1;
  memory_type = "semantic";
  tags = [];
  importance = "0.5";
  summary = none;
  embedding = none;
  project = none;
  content_blob_id = "b";
  attributions = [];
  agent_id = none;
  event_hash = none;
  signature = none;
  public_key = none;
}

abbrev two_notes : List MemoryEvent
two_notes = note "e1" ∷ note "e2" ∷ []

-- Another agent has a callback on the stream.
abbrev busy : Mesh
busy = record Mesh.clear { stream_subs = ("s", ("other", some "cb") ∷ []) ∷ [] }

poll-subscribe_example :
    let (got, m') = poll "a" "s" (publish_all two_notes (subscribe "a" "s" none busy)) in
    (got ≡ two_notes) × ((poll "a" "s" m').0 ≡ [])
unfolding lookup
poll-subscribe_example = poll-subscribe "a" "s" two_notes busy refl refl (refl, (refl, tt))

abbrev session : Session
session = new_session "id" "a" "Ada" "w" "custom" 5

-- A session is stale only after 30 full seconds, and one more.
barely_stale : is_stale 31000005 session ≡ true
unfolding is_stale
barely_stale = refl

not_stale : is_stale 31000004 session ≡ false
unfolding is_stale
not_stale = refl
