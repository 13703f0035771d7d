-- ===== src/Tests/Adapters.antt =====
-- The in-memory adapters of walrusos/adapters/in_memory.py on concrete data.
use walrus_os.Base.{String, ◌≡◌, refl, List, [], ◌∷◌}
use walrus_os.Base.Result.{ok}
use walrus_os.Base.Dict.{lookup, insert}
use walrus_os.Adapters.Storage
use walrus_os.Adapters.Storage.{Storage, IsAddressed}
use walrus_os.Adapters.Ledger.{Ledger, protocol, append_event}
use walrus_os.Adapters.Vector
use walrus_os.Adapters.Vector.{Vector, upsert, delete}
use walrus_os.Adapters.Vector.Frequency.{IsExact, upsert-IsExact, changes-IsExact}
use walrus_os.Tests.Data.{hash, write, pause}

empty-IsAddressed : IsAddressed hash Storage.empty
unfolding lookup
empty-IsAddressed k = tt

abbrev ledger : Ledger
ledger = record {
  streams = ("s1", "genesis") ∷ ("s2", "e1") ∷ [];
  events = ("e1", protocol pause) ∷ [];
  order = ("s2", "e1" ∷ []) ∷ [];
  agent_events = [];
  workspace_events = [];
}

abbrev after_write : Ledger
after_write = record {
  streams = ("s1", "e2") ∷ ("s2", "e1") ∷ [];
  events = ("e1", protocol pause) ∷ ("e2", protocol write) ∷ [];
  order = ("s2", "e1" ∷ []) ∷ ("s1", "e2" ∷ []) ∷ [];
  agent_events = [];
  workspace_events = [];
}

appended : append_event "s1" (protocol write) ledger ≡ ok after_write
unfolding append_event lookup insert
appended = refl

tokens : String → List String
tokens s = s ∷ "common" ∷ s ∷ []

empty-IsExact : IsExact Vector.empty
unfolding lookup
empty-IsExact = record { unique = tt; terms = tt; exact = λ t. refl }

abbrev indexed : Vector
indexed = upsert tokens "d1" "sea" [] Vector.empty

indexed-IsExact : IsExact indexed
indexed-IsExact = upsert-IsExact tokens "d1" "sea" [] Vector.empty empty-IsExact

changes-IsExact_example :
    IsExact (upsert tokens "d1" "sky" [] indexed) × IsExact (delete "d1" indexed)
changes-IsExact_example = changes-IsExact tokens "d1" "sky" [] indexed indexed-IsExact
