-- ===== src/Tests/TimeTravel.antt =====
-- Time travel of walrusos/engine/time_travel.py on concrete data.
use walrus_os.Base.{◌≢◌, refl, none, String, [], ◌∷◌, arith, eq_iff}
use walrus_os.Base.Result.{ok}
use walrus_os.Model.Event.{ProtocolEvent, MemoryEvent}
use walrus_os.Adapters.Ledger
use walrus_os.Adapters.Ledger.{Ledger, memory, protocol}
use walrus_os.TimeTravel.{fork_stream, merge_streams, Clock}
use walrus_os.TimeTravel.Sealed.{grafted, signed_never_returns}
use walrus_os.Tests.Data.{toy, registration, pause, write}

abbrev memory_event : MemoryEvent
memory_event = record {
  id = "m1";
  stream_id = "s";
  parent_id = "genesis";
  epoch = 1;
  memory_type = "semantic";
  tags = [];
  importance = "0.5";
  summary = none;
  embedding = none;
  project = none;
  content_blob_id = "#json";
  attributions = [];
  agent_id = none;
  event_hash = none;
  signature = none;
  public_key = none;
}

-- A stream of both kinds of event; a memory event is as late as its reading.
abbrev ledger : Ledger
ledger = record Ledger.empty {
  events =
      ("e0", protocol registration)
      ∷ ("m1", memory memory_event)
      ∷ ("e1", protocol pause)
      ∷ ("e2", protocol write)
      ∷ [];
  order = ("s", "e0" ∷ "m1" ∷ "e1" ∷ "e2" ∷ []) ∷ [];
}

abbrev at : String → Clock
at time i = time

abbrev grafted_here : ProtocolEvent
grafted_here =
    grafted toy "a1" "0x1" "s" "e1" "t" "2027" "json" ledger (at "2027") registration
      (protocol pause ∷ protocol write ∷ memory memory_event ∷ [])

signed_never_returns_example :
    (fork_stream toy (at "2027") "a1" "0x1" "s" "e1" "k" "t" "2027" ledger ≢ ok ("t", ledger))
    × (merge_streams toy (at "2027") (at "2027") "a1" "0x1" "s" "e1" "k" "2027" ledger
        ≢ ok ("t", ledger))
signed_never_returns_example =
    signed_never_returns toy (at "2027") (at "2027") "a1" "0x1" "s" "e1" "k" "k" "t" "2027" ledger
      ("t", ledger) (λ p. absurd (ground (arith, eq_iff "k" ""))) refl
      (λ p. absurd (ground (arith, eq_iff "k" "")))
