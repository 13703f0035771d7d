-- ===== src/Adapters/Ledger.antt =====
-- `InMemoryLedger`: the events by id, the head and the order of each stream, and the indexes of
-- protocol events by agent and by workspace.
pub mod Append
use walrus_os.Base.{
  String, Option, none, some, List, [], ◌∷◌, ◌++◌, ◌==◌, or_default, if◌then◌else◌,
}
use walrus_os.Base.Dict.{Dict, lookup, insert, pop}
use walrus_os.Base.Result.{Result, ok, err, value_error}
use walrus_os.Model.Event.{MemoryEvent, ProtocolEvent}

-- The dict `events` holds both kinds of event.
pub data StoredEvent : Type 0 where
  memory : MemoryEvent → StoredEvent
  protocol : ProtocolEvent → StoredEvent

-- `getattr(event, "event_id", getattr(event, "id", None))`
abbrev pub stored_id : StoredEvent → String
stored_id (memory e) = e.id
stored_id (protocol e) = e.event_id

pub record Ledger : Type 0 where
  pub streams : Dict String
  pub events : Dict StoredEvent
  pub order : Dict (List String)
  pub agent_events : Dict (List ProtocolEvent)
  pub workspace_events : Dict (List ProtocolEvent)

abbrev pub empty : Ledger
empty = record { streams = []; events = []; order = []; agent_events = []; workspace_events = [] }

-- The entry of a `defaultdict(list)`
abbrev pub entries {ℓ} : {A : Type ℓ} → String → Dict (List A) → List A
entries k d = or_default (lookup k d) []

-- `uuid.uuid4()` is the first argument.
unfoldable pub create_stream : String → Ledger → String × Ledger
create_stream stream_id l = (stream_id, record l { streams = insert stream_id "genesis" l.streams })

unfoldable pub pop_all : List String → Dict StoredEvent → Dict StoredEvent
pop_all [] d = d
pop_all (eid ∷ ids) d = pop_all ids (pop eid d)

unfoldable pub delete_stream : String → Ledger → Ledger
unfolding pop_all
delete_stream stream_id l = record l {
  order = pop stream_id l.order;
  events = pop_all (entries stream_id l.order) l.events;
  streams = pop stream_id l.streams;
}

unfoldable pub append_event : String → StoredEvent → Ledger → Result Ledger
append_event stream_id event l =
    let ev_id = stored_id event in
    if ev_id == ""
    then err value_error
    else ok (record l {
      events = insert ev_id event l.events;
      streams = insert stream_id ev_id l.streams;
      order = insert stream_id (entries stream_id l.order ++ ev_id ∷ []) l.order;
    })

unfoldable pub get_event : String → Ledger → Option StoredEvent
get_event event_id l = lookup event_id l.events

-- Appends to the index of a key that counts as true.
abbrev pub index_at : String → ProtocolEvent → Dict (List ProtocolEvent) → Dict (List ProtocolEvent)
index_at k e d = if k == "" then d else insert k (entries k d ++ e ∷ []) d

unfoldable pub append_protocol_event : ProtocolEvent → Ledger → Ledger
append_protocol_event e l = record l {
  events = insert e.event_id (protocol e) l.events;
  agent_events = index_at (or_default e.agent_id "") e l.agent_events;
  workspace_events = index_at e.workspace_id e l.workspace_events;
}

unfoldable pub get_events_for_agent : String → Ledger → List ProtocolEvent
get_events_for_agent agent_id l = entries agent_id l.agent_events

unfoldable pub get_events_for_workspace : String → Ledger → List ProtocolEvent
get_events_for_workspace workspace_id l = entries workspace_id l.workspace_events

abbrev pub not_genesis : Option String → Option String
not_genesis none = none
not_genesis (some head) = if head == "genesis" then none else some head

unfoldable pub get_head : String → Ledger → Option String
get_head stream_id l = not_genesis (lookup stream_id l.streams)

-- `[self.events[eid] for eid in ids if eid in self.events]`
unfoldable pub present : List String → Dict StoredEvent → List StoredEvent
present [] d = []
present (eid ∷ ids) d =
    let rest = present ids d in elim (lookup eid d) [ none ↦ rest | some e ↦ e ∷ rest ]

unfoldable pub list_events : String → Ledger → List StoredEvent
unfolding present
list_events stream_id l = present (entries stream_id l.order) l.events
