-- ===== src/Replay/Fetch.antt =====
-- `ReplayEngine.fetch_events`: the log that a replay walks.
use walrus_os.Base.{String, Bool, Option, none, some, List, [], ◌==◌, keep_if, if◌then◌else◌}
use walrus_os.Model.Value.{get}
use walrus_os.Model.Event.{ProtocolEvent}
use walrus_os.Adapters.Ledger.{Ledger, get_events_for_agent, get_events_for_workspace}
use walrus_os.Projection.Agent.{is_text}

-- `e.payload.get("stream_id") == stream_id`
abbrev pub in_stream : String → ProtocolEvent → Bool
in_stream stream_id e = is_text stream_id (get "stream_id" e.payload)

abbrev pub only_stream : Option String → List ProtocolEvent → List ProtocolEvent
only_stream none es = es
only_stream (some stream_id) es = if stream_id == "" then es else keep_if (in_stream stream_id) es

abbrev pub of_workspace : Option String → Option String → Ledger → List ProtocolEvent
of_workspace none stream_id l = []
of_workspace (some w) stream_id l =
    if w == "" then [] else only_stream stream_id (get_events_for_workspace w l)

-- An agent's events come first, whatever the other arguments say.
unfoldable pub fetch_events :
    Option String → Option String → Option String → Ledger → List ProtocolEvent
fetch_events workspace_id none stream_id l = of_workspace workspace_id stream_id l
fetch_events workspace_id (some agent_id) stream_id l =
    if agent_id == ""
    then of_workspace workspace_id stream_id l
    else get_events_for_agent agent_id l
