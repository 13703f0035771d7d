-- ===== src/Projection/Workspace.antt =====
-- `ProjectionEngine.apply_workspace_event` and `EventStoreEngine.replay_workspace`.
use walrus_os.Base.{
  String, Bool, true, false, if◌then◌else◌, ◌≡◌, refl, Option, none, some, List, [], ◌∷◌, arith,
}
use walrus_os.Base.Result.{Result, ok, err, value_error}
use walrus_os.Model.Value.{Value, str, get_or}
use walrus_os.Model.Event.{ProtocolEvent, EventType, workspace_created, workspace_deleted}

-- The dict that the projection returns.
pub record Workspace : Type 0 where
  pub workspace_id : String
  pub name : Value
  pub owner_wallet : String
  pub created_at : String
  pub status : String

-- The dict of a new workspace.
abbrev pub created : ProtocolEvent → Workspace
created e = record {
  workspace_id = e.workspace_id;
  name = get_or "name" (str "") e.payload;
  owner_wallet = e.wallet;
  created_at = e.timestamp;
  status = "active";
}

abbrev pub is_deletion : EventType → Bool
is_deletion workspace_deleted = true
is_deletion _ = false

abbrev pub create : Option Workspace → ProtocolEvent → Result Workspace
create none e = ok (created e)
create (some w) e = err value_error

abbrev pub delete : Option Workspace → Result Workspace
delete none = err value_error
delete (some w) = ok (record w { status = "deleted" })

abbrev pub unchanged : Option Workspace → Result Workspace
unchanged none = err value_error
unchanged (some w) = ok w

abbrev pub dispatch : EventType → Option Workspace → ProtocolEvent → Result Workspace
dispatch workspace_created state e = create state e
dispatch workspace_deleted state e = delete state
dispatch _ state e = unchanged state

unfoldable pub apply_workspace_event : Option Workspace → ProtocolEvent → Result Workspace
apply_workspace_event state e = dispatch e.event_type state e

abbrev pub keep_state : Option Workspace → Result Workspace → Option Workspace
keep_state state (ok w) = some w
keep_state state (err _) = state

unfoldable pub replay_from : Option Workspace → List ProtocolEvent → Option Workspace
replay_from state [] = state
replay_from state (e ∷ es) = replay_from (keep_state state (apply_workspace_event state e)) es

unfoldable pub replay_workspace : List ProtocolEvent → Option Workspace
replay_workspace es = replay_from none es

-- The status that a log leaves: a deletion is final.
unfoldable pub is_deleted : List ProtocolEvent → Bool
is_deleted [] = false
is_deleted (e ∷ es) = let rest = is_deleted es in if is_deletion e.event_type then true else rest

dispatch-known :
    (t : EventType) (e : ProtocolEvent) (w : Workspace)
    → keep_state (some w) (dispatch t (some w) e)
      ≡ some (if is_deletion t then record w { status = "deleted" } else w)
dispatch-known workspace_created e w = refl
dispatch-known _ e w = refl

replay_from-known :
    (w : Workspace) (es : List ProtocolEvent)
    → replay_from (some w) es ≡ some (if is_deleted es then record w { status = "deleted" } else w)
unfolding replay_from apply_workspace_event is_deleted
replay_from-known w [] = refl
replay_from-known w (e ∷ es) =
    rw (dispatch-known e.event_type e w, replay_from)
      (ground (
        arith,
        replay_from-known (if is_deletion e.event_type then record w { status = "deleted" } else w)
            es,
      ))

-- From its creation on a workspace keeps all its fields but the status, whatever the log holds, and
-- it is deleted exactly if the log has a deletion.
pub replay_workspace_lem :
    (c : ProtocolEvent) (es : List ProtocolEvent)
    → c.event_type ≡ workspace_created
    → replay_workspace (c ∷ es)
      ≡ some (record {
        workspace_id = c.workspace_id;
        name = get_or "name" (str "") c.payload;
        owner_wallet = c.wallet;
        created_at = c.timestamp;
        status = if is_deleted es then "deleted" else "active";
      })
unfolding replay_workspace replay_from apply_workspace_event
replay_workspace_lem c es h = rw (h, replay_from) (ground (arith, replay_from-known (created c) es))
