-- ===== src/Tasks.antt =====
-- walrusos/sdk/task.py: `TaskClient`, over walrusos/core/models/task.py and the task table of
-- `InMemoryLedger`.
pub mod Sound
use walrus_os.Base.{
  ℕ, String, Bool, true, false, ◌&&◌, Option, none, some, List, [], ◌∷◌, ◌++◌, ◌==◌, contains_text,
  keep_if, if◌then◌else◌,
}
use walrus_os.Base.Dict.{Dict, lookup, insert, values}

pub data Status : Type 0 where
  pending in_progress review done failed : Status

pub record Task : Type 0 where
  pub task_id : String
  pub workspace_id : String
  pub title : String
  pub description : String
  pub created_by : String
  pub assigned_to : Option String
  pub status : Status
  pub priority : ℕ
  pub parent_task_id : Option String
  pub subtask_ids : List String
  pub memory_refs : List String
  pub artifact_refs : List String
  pub tags : List String
  pub created_at : String
  pub updated_at : String
  pub completed_at : Option String
  pub notes : String

unfoldable pub save_task : Task → Dict Task → Dict Task
save_task t tasks = insert t.task_id t tasks

unfoldable pub get_task : String → Dict Task → Option Task
get_task task_id tasks = lookup task_id tasks

abbrev pub status_name : Status → String
status_name pending = "pending"
status_name in_progress = "in_progress"
status_name review = "review"
status_name done = "done"
status_name failed = "failed"

-- An argument that is not given, or empty, filters nothing.
abbrev pub allows : Option String → (String → Bool) → Bool
allows none test = true
allows (some s) test = if s == "" then true else test s

abbrev pub is_assigned : Option String → String → Bool
is_assigned none agent = false
is_assigned (some a) agent = a == agent

unfoldable pub list_tasks :
    String → Option String → Option String → Option String → Dict Task → List Task
list_tasks workspace_id status assigned_to tag tasks =
    keep_if
      (λ t.
        (t.workspace_id == workspace_id)
        && allows status (λ s. status_name t.status == s)
        && allows assigned_to (is_assigned t.assigned_to)
        && allows tag (λ g. contains_text g t.tags))
      (values tasks)

-- A client: its task, and the table of the ledger.
pub record Desk : Type 0 where
  pub task : Task
  pub tasks : Dict Task

-- The task with its update time, which is saved.
abbrev pub saved : String → Task → Desk → Desk
saved now t d =
    let t' : Task = record t { updated_at = now } in
    record { task = t'; tasks = save_task t' d.tasks }

abbrev pub is_pending : Status → Bool
is_pending pending = true
is_pending _ = false

abbrev pub is_in_progress : Status → Bool
is_in_progress in_progress = true
is_in_progress _ = false

unfoldable pub assign : String → String → Desk → Desk
assign agent_id now d = saved now (record (d.task) { assigned_to = some agent_id }) d

unfoldable pub start : String → Desk → Desk
start now d =
    if is_pending d.task.status then saved now (record (d.task) { status = in_progress }) d else d

unfoldable pub submit_for_review : String → Desk → Desk
submit_for_review now d =
    if is_in_progress d.task.status then saved now (record (d.task) { status = review }) d else d

unfoldable pub complete : String → String → Desk → Desk
complete notes now d =
    saved now
      (record (d.task) {
        status = done;
        notes = if notes == "" then d.task.notes else notes;
        completed_at = some now;
      })
      d

unfoldable pub fail : String → String → Desk → Desk
fail reason now d = saved now (record (d.task) { status = failed; notes = reason }) d

unfoldable pub add_memory : String → String → Desk → Desk
add_memory event_id now d =
    if contains_text event_id d.task.memory_refs
    then d
    else saved now (record (d.task) { memory_refs = d.task.memory_refs ++ event_id ∷ [] }) d

unfoldable pub add_tag : String → String → Desk → Desk
add_tag tag now d =
    if contains_text tag d.task.tags
    then d
    else saved now (record (d.task) { tags = d.task.tags ++ tag ∷ [] }) d

-- A subtask of a task; its id is that of `uuid4`.
unfoldable pub subtask_of : Task → String → String → Option String → String → Task
subtask_of t new_id title assigned_to now = record {
  task_id = new_id;
  workspace_id = t.workspace_id;
  title = title;
  description = "";
  created_by = t.created_by;
  assigned_to = assigned_to;
  status = pending;
  priority = 3;
  parent_task_id = some t.task_id;
  subtask_ids = [];
  memory_refs = [];
  artifact_refs = [];
  tags = [];
  created_at = now;
  updated_at = now;
  completed_at = none;
  notes = "";
}

-- The subtask is saved first; its own client is left out.
unfoldable pub add_subtask : String → String → Option String → String → Desk → Desk
unfolding subtask_of
add_subtask new_id title assigned_to now d =
    saved now (record (d.task) { subtask_ids = d.task.subtask_ids ++ new_id ∷ [] })
      (record d { tasks = save_task (subtask_of d.task new_id title assigned_to now) d.tasks })
