-- ===== src/Sqlite/Tasks.antt =====
-- `SQLiteLedger`: the task table.
use walrus_os.Base.{
  String, ◌<>◌, Bool, Option, none, some, List, [], ◌∷◌, ◌==◌, ◌&&◌, keep_if, if◌then◌else◌,
}
use walrus_os.Base.Dict.{lookup, insert, values}
use walrus_os.Base.Result.{Result, ok, or_raise, json_error, value_error, ◌>>=◌}
use walrus_os.Tasks.{
  Task, Status, pending, in_progress, review, done, failed, status_name, allows, is_assigned,
}
use walrus_os.Sqlite.Tables.{Database, TaskRow, Json}

-- The `Literal` of `Task.status`: any other text is refused by the model's validation.
unfoldable pub status_of : String → Option Status
status_of t =
    if t == "pending"
    then some pending
    else if t == "in_progress"
    then some in_progress
    else if t == "review"
    then some review
    else if t == "done"
    then some done
    else if t == "failed"
    then some failed
    else none

-- A time is its ISO text, which `datetime` writes and reads.
unfoldable pub task_row : Json → Task → TaskRow
task_row json t = record {
  task_id = t.task_id;
  workspace_id = t.workspace_id;
  title = t.title;
  description = t.description;
  created_by = t.created_by;
  assigned_to = t.assigned_to;
  status = status_name t.status;
  priority = t.priority;
  parent_task_id = t.parent_task_id;
  subtask_ids = json.dumps_list t.subtask_ids;
  memory_refs = json.dumps_list t.memory_refs;
  artifact_refs = json.dumps_list t.artifact_refs;
  tags = json.dumps_list t.tags;
  created_at = t.created_at;
  updated_at = t.updated_at;
  completed_at = t.completed_at;
  notes = t.notes;
}

-- A row that is there keeps its id, workspace, creator, parent and time of creation.
unfoldable pub updated_row : Json → Task → TaskRow → TaskRow
updated_row json t r = record r {
  title = t.title;
  description = t.description;
  assigned_to = t.assigned_to;
  status = status_name t.status;
  priority = t.priority;
  subtask_ids = json.dumps_list t.subtask_ids;
  memory_refs = json.dumps_list t.memory_refs;
  artifact_refs = json.dumps_list t.artifact_refs;
  tags = json.dumps_list t.tags;
  updated_at = t.updated_at;
  completed_at = t.completed_at;
  notes = t.notes;
}

unfoldable pub save_task : Json → Task → Database → Database
unfolding task_row updated_row
save_task json t d =
    let row : TaskRow = elim (lookup t.task_id d.tasks) [
      | none ↦ task_row json t
      | some r ↦ updated_row json t r
    ] in
    record d { tasks = insert t.task_id row d.tasks }

-- An empty text in the column of the completion counts as none.
abbrev pub nonempty : Option String → Option String
nonempty none = none
nonempty (some t) = if t == "" then none else some t

unfoldable pub to_task : Json → TaskRow → Result Task
unfolding status_of
to_task json r = or_raise (json.loads_list r.subtask_ids) json_error >>= λ subtask_ids.
    or_raise (json.loads_list r.memory_refs) json_error >>= λ memory_refs.
    or_raise (json.loads_list r.artifact_refs) json_error >>= λ artifact_refs.
    or_raise (json.loads_list r.tags) json_error >>= λ tags.
    or_raise (status_of r.status) value_error >>= λ status. ok (record {
      task_id = r.task_id;
      workspace_id = r.workspace_id;
      title = r.title;
      description = r.description;
      created_by = r.created_by;
      assigned_to = r.assigned_to;
      status = status;
      priority = r.priority;
      parent_task_id = r.parent_task_id;
      subtask_ids = subtask_ids;
      memory_refs = memory_refs;
      artifact_refs = artifact_refs;
      tags = tags;
      created_at = r.created_at;
      updated_at = r.updated_at;
      completed_at = nonempty r.completed_at;
      notes = r.notes;
    })

abbrev pub read_task : Json → Option TaskRow → Result (Option Task)
read_task json none = ok none
read_task json (some r) = to_task json r >>= λ t. ok (some t)

unfoldable pub get_task : Json → String → Database → Result (Option Task)
unfolding to_task
get_task json task_id d = read_task json (lookup task_id d.tasks)

-- The loop that reads each row that the query found again, by its id.
unfoldable pub collect : Json → List TaskRow → Database → Result (List Task)
unfolding get_task
collect json [] d = ok []
collect json (r ∷ rs) d = get_task json r.task_id d >>= λ found.
    collect json rs d >>= λ rest. ok (elim found [ none ↦ rest | some t ↦ t ∷ rest ])

-- `like` is SQL's LIKE: a pattern, then a text.
unfoldable pub list_tasks :
    Json
    → (String → String → Bool)
    → String
    → Option String
    → Option String
    → Option String
    → Database
    → Result (List Task)
unfolding collect
list_tasks json like workspace_id status assigned_to tag d =
    collect json
      (keep_if
        (λ r.
          (r.workspace_id == workspace_id)
          && allows status (λ s. r.status == s)
          && allows assigned_to (is_assigned r.assigned_to)
          && allows tag (λ g. like ("%\"" <> g <> "\"%") r.tags))
        (values d.tasks))
      d
