-- ===== src/Tests/Tasks.antt =====
-- A task client of walrusos/sdk/task.py on concrete calls.
use walrus_os.Base.{◌≡◌, refl, none, List, [], ◌∷◌}
use walrus_os.Base.Dict.{lookup}
use walrus_os.Tasks.{Desk, Task, get_task, pending, submit_for_review, complete, done}
use walrus_os.Tasks.Sound.{
  Call, starting, submitting, tagging, splitting, IsSound, work, work-IsSound,
}

abbrev task : Task
task = record {
  task_id = "t";
  workspace_id = "w";
  title = "Write";
  description = "";
  created_by = "a";
  assigned_to = none;
  status = pending;
  priority = 3;
  parent_task_id = none;
  subtask_ids = [];
  memory_refs = [];
  artifact_refs = [];
  tags = "docs" ∷ [];
  created_at = "1";
  updated_at = "1";
  completed_at = none;
  notes = "";
}

abbrev desk : Desk
desk = record { task = task; tasks = ("t", task) ∷ [] }

desk-IsSound : IsSound desk
unfolding get_task lookup
desk-IsSound = record { kept = refl; memories = refl; tags = refl }

abbrev day : List Call
day = starting "" "2" ∷ tagging "docs" "3" ∷ splitting "u" "Draft" none "4" ∷ submitting "" "5" ∷ []

work-IsSound_example : IsSound (work day desk)
work-IsSound_example = work-IsSound day desk desk-IsSound

not_started : (submit_for_review "2" desk).task.status ≡ pending
unfolding submit_for_review
not_started = refl

done_at_once : (complete "ok" "2" desk).task.status ≡ done
unfolding complete
done_at_once = refl
