-- ===== src/Tasks/Sound.antt =====
-- `TaskClient`, call after call.
use walrus_os.Base.{
  String, ◌≡◌, refl, Bool, true, false, not, ◌&&◌, ◌||◌, Option, some, List, [], ◌∷◌, ◌++◌, ◌==◌,
  arith, eq_iff, eq_refl, contains_text, if◌then◌else◌, Bool-cases, inl, inr,
}
use walrus_os.Base.Dict.{lookup-insert}
use walrus_os.Tasks.{
  Task, Desk, save_task, get_task, saved, assign, start, submit_for_review, complete, fail,
  add_memory, add_tag, add_subtask, subtask_of, is_pending, is_in_progress, done, failed,
  in_progress, review,
}

-- No text twice
abbrev pub distinct : List String → Bool
distinct [] = true
distinct (x ∷ xs) = not (contains_text x xs) && distinct xs

contains_text-append :
    (x : String) (xs ys : List String)
    → contains_text x (xs ++ ys) ≡ (contains_text x xs || contains_text x ys)
contains_text-append x [] ys = refl
contains_text-append x (y ∷ xs) ys = ground (arith, contains_text-append x xs ys)

distinct-append :
    (xs : List String) (y : String)
    → distinct xs ≡ true
    → contains_text y xs ≡ false
    → distinct (xs ++ y ∷ []) ≡ true
distinct-append [] y h n = refl
distinct-append (x ∷ xs) y h n =
    ground (arith, contains_text-append x xs (y ∷ []), distinct-append xs y, eq_iff x y, eq_iff y x)

-- The calls of a client, with the time of each.
pub data Call : Type 0 where
  assigning starting submitting completing failing remembering tagging : String → String → Call
  splitting : (new_id title : String) (assigned_to : Option String) (now : String) → Call

abbrev pub perform : Call → Desk → Desk
perform (assigning agent now) d = assign agent now d
perform (starting unused now) d = start now d
perform (submitting unused now) d = submit_for_review now d
perform (completing notes now) d = complete notes now d
perform (failing reason now) d = fail reason now d
perform (remembering event_id now) d = add_memory event_id now d
perform (tagging tag now) d = add_tag tag now d
perform (splitting new_id title assigned_to now) d = add_subtask new_id title assigned_to now d

abbrev pub work : List Call → Desk → Desk
work [] d = d
work (c ∷ cs) d = work cs (perform c d)

-- The table holds the task as it is, and no memory and no tag is listed twice.
pub record IsSound (d : Desk) : Type 0 where
  pub kept : get_task d.task.task_id d.tasks ≡ some d.task
  pub memories : distinct d.task.memory_refs ≡ true
  pub tags : distinct d.task.tags ≡ true

get_task-saved :
    (now : String) (t : Task) (d : Desk)
    → get_task t.task_id (saved now t d).tasks ≡ some (saved now t d).task
unfolding get_task save_task
get_task-saved now t d =
    rw
      (lookup-insert t.task_id t.task_id (record t { updated_at = now }) d.tasks, eq_refl t.task_id)
      refl

saved-IsSound :
    (now : String) (t : Task) (d : Desk)
    → distinct t.memory_refs ≡ true
    → distinct t.tags ≡ true
    → IsSound (saved now t d)
saved-IsSound now t d m g = record { kept = get_task-saved now t d; memories = m; tags = g }

perform-IsSound : (c : Call) (d : Desk) → IsSound d → IsSound (perform c d)
unfolding assign start submit_for_review complete fail add_memory add_tag add_subtask
perform-IsSound (assigning agent now) d h =
    saved-IsSound now (record (d.task) { assigned_to = some agent }) d h.memories h.tags
perform-IsSound (completing note now) d h =
    saved-IsSound now
      (record (d.task) {
        status = done;
        notes = if note == "" then d.task.notes else note;
        completed_at = some now;
      })
      d h.memories h.tags
perform-IsSound (failing reason now) d h =
    saved-IsSound now (record (d.task) { status = failed; notes = reason }) d h.memories h.tags
perform-IsSound (splitting new_id title assigned_to now) d h =
    saved-IsSound now (record (d.task) { subtask_ids = d.task.subtask_ids ++ new_id ∷ [] })
      (record d { tasks = save_task (subtask_of d.task new_id title assigned_to now) d.tasks })
      h.memories h.tags
perform-IsSound (starting unused now) d h = elim (Bool-cases (is_pending d.task.status)) [
  | inl p ↦
      rw (start, p)
        (saved-IsSound now (record (d.task) { status = in_progress }) d h.memories h.tags)
  | inr p ↦ rw (start, p) h
]
perform-IsSound (submitting unused now) d h = elim (Bool-cases (is_in_progress d.task.status)) [
  | inl p ↦
      rw (submit_for_review, p)
        (saved-IsSound now (record (d.task) { status = review }) d h.memories h.tags)
  | inr p ↦ rw (submit_for_review, p) h
]
perform-IsSound (remembering event_id now) d h =
    elim (Bool-cases (contains_text event_id d.task.memory_refs)) [
      | inl p ↦ rw (add_memory, p) h
      | inr p ↦
          rw (add_memory, p)
            (saved-IsSound now
              (record (d.task) { memory_refs = d.task.memory_refs ++ event_id ∷ [] }) d
              (distinct-append d.task.memory_refs event_id h.memories p) h.tags)
    ]
perform-IsSound (tagging tag now) d h = elim (Bool-cases (contains_text tag d.task.tags)) [
  | inl p ↦ rw (add_tag, p) h
  | inr p ↦
      rw (add_tag, p)
        (saved-IsSound now (record (d.task) { tags = d.task.tags ++ tag ∷ [] }) d h.memories
          (distinct-append d.task.tags tag h.tags p))
]

-- Whatever a client of a saved task calls, in whatever order, the table holds the task as the client
-- has it, and no memory and no tag is listed twice, if that was so before.
pub work-IsSound : (cs : List Call) (d : Desk) → IsSound d → IsSound (work cs d)
work-IsSound [] d h = h
work-IsSound (c ∷ cs) d h = work-IsSound cs (perform c d) (perform-IsSound c d h)
