-- ===== src/Workspace/Tasks.antt =====
-- The task handlers of services/frontend/components/project-workspace.tsx.
use justprojects.Base.{
  same_text, ℕ, String, Bool, true, Option, none, some, get_or, or_else, List, [], ◌∷◌, ◌++◌, map,
  ◌==◌, find, first, if◌then◌else◌,
}
use justprojects.Toast.{success}
use justprojects.Types.{
  present, over_slot, or_null, text_or_null, reference, Task, ProjectStatus, TenantMember,
  StatusCategory,
}
use justprojects.Workspace.{
  text, Outcome, fulfilled, rejected, TaskInput, TaskPatch, post_task, patch_task, toast, thrown,
  create_task, update_task, change_status, World, emit, await, set_tasks, set_error, replace_task,
}
use justprojects.Workspace.Refresh.{start_refresh_tasks}

abbrev pub has_task_id : String → Task → Bool
has_task_id id item = item.id == id

abbrev pub has_status_id : String → ProjectStatus → Bool
has_status_id id item = item.id == id

abbrev pub status_name_of : Option ProjectStatus → Option String
status_name_of none = none
status_name_of (some s) = some s.name

abbrev pub category_of : Option ProjectStatus → Option StatusCategory
category_of none = none
category_of (some s) = some s.category

unfoldable pub open_task_editor : Task → World → World
open_task_editor task w = record w { selected_task = none; editing_task = some task }

-- `handleCreateTask` up to its `await`
unfoldable pub start_create_task : TaskInput → World → World
start_create_task input w =
    let d = w.workspace_data in
    let status = or_else (find (has_status_id input.status_id) d.statuses) (first d.statuses) in
    await (post_task d.project.id input) (create_task d.project.id status) w

-- `{ ...created, statusName, statusCategory }`
abbrev pub with_status : Option ProjectStatus → Task → Task
with_status status created = record created {
  status_name = or_else created.status_name (status_name_of status);
  status_category = or_else created.status_category (category_of status);
}

unfoldable pub after_create_task : String → Option ProjectStatus → Outcome Task → World → World
after_create_task project_id status (fulfilled created) w = start_refresh_tasks project_id true (
    emit (toast success (text "workspace.taskCreated"))
      (set_tasks (w.workspace_data.tasks ++ with_status status created ∷ []) w))
after_create_task project_id status (rejected f) w = emit (thrown f) w

-- the name of the member that a truthy `assigneeId` names
abbrev pub assignee_name_of : List TenantMember → Option String → Option String
assignee_name_of members none = none
assignee_name_of members (some id) = elim (find (λ member. member.user.id == id) members) [
  | none ↦ none
  | some member ↦ some member.user.name
]

-- What the edited task looks like until the server has answered.
unfoldable pub optimistic_task : List ProjectStatus → List TenantMember → TaskInput → Task → Task
optimistic_task statuses members input task =
    let next = find (has_status_id input.status_id) statuses in
    record task {
      title = input.title;
      description = some input.description;
      status_id = input.status_id;
      status_name = or_else (status_name_of next) task.status_name;
      status_category = or_else (category_of next) task.status_category;
      milestone_id = or_null input.milestone_id;
      priority = input.priority;
      start_date = text_or_null input.start_date;
      due_date = text_or_null input.due_date;
      estimate_minutes = or_null input.estimate_minutes;
      assignee_id = or_null (present input.assignee_id);
      assignee_name = assignee_name_of members (reference input.assignee_id);
      visibility = input.visibility;
    }

-- The body of the PATCH: the assignee is in it only if it was changed.
unfoldable pub task_patch : Task → TaskInput → ℕ → TaskPatch
task_patch task input version = record {
  title = some input.title;
  description = some input.description;
  status_id = some input.status_id;
  milestone_id = some (get_or input.milestone_id "");
  priority = some input.priority;
  start_date = some input.start_date;
  due_date = some input.due_date;
  estimate_minutes = some (get_or input.estimate_minutes 0);
  assignee_id =
      if same_text (present task.assignee_id) (present input.assignee_id)
      then none
      else some (get_or (present input.assignee_id) "");
  visibility = some input.visibility;
  version = some version;
}

-- `editingTask ? (data.tasks.find(...) ?? editingTask) : undefined`
abbrev pub edited_task : World → Option Task
edited_task w = elim (w.editing_task) [
  | none ↦ none
  | some editing ↦ some (get_or (find (has_task_id editing.id) w.workspace_data.tasks) editing)
]

abbrev pub send_update : TaskInput → ℕ → World → Option Task → World
send_update input version w none = w
send_update input version w (some task) =
    let d = w.workspace_data in
    await (patch_task d.project.id task.id (task_patch task input version))
      (update_task d.project.id d.tasks)
      (set_tasks (replace_task task.id (optimistic_task d.statuses d.members input task) d.tasks) w)

-- `handleUpdateTask` up to its `await`
unfoldable pub start_update_task : TaskInput → ℕ → World → World
start_update_task input version w = send_update input version w (edited_task w)

abbrev pub select_updated : Task → Option Task → Option Task
select_updated updated none = none
select_updated updated (some current) = some (if current.id == updated.id then updated else current)

unfoldable pub after_update_task : String → List Task → Outcome Task → World → World
after_update_task project_id previous (fulfilled updated) w =
    let replaced = set_tasks (replace_task updated.id updated w.workspace_data.tasks) w in
    start_refresh_tasks project_id true (
      emit (toast success (text "workspace.taskUpdated"))
        (record replaced { selected_task = select_updated updated w.selected_task }))
after_update_task project_id previous (rejected f) w =
    emit (thrown f) (set_error (some (text "workspace.saveTaskError")) (set_tasks previous w))

-- `{ ...task, statusId, statusName, statusCategory }`
abbrev pub with_new_status : ProjectStatus → Task → Task
with_new_status next task = record task {
  status_id = next.id;
  status_name = some next.name;
  status_category = some next.category;
}

-- the PATCH `{ statusId, version }`
abbrev pub status_patch : String → ℕ → TaskPatch
status_patch status_id version = record {
  title = none;
  description = none;
  status_id = some status_id;
  milestone_id = none;
  priority = none;
  start_date = none;
  due_date = none;
  estimate_minutes = none;
  assignee_id = none;
  visibility = none;
  version = some version;
}

abbrev pub move_task : String → String → ProjectStatus → List Task → List Task
move_task task_id status_id next = map (λ task.
    if task.id == task_id
    then record (with_new_status next task) { status_id = status_id }
    else task)

abbrev pub send_move : String → String → List Task → World → Option Task → World
send_move task_id status_id previous w none = w
send_move task_id status_id previous w (some task) =
    let id = w.workspace_data.project.id in
    await (patch_task id task_id (status_patch status_id task.version))
      (change_status id task_id previous) w

abbrev pub begin_move : String → String → World → Option ProjectStatus → World
begin_move task_id status_id w none = w
begin_move task_id status_id w (some next) =
    let previous = w.workspace_data.tasks in
    send_move task_id status_id previous (set_tasks (move_task task_id status_id next previous) w)
      (find (has_task_id task_id) previous)

-- `handleTaskStatusChange` up to its `await`
unfoldable pub start_change_status : String → String → World → World
start_change_status task_id status_id w =
    begin_move task_id status_id w (find (has_status_id status_id) w.workspace_data.statuses)

-- `{ ...item, ...updated }`
unfoldable pub merge_task : Task → Task → Task
merge_task item updated = record updated {
  parent_id = over_slot updated.parent_id item.parent_id;
  milestone_id = over_slot updated.milestone_id item.milestone_id;
  status_name = or_else updated.status_name item.status_name;
  status_category = or_else updated.status_category item.status_category;
  description = or_else updated.description item.description;
  start_date = over_slot updated.start_date item.start_date;
  due_date = over_slot updated.due_date item.due_date;
  estimate_minutes = over_slot updated.estimate_minutes item.estimate_minutes;
  assignee_id = over_slot updated.assignee_id item.assignee_id;
  assignee_name = or_else updated.assignee_name item.assignee_name;
  labels = or_else updated.labels item.labels;
  remote_assignees = or_else updated.remote_assignees item.remote_assignees;
  created_at = or_else updated.created_at item.created_at;
  updated_at = or_else updated.updated_at item.updated_at;
}

unfoldable pub after_change_status : String → String → List Task → Outcome Task → World → World
after_change_status project_id task_id previous (fulfilled updated) w =
    start_refresh_tasks project_id true (
      set_tasks
        (map (λ item. if item.id == task_id then merge_task item updated else item)
          w.workspace_data.tasks)
        w)
after_change_status project_id task_id previous (rejected f) w =
    set_error (some (text "workspace.saveStatusError")) (set_tasks previous w)
