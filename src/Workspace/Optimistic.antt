-- ===== src/Workspace/Optimistic.antt =====
-- What the task list looks like between a handler's optimistic change and the server's answer.
use justprojects.Base.{ℕ, String, ◌≡◌, refl, ◌≢◌, some, List, [], ◌∷◌, map, find, arith, eq_iff}
use justprojects.Types.{Task, ProjectStatus}
use justprojects.Workspace.{World, TaskInput, replace_task}
use justprojects.Workspace.Edited.{IsEdited, optimistic_task-IsEdited}
use justprojects.Workspace.Tasks.{
  has_task_id, has_status_id, optimistic_task, edited_task, send_update, start_update_task,
  begin_move, send_move, move_task, start_change_status, with_new_status,
}

abbrev pub ids : List Task → List String
ids = map (λ t. t.id)

-- `v` lists the tasks of `w` in the same order, and only the task `id` may look different.
pub record OnlyChanges (id : String) (w v : List Task) : Type 0 where
  pub order : ids v ≡ ids w
  pub others : (j : String) → j ≢ id → find (has_task_id j) v ≡ find (has_task_id j) w

replace_task-order :
    (id : String) (v : Task) (ts : List Task) → v.id ≡ id → ids (replace_task id v ts) ≡ ids ts
replace_task-order id v [] e = refl
replace_task-order id v (t ∷ ts) e = ground (arith, eq_iff t.id id, replace_task-order id v ts e)

replace_task-others :
    (id : String) (v : Task) (ts : List Task) (j : String)
    → v.id ≡ id
    → j ≢ id
    → find (has_task_id j) (replace_task id v ts) ≡ find (has_task_id j) ts
replace_task-others id v [] j e n = refl
replace_task-others id v (t ∷ ts) j e n =
    ground (arith, eq_iff t.id id, eq_iff t.id j, eq_iff v.id j, replace_task-others id v ts j e n)

pub replace_task-OnlyChanges :
    (id : String) (v : Task) (ts : List Task) → v.id ≡ id → OnlyChanges id ts (replace_task id v ts)
replace_task-OnlyChanges id v ts e = record {
  order = replace_task-order id v ts e;
  others = λ j n. replace_task-others id v ts j e n;
}

-- A task that is listed is found with its new value.
pub find-replace_task :
    (id : String) (v t : Task) (ts : List Task)
    → v.id ≡ id
    → find (has_task_id id) ts ≡ some t
    → find (has_task_id id) (replace_task id v ts) ≡ some v
find-replace_task id v t [] e h = cc
find-replace_task id v t (u ∷ ts) e h =
    ground (arith, eq_iff u.id id, eq_iff v.id id, find-replace_task id v t ts e)

move_task-order :
    (id status_id : String) (next : ProjectStatus) (ts : List Task)
    → ids (move_task id status_id next ts) ≡ ids ts
move_task-order id status_id next [] = refl
move_task-order id status_id next (t ∷ ts) = ground (arith, move_task-order id status_id next ts)

move_task-others :
    (id status_id : String) (next : ProjectStatus) (ts : List Task) (j : String)
    → j ≢ id
    → find (has_task_id j) (move_task id status_id next ts) ≡ find (has_task_id j) ts
move_task-others id status_id next [] j n = refl
move_task-others id status_id next (t ∷ ts) j n =
    ground (arith, eq_iff t.id id, eq_iff t.id j, move_task-others id status_id next ts j n)

-- The moved task, as the first task of its id is found.
pub find-move_task :
    (id status_id : String) (next : ProjectStatus) (t : Task) (ts : List Task)
    → find (has_task_id id) ts ≡ some t
    → find (has_task_id id) (move_task id status_id next ts)
      ≡ some (record (with_new_status next t) { status_id = status_id })
find-move_task id status_id next t [] h = cc
find-move_task id status_id next t (u ∷ ts) h =
    ground (arith, eq_iff u.id id, find-move_task id status_id next t ts)

-- Submitting an edit of a listed task keeps the order of the list and every other task, and at once
-- shows that task as edited: with the editor's fields, the name and category of its status if the
-- project has it and the old ones if not, the name of its assignee if that is a member and none if
-- not, and everything else unchanged.
pub start_update_task-OnlyChanges :
    (input : TaskInput) (version : ℕ) (w : World) (task : Task)
    → edited_task w ≡ some task
    → find (has_task_id task.id) w.workspace_data.tasks ≡ some task
    → OnlyChanges task.id w.workspace_data.tasks
        (start_update_task input version w).workspace_data.tasks
      × (new : Task) × (find
            (has_task_id task.id)
            (start_update_task input version w).workspace_data.tasks
          ≡ some new)
      × IsEdited w.workspace_data.statuses w.workspace_data.members input task new
unfolding start_update_task
start_update_task-OnlyChanges input version w task e found =
    let tasks = w.workspace_data.tasks in
    let new = optimistic_task w.workspace_data.statuses w.workspace_data.members input task in
    let edited : IsEdited w.workspace_data.statuses w.workspace_data.members input task new =
      optimistic_task-IsEdited w.workspace_data.statuses w.workspace_data.members input task in
    rw (e, send_update)
      (
        replace_task-OnlyChanges task.id new tasks edited.same_id,
        new,
        find-replace_task task.id new task tasks edited.same_id found,
        edited,
      )

-- Dropping a listed task on a known status keeps the order of the list and every other task, and
-- shows that task under the status's id, name and category at once.
pub start_change_status-OnlyChanges :
    (task_id status_id : String) (w : World) (task : Task) (status : ProjectStatus)
    → find (has_task_id task_id) w.workspace_data.tasks ≡ some task
    → find (has_status_id status_id) w.workspace_data.statuses ≡ some status
    → OnlyChanges task_id w.workspace_data.tasks
        (start_change_status task_id status_id w).workspace_data.tasks
      × (find (has_task_id task_id) (start_change_status task_id status_id w).workspace_data.tasks
          ≡ some (record task {
            status_id = status_id;
            status_name = some status.name;
            status_category = some status.category;
          }))
unfolding start_change_status
start_change_status-OnlyChanges task_id status_id w task status found known =
    let tasks = w.workspace_data.tasks in
    rw (known, begin_move, found, send_move)
      (
        record {
          order = move_task-order task_id status_id status tasks;
          others = move_task-others task_id status_id status tasks;
        },
        find-move_task task_id status_id status task tasks found,
      )
