-- ===== src/Workspace/Requests.antt =====
-- What the handlers ask of the server, and what a created task does to the list.
use justprojects.Base.{
  same_text_iff, ℕ, String, ◌≡◌, refl, ◌↔◌, true, Option, none, some, List, [], ◌∷◌, ◌++◌, find,
  eq_refl, arith, ◌+◌, ◌<◌, ◌⊎◌, inl, inr, Option-cases, filter, length,
}
use justprojects.Types.{present, Task, ProjectStatus}
use justprojects.Workspace.{fulfilled, TaskInput, sent, patch_task, World}
use justprojects.Workspace.Tasks.{
  has_task_id, has_status_id, edited_task, send_update, start_update_task, start_change_status,
  begin_move, send_move, after_create_task, with_status, task_patch, status_patch,
}
use justprojects.Workspace.Refresh.{start_refresh_tasks, after_refresh_tasks}

-- An edit of a task sends one PATCH, of the edited task in the shown project, with the version that
-- the dialog was opened on; the assignee is left out of it exactly if the edit does not change it.
pub start_update_task_request :
    (input : TaskInput) (version : ℕ) (w : World) (task : Task)
    → edited_task w ≡ some task
    → ((start_update_task input version w).effects
        ≡ w.effects
          ++ sent (patch_task w.workspace_data.project.id task.id (task_patch task input version))
            ∷ [])
      × ((task_patch task input version).version ≡ some version)
      × (((task_patch task input version).assignee_id ≡ none)
          ↔ (present task.assignee_id ≡ present input.assignee_id))
unfolding start_update_task task_patch
start_update_task_request input version w task e =
    rw (e, send_update)
      (
        refl,
        refl,
        ground (arith, same_text_iff (present task.assignee_id) (present input.assignee_id)),
      )

-- Dropping a task on a status sends one PATCH, with the status and the version of the task, if both
-- are known, and nothing at all otherwise.
pub start_change_status_request :
    (task_id status_id : String) (w : World)
    → ((task : Task) × (status : ProjectStatus) × (find (has_task_id task_id) w.workspace_data.tasks
          ≡ some task)
        × (find (has_status_id status_id) w.workspace_data.statuses ≡ some status)
        × ((start_change_status task_id status_id w).effects
            ≡ w.effects
              ++ sent (
                  patch_task w.workspace_data.project.id task_id
                    (status_patch status_id task.version))
                ∷ []))
      ⊎ (((find (has_task_id task_id) w.workspace_data.tasks ≡ none)
            ⊎ (find (has_status_id status_id) w.workspace_data.statuses ≡ none))
          × ((start_change_status task_id status_id w).effects ≡ w.effects))
unfolding start_change_status
start_change_status_request task_id status_id w =
    elim (Option-cases (find (has_status_id status_id) w.workspace_data.statuses)) [
      | inl unknown ↦ inr (inr unknown, rw (unknown, begin_move) refl)
      | inr (status, known) ↦
          elim (Option-cases (find (has_task_id task_id) w.workspace_data.tasks)) [
            | inl missing ↦ inr (inl missing, rw (known, begin_move, missing, send_move) refl)
            | inr (task, found) ↦
                inl (task, status, found, known, rw (known, begin_move, found, send_move) refl)
          ]
    ]

-- how often a task is listed
abbrev pub times : String → List Task → ℕ
times id ts = length (filter (has_task_id id) ts)

times-concat : (ts : List Task) (t : Task) → times t.id (ts ++ t ∷ []) ≡ times t.id ts + 1
times-concat [] t = ground (arith, eq_refl t.id)
times-concat (u ∷ ts) t = ground (arith, times-concat ts t)

tasks-after_create :
    (id : String) (status : Option ProjectStatus) (created : Task) (w : World)
    → (after_create_task id status (fulfilled created) w).workspace_data.tasks
      ≡ w.workspace_data.tasks ++ with_status status created ∷ []
unfolding after_create_task start_refresh_tasks
tasks-after_create id status created w = ground arith

-- If a poll answers with the created task before the creation itself has answered, the task is
-- listed once more than in the answer of the poll: at least twice.
pub created_after_poll_twice :
    (w : World) (items : List Task) (status : Option ProjectStatus) (created : Task)
    → 0 < times created.id items
    → times created.id
        (after_create_task w.workspace_data.project.id status (fulfilled created) (
          after_refresh_tasks w.workspace_data.project.id true
            (fulfilled (some items))
            w)).workspace_data.tasks
      ≡ times created.id items + 1
unfolding after_refresh_tasks
created_after_poll_twice w items status created listed =
    let id = w.workspace_data.project.id in
    rw (tasks-after_create id status created _, eq_refl id)
      (times-concat items (with_status status created))
