-- ===== src/Workspace/Rollback.antt =====
-- What is left when the server refuses a change that was shown optimistically.
use justprojects.Base.{
  ℕ, String, ◌≡◌, refl, Bool, true, false, Option, some, List, [], ◌∷◌, ◌++◌, find, any, any-append,
  eq_refl, arith,
}
use justprojects.Types.{Slot, Task, ProjectStatus, Milestone}
use justprojects.Workspace.{
  text, Failure, rejected, fulfilled, TaskInput, MilestoneInput, update_task, change_status,
  change_connection, update_milestone, World,
}
use justprojects.Workspace.Tasks.{
  has_task_id, has_status_id, edited_task, send_update, start_update_task, after_update_task,
  start_change_status, after_change_status, begin_move, send_move, after_create_task, with_status,
}
use justprojects.Workspace.Milestones.{
  edited_milestone, send_milestone, start_update_milestone, after_update_milestone,
}
use justprojects.Workspace.Projects.{start_change_connection, after_change_connection}
use justprojects.Workspace.Refresh.{start_refresh_tasks}

-- `v` shows the data of `w` again, and tells that it could not save.
pub record IsUndone (message : String) (w v : World) : Type 0 where
  pub data_back : v.workspace_data ≡ w.workspace_data
  pub told : v.error_message ≡ some (text message)

-- If nothing else happens in between, a refused edit of a task leaves the workspace data as they
-- were before the edit was submitted, with an error message.
pub refused_update-IsUndone :
    (input : TaskInput) (version : ℕ) (w : World) (task : Task) (f : Failure)
    → edited_task w ≡ some task
    → ((start_update_task input version w).pending
        ≡ w.pending ++ update_task w.workspace_data.project.id w.workspace_data.tasks ∷ [])
      × IsUndone "workspace.saveTaskError" w (
          after_update_task w.workspace_data.project.id w.workspace_data.tasks
            (rejected f)
            (start_update_task input version w))
unfolding start_update_task after_update_task
refused_update-IsUndone input version w task f e =
    rw (e, send_update) (refl, record { data_back = refl; told = refl })

-- If nothing else happens in between, a refused move of a listed task to a known status leaves the
-- workspace data as they were before, with an error message.
pub refused_move-IsUndone :
    (task_id status_id : String) (w : World) (task : Task) (status : ProjectStatus) (f : Failure)
    → find (has_task_id task_id) w.workspace_data.tasks ≡ some task
    → find (has_status_id status_id) w.workspace_data.statuses ≡ some status
    → ((start_change_status task_id status_id w).pending
        ≡ w.pending
          ++ change_status w.workspace_data.project.id task_id w.workspace_data.tasks ∷ [])
      × IsUndone "workspace.saveStatusError" w (
          after_change_status w.workspace_data.project.id task_id w.workspace_data.tasks
            (rejected f)
            (start_change_status task_id status_id w))
unfolding start_change_status after_change_status
refused_move-IsUndone task_id status_id w task status f found known =
    rw (known, begin_move, found, send_move) (refl, record { data_back = refl; told = refl })

-- If nothing else happens in between, a refused edit of a milestone leaves the workspace data as
-- they were before, with an error message.
pub refused_milestone-IsUndone :
    (input : MilestoneInput) (version : ℕ) (w : World) (milestone : Milestone) (f : Failure)
    → edited_milestone w ≡ some milestone
    → ((start_update_milestone input version w).pending
        ≡ w.pending
          ++ update_milestone w.workspace_data.project.id w.workspace_data.milestones ∷ [])
      × IsUndone "workspace.saveMilestoneError" w (
          after_update_milestone w.workspace_data.project.id w.workspace_data.milestones
            (rejected f)
            (start_update_milestone input version w))
unfolding start_update_milestone after_update_milestone
refused_milestone-IsUndone input version w milestone f e =
    rw (e, send_milestone) (refl, record { data_back = refl; told = refl })

-- If nothing else happens in between, a refused change of the project's connection leaves the
-- workspace data as they were before, with an error message.
pub refused_connection-IsUndone :
    (connection_id : Slot String) (w : World) (f : Failure)
    → ((start_change_connection connection_id w).pending
        ≡ w.pending ++ change_connection w.workspace_data.project ∷ [])
      × IsUndone "integrations.connectionError" w (
          after_change_connection w.workspace_data.project
            (rejected f)
            (start_change_connection connection_id w))
unfolding start_change_connection after_change_connection
refused_connection-IsUndone connection_id w f = (refl, record { data_back = refl; told = refl })

any-concat :
    {A : Type 0} (p : A → Bool) (xs : List A) (x : A) → p x ≡ true → any p (xs ++ x ∷ []) ≡ true
any-concat p xs x h = ground (arith, any-append p xs (x ∷ []))

tasks-refresh :
    (id : String) (quiet : Bool) (w : World)
    → (start_refresh_tasks id quiet w).workspace_data ≡ w.workspace_data
unfolding start_refresh_tasks
tasks-refresh id quiet w = ground arith

-- the world after a task was created while the edit `input` was in flight
abbrev pub created_meanwhile : TaskInput → ℕ → Option ProjectStatus → Task → World → World
created_meanwhile input version status created w =
    after_create_task w.workspace_data.project.id status (fulfilled created)
      (start_update_task input version w)

-- A task that the server created while an edit was in flight is listed, and it is missing from the
-- list once that edit is refused, since the refusal puts back the list from before the edit.
pub refused_update_loses_created :
    (input : TaskInput) (version : ℕ) (w : World) (task created : Task) (f : Failure)
    (status : Option ProjectStatus)
    → edited_task w ≡ some task
    → any (has_task_id created.id) w.workspace_data.tasks ≡ false
    → ((start_update_task input version w).pending
        ≡ w.pending ++ update_task w.workspace_data.project.id w.workspace_data.tasks ∷ [])
      × (any
            (has_task_id created.id)
            (created_meanwhile input version status created w).workspace_data.tasks
          ≡ true)
      × (any
            (has_task_id created.id)
            (after_update_task w.workspace_data.project.id w.workspace_data.tasks
              (rejected f)
              (created_meanwhile input version status created w)).workspace_data.tasks
          ≡ false)
unfolding after_create_task after_update_task
refused_update_loses_created input version w task created f status e absent =
    let before = (start_update_task input version w).workspace_data.tasks in
    (
      (refused_update-IsUndone input version w task f e).0,
      rw (tasks-refresh w.workspace_data.project.id true _) (
          any-concat (has_task_id created.id) before (with_status status created)
            (eq_refl created.id)),
      absent,
    )
