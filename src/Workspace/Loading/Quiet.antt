-- ===== src/Workspace/Loading/Quiet.antt =====
-- The handlers that have nothing to do with loading.
use justprojects.Base.{String, refl, Bool, true, Option, none, some, List, find, arith, ℕ}
use justprojects.Types.{Task, Milestone, Project, ProjectStatus, SyncEvent}
use justprojects.Workspace.{Outcome, fulfilled, rejected, TaskInput, MilestoneInput, World}
use justprojects.Workspace.Refresh.{
  start_refresh_tasks, after_refresh_tasks, after_refresh_sync_runs, start_refresh_milestones,
  after_refresh_milestones, sync_tick, poll_tick,
}
use justprojects.Workspace.Tasks.{
  start_create_task, after_create_task, start_update_task, after_update_task, has_task_id,
  has_status_id, start_change_status, after_change_status, edited_task, send_update, begin_move,
  send_move,
}
use justprojects.Workspace.Milestones.{
  after_create_milestone, start_update_milestone, after_update_milestone, send_milestone,
  edited_milestone,
}
use justprojects.Workspace.Projects.{
  on_project_change, after_logout, after_change_connection, after_create_project,
}
use justprojects.Workspace.Loading.{
  SameLoad, SameLoad-refl, SameLoad-trans, same_load, quiet_job, refresh_tasks-SameLoad,
  sync_runs-SameLoad, milestones-SameLoad,
}

pub sync_tick-SameLoad : (w : World) → SameLoad w (sync_tick w)
unfolding sync_tick
sync_tick-SameLoad w = ground (arith, sync_runs-SameLoad true w)

pub poll_tick-SameLoad : (w : World) → SameLoad w (poll_tick w)
unfolding poll_tick
poll_tick-SameLoad w =
    let id = w.workspace_data.project.id in
    let asked = start_refresh_tasks id true w in
    ground (
      arith,
      refresh_tasks-SameLoad id true w,
      milestones-SameLoad id asked,
      sync_runs-SameLoad true (start_refresh_milestones id asked),
    )

module _ (id : String) (quiet : Bool) (w : World) where
  pub after_refresh_tasks-SameLoad :
      (o : Outcome (Option (List Task))) → SameLoad w (after_refresh_tasks id quiet o w)
  unfolding after_refresh_tasks
  after_refresh_tasks-SameLoad (fulfilled items) = ground arith
  after_refresh_tasks-SameLoad (rejected f) = ground arith

pub after_sync_runs-SameLoad :
    (quiet : Bool) (o : Outcome (Option (List SyncEvent))) (w : World)
    → SameLoad w (after_refresh_sync_runs quiet o w)
unfolding after_refresh_sync_runs
after_sync_runs-SameLoad quiet (fulfilled items) w = same_load refl refl refl
after_sync_runs-SameLoad quiet (rejected f) w = ground arith

pub after_milestones-SameLoad :
    (id : String) (o : Outcome (Option (List Milestone))) (w : World)
    → SameLoad w (after_refresh_milestones id o w)
unfolding after_refresh_milestones
after_milestones-SameLoad id (fulfilled items) w = ground arith
after_milestones-SameLoad id (rejected f) w = same_load refl refl refl

-- A handler that ends by reading its list again: `v` is the world just before.
then_tasks :
    (id : String) {w : World} (v : World)
    → SameLoad w v
    → SameLoad w (start_refresh_tasks id true v)
then_tasks id v s = SameLoad-trans s (refresh_tasks-SameLoad id true v)

then_milestones :
    (id : String) {w : World} (v : World)
    → SameLoad w v
    → SameLoad w (start_refresh_milestones id v)
then_milestones id v s = SameLoad-trans s (milestones-SameLoad id v)

pub create_task-SameLoad : (input : TaskInput) (w : World) → SameLoad w (start_create_task input w)
unfolding start_create_task
create_task-SameLoad input w = same_load refl refl (quiet_job w.pending _ refl)

pub after_create_task-SameLoad :
    (id : String) (status : Option ProjectStatus) (o : Outcome Task) (w : World)
    → SameLoad w (after_create_task id status o w)
unfolding after_create_task
after_create_task-SameLoad id status (fulfilled created) w =
    then_tasks id _ ((same_load refl refl refl))
after_create_task-SameLoad id status (rejected f) w = same_load refl refl refl

send_update-SameLoad :
    (input : TaskInput) (version : ℕ) (w : World) (task : Option Task)
    → SameLoad w (send_update input version w task)
send_update-SameLoad input version w none = SameLoad-refl w
send_update-SameLoad input version w (some task) = same_load refl refl (quiet_job w.pending _ refl)

pub update_task-SameLoad :
    (input : TaskInput) (version : ℕ) (w : World) → SameLoad w (start_update_task input version w)
unfolding start_update_task
update_task-SameLoad input version w = send_update-SameLoad input version w (edited_task w)

pub after_update_task-SameLoad :
    (id : String) (previous : List Task) (o : Outcome Task) (w : World)
    → SameLoad w (after_update_task id previous o w)
unfolding after_update_task
after_update_task-SameLoad id previous (fulfilled updated) w =
    then_tasks id _ ((same_load refl refl refl))
after_update_task-SameLoad id previous (rejected f) w = same_load refl refl refl

send_move-SameLoad :
    (task_id status_id : String) (previous : List Task) (w : World) (task : Option Task)
    → SameLoad w (send_move task_id status_id previous w task)
send_move-SameLoad task_id status_id previous w none = SameLoad-refl w
send_move-SameLoad task_id status_id previous w (some task) =
    same_load refl refl (quiet_job w.pending _ refl)

begin_move-SameLoad :
    (task_id status_id : String) (w : World) (found : Option ProjectStatus)
    → SameLoad w (begin_move task_id status_id w found)
begin_move-SameLoad task_id status_id w none = SameLoad-refl w
begin_move-SameLoad task_id status_id w (some status) =
    SameLoad-trans ((same_load refl refl refl)) (
      send_move-SameLoad task_id status_id w.workspace_data.tasks _
        (find (has_task_id task_id) w.workspace_data.tasks))

pub change_status-SameLoad :
    (task_id status_id : String) (w : World) → SameLoad w (start_change_status task_id status_id w)
unfolding start_change_status
change_status-SameLoad task_id status_id w =
    begin_move-SameLoad task_id status_id w
      (find (has_status_id status_id) w.workspace_data.statuses)

pub after_change_status-SameLoad :
    (id task_id : String) (previous : List Task) (o : Outcome Task) (w : World)
    → SameLoad w (after_change_status id task_id previous o w)
unfolding after_change_status
after_change_status-SameLoad id task_id previous (fulfilled updated) w =
    then_tasks id _ ((same_load refl refl refl))
after_change_status-SameLoad id task_id previous (rejected f) w = same_load refl refl refl

pub after_create_milestone-SameLoad :
    (id : String) (o : Outcome Milestone) (w : World) → SameLoad w (after_create_milestone id o w)
unfolding after_create_milestone
after_create_milestone-SameLoad id (fulfilled created) w =
    then_milestones id _ ((same_load refl refl refl))
after_create_milestone-SameLoad id (rejected f) w = same_load refl refl refl

send_milestone-SameLoad :
    (input : MilestoneInput) (version : ℕ) (w : World) (milestone : Option Milestone)
    → SameLoad w (send_milestone input version w milestone)
send_milestone-SameLoad input version w none = SameLoad-refl w
send_milestone-SameLoad input version w (some milestone) =
    same_load refl refl (quiet_job w.pending _ refl)

pub update_milestone-SameLoad :
    (input : MilestoneInput) (version : ℕ) (w : World)
    → SameLoad w (start_update_milestone input version w)
unfolding start_update_milestone
update_milestone-SameLoad input version w =
    send_milestone-SameLoad input version w (edited_milestone w)

pub after_update_milestone-SameLoad :
    (id : String) (previous : List Milestone) (o : Outcome Milestone) (w : World)
    → SameLoad w (after_update_milestone id previous o w)
unfolding after_update_milestone
after_update_milestone-SameLoad id previous (fulfilled updated) w =
    then_milestones id _ ((same_load refl refl refl))
after_update_milestone-SameLoad id previous (rejected f) w = same_load refl refl refl

pub on_project_change-SameLoad : (id : String) (w : World) → SameLoad w (on_project_change id w)
unfolding on_project_change
on_project_change-SameLoad id w = ground arith

pub after_logout-SameLoad : (o : Outcome (Unit {0})) (w : World) → SameLoad w (after_logout o w)
unfolding after_logout
after_logout-SameLoad (fulfilled a) w = same_load refl refl refl
after_logout-SameLoad (rejected f) w = same_load refl refl refl

pub after_connection-SameLoad :
    (previous : Project) (o : Outcome Project) (w : World)
    → SameLoad w (after_change_connection previous o w)
unfolding after_change_connection
after_connection-SameLoad previous (fulfilled p) w = same_load refl refl refl
after_connection-SameLoad previous (rejected f) w = same_load refl refl refl

pub after_create_project-SameLoad :
    (o : Outcome Project) (w : World) → SameLoad w (after_create_project o w)
unfolding after_create_project
after_create_project-SameLoad (fulfilled p) w = same_load refl refl refl
after_create_project-SameLoad (rejected f) w = same_load refl refl refl
