-- ===== src/Workspace/Loading/Always.antt =====
-- The spinner over every run.
use justprojects.Base.{
  String, ◌≡◌, refl, ◌∙◌, true, false, List, ◌∷◌, ◌++◌, any, any-append, arith, Bool-cases, inl,
  inr,
}
use justprojects.Types.{WorkspaceView}
use justprojects.Workspace.{
  Outcome, Job, load_session, load_projects, load_details, load_resources, refresh_tasks,
  refresh_sync_runs, refresh_milestones, logging_out, change_connection, create_task, update_task,
  change_status, create_project, create_milestone, update_milestone, World, mounted,
}
use justprojects.Workspace.Tasks.{open_task_editor}
use justprojects.Workspace.Milestones.{open_milestone_editor, start_create_milestone}
use justprojects.Workspace.Projects.{
  on_view_change, start_logout, start_change_connection, on_git_connections, start_create_project,
}
use justprojects.Workspace.Events.{
  Answer, resume, visit, Action, perform, Step, act, reply, Reach, here, next, go_to, retry,
  poll_timer, sync_timer, refresh, log_out, pick_project, submit_task, submit_edit, move,
  submit_milestone, submit_milestone_edit, submit_project, connect, refresh_tasks_of, refresh_runs,
}
use justprojects.Workspace.Loading.{
  is_load, is_loading, IsSettled, SameLoad, same_load, SameLoad-IsSettled, quiet_job,
  refresh_tasks-SameLoad, sync_runs-SameLoad, load_workspace-IsSettled, after_session-IsSettled,
  after_projects-IsSettled, after_details-IsSettled, after_resources-IsSettled,
}
use justprojects.Workspace.Loading.Quiet.{
  sync_tick-SameLoad, poll_tick-SameLoad, after_refresh_tasks-SameLoad, after_sync_runs-SameLoad,
  after_milestones-SameLoad, create_task-SameLoad, after_create_task-SameLoad, update_task-SameLoad,
  after_update_task-SameLoad, change_status-SameLoad, after_change_status-SameLoad,
  after_create_milestone-SameLoad, update_milestone-SameLoad, after_update_milestone-SameLoad,
  on_project_change-SameLoad, after_logout-SameLoad, after_connection-SameLoad,
  after_create_project-SameLoad,
}

visit-IsSettled :
    (ref : String) (view : WorkspaceView) (w : World)
    → w.configured ≡ true
    → IsSettled (visit ref view w)
unfolding visit
visit-IsSettled ref view w c = rw c (load_workspace-IsSettled ref _ refl)

perform-IsSettled : (a : Action) (w : World) → IsSettled w → IsSettled (perform a w)
unfolding perform open_task_editor open_milestone_editor start_create_milestone on_view_change
    start_logout start_change_connection on_git_connections start_create_project
perform-IsSettled (go_to ref view) w h = visit-IsSettled ref view w h.configured
perform-IsSettled retry w h = load_workspace-IsSettled _ w h.configured
perform-IsSettled poll_timer w h = SameLoad-IsSettled (poll_tick-SameLoad w) h
perform-IsSettled sync_timer w h = SameLoad-IsSettled (sync_tick-SameLoad w) h
perform-IsSettled refresh w h = SameLoad-IsSettled (refresh_tasks-SameLoad _ false w) h
perform-IsSettled log_out w h =
    SameLoad-IsSettled (same_load refl refl (quiet_job w.pending logging_out refl)) h
perform-IsSettled (pick_project id) w h = SameLoad-IsSettled (on_project_change-SameLoad id w) h
perform-IsSettled (submit_task input) w h = SameLoad-IsSettled (create_task-SameLoad input w) h
perform-IsSettled (submit_edit input version) w h =
    SameLoad-IsSettled (update_task-SameLoad input version w) h
perform-IsSettled (move task_id status_id) w h =
    SameLoad-IsSettled (change_status-SameLoad task_id status_id w) h
perform-IsSettled (submit_milestone input) w h =
    SameLoad-IsSettled (same_load refl refl (quiet_job w.pending (create_milestone _) refl)) h
perform-IsSettled (submit_milestone_edit input version) w h =
    SameLoad-IsSettled (update_milestone-SameLoad input version w) h
perform-IsSettled (submit_project input) w h =
    SameLoad-IsSettled (same_load refl refl (quiet_job w.pending create_project refl)) h
perform-IsSettled (connect connection_id) w h =
    SameLoad-IsSettled (same_load refl refl (quiet_job w.pending (change_connection _) refl)) h
perform-IsSettled (refresh_tasks_of id quiet) w h =
    SameLoad-IsSettled (refresh_tasks-SameLoad id quiet w) h
perform-IsSettled (refresh_runs quiet) w h = SameLoad-IsSettled (sync_runs-SameLoad quiet w) h
perform-IsSettled _ w h = record { configured = h.configured; settled = h.settled }

-- The answer to a job that is no load, in the world that the job has left.
resume_quiet :
    (j : Job) (o : Outcome (Answer j)) (w : World) → is_load j ≡ false → SameLoad w (resume j o w)
unfolding resume
resume_quiet (refresh_tasks id quiet) o w h = after_refresh_tasks-SameLoad id quiet w o
resume_quiet (refresh_sync_runs quiet) o w h = after_sync_runs-SameLoad quiet o w
resume_quiet (refresh_milestones id) o w h = after_milestones-SameLoad id o w
resume_quiet logging_out o w h = after_logout-SameLoad o w
resume_quiet (change_connection previous) o w h = after_connection-SameLoad previous o w
resume_quiet (create_task id status) o w h = after_create_task-SameLoad id status o w
resume_quiet (update_task id previous) o w h = after_update_task-SameLoad id previous o w
resume_quiet (change_status id task previous) o w h =
    after_change_status-SameLoad id task previous o w
resume_quiet create_project o w h = after_create_project-SameLoad o w
resume_quiet (create_milestone id) o w h = after_create_milestone-SameLoad id o w
resume_quiet (update_milestone id previous) o w h = after_update_milestone-SameLoad id previous o w
resume_quiet _ o w h = cc

resume_load :
    (j : Job) (o : Outcome (Answer j)) (w : World)
    → w.configured ≡ true
    → is_load j ≡ true
    → IsSettled (resume j o w)
unfolding resume
resume_load (load_session ref route view) o w c h = after_session-IsSettled route view w c ref o
resume_load (load_projects ref route view s) o w c h =
    after_projects-IsSettled route view w c ref s o
resume_load (load_details route view s ps chosen) o w c h =
    after_details-IsSettled route view w c s ps chosen o
resume_load (load_resources route view) o w c h = after_resources-IsSettled route view w c o
resume_load _ o w c h = cc

-- To take a job that is no load out of the list leaves the loads.
is_load-remove :
    (before after : List Job) (j : Job)
    → is_load j ≡ false
    → any is_load (before ++ j ∷ after) ≡ any is_load (before ++ after)
is_load-remove before after j h =
    ground (arith, any-append is_load before (j ∷ after), any-append is_load before after)

Step-IsSettled : {v w : World} → Step v w → IsSettled v → IsSettled w
Step-IsSettled (act a w) h = perform-IsSettled a w h
Step-IsSettled (reply before after j o w e) h = elim (Bool-cases (is_load j)) [
  | inl load ↦ resume_load j o (record w { pending = before ++ after }) h.configured load
  | inr other ↦
      SameLoad-IsSettled (resume_quiet j o (record w { pending = before ++ after }) other) (record {
        configured = h.configured;
        settled = λ quiet. h.settled (rw e (is_load-remove before after j other ∙ quiet));
      })
]

Reach-IsSettled : {v w : World} → IsSettled v → Reach v w → IsSettled w
Reach-IsSettled h here = h
Reach-IsSettled h (next r s) = Step-IsSettled s (Reach-IsSettled h r)

-- Whatever the user, the timers and the server do after the first load has begun, and in whatever
-- order the answers come, the spinner is off whenever no request of a load is in flight.
pub spinner_ends :
    (ref : String) (view : WorkspaceView) (w : World)
    → Reach (visit ref view (mounted true ref view)) w
    → is_loading w ≡ false
    → w.loading ≡ false
spinner_ends ref view w r =
    (Reach-IsSettled (visit-IsSettled ref view (mounted true ref view) refl) r).settled
