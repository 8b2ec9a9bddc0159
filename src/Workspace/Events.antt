-- ===== src/Workspace/Events.antt =====
-- The workspace as a machine: what the user and the timers do, and the answers to the requests in
-- flight, which may come back in any order.
use justprojects.Base.{
  filter, not, ◌==◌, ℕ, String, Bool, Option, none, List, ◌∷◌, ◌++◌, ◌≡◌, if◌then◌else◌,
}
use justprojects.Types.{
  Slot, Task, Milestone, Project, Session, SyncEvent, WorkspaceView, GitConnection, ProjectUpdate,
  ProjectStatus,
}
use justprojects.Workspace.{
  Outcome, TaskInput, MilestoneInput, ProjectInput, login, replace_route, Job, load_session,
  load_projects, load_details, load_resources, refresh_tasks, refresh_sync_runs, refresh_milestones,
  logging_out, change_connection, create_task, update_task, change_status, create_project,
  create_milestone, update_milestone, World, emit, set_data,
}
use justprojects.Workspace.Load.{
  ProjectDetails, Resources, load_workspace, after_session, after_projects, after_details,
  after_resources,
}
use justprojects.Workspace.Refresh.{
  start_refresh_tasks, start_refresh_sync_runs, after_refresh_tasks, after_refresh_sync_runs,
  after_refresh_milestones, sync_tick, poll_tick,
}
use justprojects.Workspace.Tasks.{
  open_task_editor, start_create_task, after_create_task, start_update_task, after_update_task,
  start_change_status, after_change_status,
}
use justprojects.Workspace.Milestones.{
  open_milestone_editor, start_create_milestone, after_create_milestone, start_update_milestone,
  after_update_milestone,
}
use justprojects.Workspace.Projects.{
  on_project_change, on_view_change, start_logout, after_logout, start_change_connection,
  after_change_connection, on_git_connections, start_create_project, after_create_project,
}

-- what the server answers to each request
abbrev pub Answer : Job → Type 0
Answer (load_session ref route view) = Session
Answer (load_projects ref route view s) = Option (List Project)
Answer (load_details route view s ps chosen) = ProjectDetails
Answer (load_resources route view) = Resources
Answer (refresh_tasks id quiet) = Option (List Task)
Answer (refresh_sync_runs quiet) = Option (List SyncEvent)
Answer (refresh_milestones id) = Option (List Milestone)
Answer logging_out = Unit {0}
Answer (change_connection previous) = Project
Answer (create_task id status) = Task
Answer (update_task id previous) = Task
Answer (change_status id task previous) = Task
Answer create_project = Project
Answer (create_milestone id) = Milestone
Answer (update_milestone id previous) = Milestone

-- the code behind the `await`
unfoldable pub resume : (j : Job) → Outcome (Answer j) → World → World
resume (load_session ref route view) = after_session ref route view
resume (load_projects ref route view s) = after_projects ref route view s
resume (load_details route view s ps chosen) = after_details route view s ps chosen
resume (load_resources route view) = after_resources route view
resume (refresh_tasks id quiet) = after_refresh_tasks id quiet
resume (refresh_sync_runs quiet) = after_refresh_sync_runs quiet
resume (refresh_milestones id) = after_refresh_milestones id
resume logging_out = after_logout
resume (change_connection previous) = after_change_connection previous
resume (create_task id status) = after_create_task id status
resume (update_task id previous) = after_update_task id previous
resume (change_status id task previous) = after_change_status id task previous
resume create_project = after_create_project
resume (create_milestone id) = after_create_milestone id
resume (update_milestone id previous) = after_update_milestone id previous

-- the effect that runs whenever the project or the view of the route changes
unfoldable pub visit : String → WorkspaceView → World → World
visit ref view w =
    let shown = record w { project_ref = ref; active_view = view } in
    if w.configured then load_workspace ref shown else emit (replace_route login) shown

-- What the user, the timers and the views start: `refresh_tasks_of` and `refresh_runs` are the
-- callbacks `onRefreshTasks` and `onRefreshSyncRuns` of the integrations view.
pub data Action : Type 0 where
  go_to : String → WorkspaceView → Action
  retry poll_timer sync_timer refresh log_out : Action
  pick_project : String → Action
  pick_view : WorkspaceView → Action
  select : Option Task → Action
  edit_task : Task → Action
  stop_editing : Action
  edit_milestone : Milestone → Action
  stop_editing_milestone : Action
  submit_task : TaskInput → Action
  submit_edit : TaskInput → ℕ → Action
  move : String → String → Action
  submit_milestone : MilestoneInput → Action
  submit_milestone_edit : MilestoneInput → ℕ → Action
  submit_project : ProjectInput → Action
  connect : Slot String → Action
  connections_changed : List GitConnection → Action
  update_created : ProjectUpdate → Action
  statuses_changed : List ProjectStatus → Action
  refresh_tasks_of : String → Bool → Action
  refresh_runs : Bool → Action

-- `onUpdateCreated`: the new update stands first, once
abbrev with_update : ProjectUpdate → List ProjectUpdate → List ProjectUpdate
with_update update updates = update ∷ filter (λ item. not (item.id == update.id)) updates

unfoldable pub perform : Action → World → World
perform (go_to ref view) w = visit ref view w
perform retry w = load_workspace w.workspace_data.project.id w
perform poll_timer w = poll_tick w
perform sync_timer w = sync_tick w
perform refresh w = start_refresh_tasks w.workspace_data.project.id Bool.false w
perform log_out w = start_logout w
perform (pick_project id) w = on_project_change id w
perform (pick_view view) w = on_view_change view w
perform (select task) w = record w { selected_task = task }
perform (edit_task task) w = open_task_editor task w
perform stop_editing w = record w { editing_task = none }
perform (edit_milestone milestone) w = open_milestone_editor milestone w
perform stop_editing_milestone w = record w { editing_milestone = none }
perform (submit_task input) w = start_create_task input w
perform (submit_edit input version) w = start_update_task input version w
perform (move task_id status_id) w = start_change_status task_id status_id w
perform (submit_milestone input) w = start_create_milestone input w
perform (submit_milestone_edit input version) w = start_update_milestone input version w
perform (submit_project input) w = start_create_project input w
perform (connect connection_id) w = start_change_connection connection_id w
perform (connections_changed connections) w = on_git_connections connections w
perform (update_created update) w =
    set_data (record (w.workspace_data) { updates = with_update update w.workspace_data.updates }) w
perform (statuses_changed statuses) w =
    set_data (record (w.workspace_data) { statuses = statuses }) w
perform (refresh_tasks_of project_id quiet) w = start_refresh_tasks project_id quiet w
perform (refresh_runs quiet) w = start_refresh_sync_runs quiet w

-- One step: an action, or the answer to any of the requests in flight.
pub data Step : World → World → Type 0 where
  act : (a : Action) (w : World) → Step w (perform a w)
  reply :
      (before after : List Job) (j : Job) (answer : Outcome (Answer j)) (w : World)
      → w.pending ≡ before ++ j ∷ after
      → Step w (resume j answer (record w { pending = before ++ after }))

-- What can happen after the component has been mounted on a route.
pub data Reach (start : World) : World → Type 0 where
  here : Reach start start
  next : {v w : World} → Reach start v → Step v w → Reach start w
