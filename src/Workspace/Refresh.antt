-- ===== src/Workspace/Refresh.antt =====
-- `refreshTasks`, `refreshSyncRuns`, `refreshMilestones` and the timers that call them, of
-- services/frontend/components/project-workspace.tsx.
use justprojects.Base.{
  String, Bool, true, false, Option, none, some, get_or, List, [], ◌==◌, ◌&&◌, truthy,
  if◌then◌else◌,
}
use justprojects.Types.{
  Task, Milestone, SyncEvent, overview, tasks, roadmap, integrations, settings,
}
use justprojects.Workspace.{
  Outcome, fulfilled, rejected, list_tasks, list_milestones, list_sync_runs, refresh_tasks,
  refresh_sync_runs, refresh_milestones, World, await, set_data, set_tasks, set_milestones,
  set_resource_errors,
}
use justprojects.Workspace.Load.{resource_load_error}

unfoldable pub start_refresh_tasks : String → Bool → World → World
start_refresh_tasks project_id quiet w =
    if w.configured && truthy project_id
    then await (list_tasks project_id) (refresh_tasks project_id quiet)
        (if quiet then w else record w { refreshing_tasks = true })
    else w

-- `finally`
abbrev pub refreshed : Bool → World → World
refreshed quiet w = if quiet then w else record w { refreshing_tasks = false }

-- The answer counts only while its project is still the one that is shown.
unfoldable pub after_refresh_tasks : String → Bool → Outcome (Option (List Task)) → World → World
after_refresh_tasks project_id quiet (fulfilled items) w = refreshed quiet (
    set_resource_errors (record (w.resource_errors) { tasks_error = none })
      (if w.workspace_data.project.id == project_id then set_tasks (get_or items []) w else w))
after_refresh_tasks project_id quiet (rejected f) w =
    refreshed quiet (
      set_resource_errors (record (w.resource_errors) { tasks_error = some resource_load_error }) w)

unfoldable pub start_refresh_sync_runs : Bool → World → World
start_refresh_sync_runs quiet w =
    if w.configured then await list_sync_runs (refresh_sync_runs quiet) w else w

unfoldable pub after_refresh_sync_runs : Bool → Outcome (Option (List SyncEvent)) → World → World
after_refresh_sync_runs quiet (fulfilled items) w =
    set_resource_errors (record (w.resource_errors) { sync_error = none })
      (set_data (record (w.workspace_data) { sync_events = get_or items [] }) w)
after_refresh_sync_runs quiet (rejected f) w =
    if quiet
    then w
    else set_resource_errors (record (w.resource_errors) { sync_error = some resource_load_error })
        w

unfoldable pub start_refresh_milestones : String → World → World
start_refresh_milestones project_id w =
    if w.configured && truthy project_id
    then await (list_milestones project_id) (refresh_milestones project_id) w
    else w

unfoldable pub after_refresh_milestones : String → Outcome (Option (List Milestone)) → World → World
after_refresh_milestones project_id (fulfilled items) w =
    set_resource_errors (record (w.resource_errors) { milestones_error = none })
      (if w.workspace_data.project.id == project_id then set_milestones (get_or items []) w else w)
after_refresh_milestones project_id (rejected f) w =
    set_resource_errors (record (w.resource_errors) { milestones_error = some resource_load_error })
      w

-- The timer of the integrations view, every three seconds.
unfoldable pub sync_tick : World → World
sync_tick w = elim (w.active_view) [ integrations ↦ start_refresh_sync_runs true w | _ ↦ w ]

-- The timer of the overview, the tasks and the roadmap, every five seconds.
unfoldable pub poll_tick : World → World
poll_tick w =
    let id = w.workspace_data.project.id in
    let asked = start_refresh_tasks id true w in
    elim (w.active_view) [
      | overview ↦ start_refresh_sync_runs true (start_refresh_milestones id asked)
      | tasks ↦ asked
      | roadmap ↦ start_refresh_milestones id asked
      | integrations ↦ w
      | settings ↦ w
    ]
