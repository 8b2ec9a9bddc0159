-- ===== src/Integrations/Events.antt =====
-- The view as a machine: what the user, the timer and the parent do, and the answers to the requests
-- in flight, in any order.
use justprojects.Base.{
  String, Bool, true, false, ◌&&◌, Option, none, get_or, List, [], ◌∷◌, ◌++◌, ◌≡◌, ◌==◌,
  if◌then◌else◌,
}
use justprojects.Types.{present, Project, GitConnection, GitRepository, ProjectRepository}
use justprojects.Workspace.{Outcome}
use justprojects.Integrations.{
  Job, load_repositories, load_conflicts, github_url, install_url, told_parent, attach_job,
  import_job, detach_job, disconnect_job, resolve_job, runs_told, Integrations, emit, refresh_tasks,
}
use justprojects.Integrations.Repositories.{
  start_load_repositories, after_load_repositories, start_import, after_attach, after_import,
  start_detach, after_detach,
}
use justprojects.Integrations.Providers.{
  start_connect, after_connect, start_install, after_install, select_connection, connection_created,
  start_disconnect, after_disconnect, after_told_parent, follow_parent,
}
use justprojects.Integrations.Conflicts.{
  start_load_conflicts, after_load_conflicts, start_resolve, after_resolve, start_refresh_activity,
  after_runs_told,
}

abbrev pub Answer : Job → Type 0
Answer load_repositories = List GitRepository × List ProjectRepository
Answer load_conflicts = Option (List String)
Answer github_url = String
Answer install_url = String
Answer told_parent = Unit {0}
Answer (attach_job project_id repository) = ProjectRepository
Answer (import_job project_id repository) = String
Answer (detach_job repository) = Unit {0}
Answer (disconnect_job connection available selected) = Unit {0}
Answer (resolve_job id project_id unavailable) = Unit {0}
Answer (runs_told unavailable) = Unit {0}

-- the code behind the `await`
unfoldable pub settle : (j : Job) → Outcome (Answer j) → Integrations → Integrations
settle load_repositories = after_load_repositories
settle load_conflicts = after_load_conflicts
settle github_url = after_connect
settle install_url = after_install
settle told_parent = after_told_parent
settle (attach_job project_id repository) = after_attach project_id repository
settle (import_job project_id repository) = after_import repository
settle (detach_job repository) = after_detach repository
settle (disconnect_job connection available selected) =
    after_disconnect connection available selected
settle (resolve_job id project_id unavailable) = after_resolve id project_id unavailable
settle (runs_told unavailable) = after_runs_told unavailable

-- What the user, the timer, the parent and the children do: `retry_repositories` and `retry_conflicts`
-- are the retries of the two errors, `press_refresh` is the button of the repositories, which is
-- disabled while they load, `refresh_activity` is that of `SyncActivity`, and `mappings_changed` is
-- the callback of `GitAssigneeMappings`.
pub data Gesture : Type 0 where
  timer connect install : Gesture
  retry_repositories press_refresh retry_conflicts refresh_activity mappings_changed : Gesture
  pick_connection : Option String → Gesture
  created : GitConnection → Gesture
  disconnect : GitConnection → Gesture
  import_one detach_one : GitRepository → Gesture
  resolve : String → Gesture
  parent_changed : Project → List GitConnection → Gesture

unfoldable pub gesture : Gesture → Integrations → Integrations
gesture timer v = start_load_conflicts v
gesture retry_repositories v = start_load_repositories v
gesture press_refresh v = if v.loading_repositories then v else start_load_repositories v
gesture retry_conflicts v = start_load_conflicts v
gesture refresh_activity v = start_refresh_activity v
gesture mappings_changed v = emit (refresh_tasks v.project.id true) v
gesture connect v = start_connect v
gesture install v = start_install v
gesture (pick_connection value) v = select_connection value v
gesture (created connection) v = connection_created connection v
gesture (disconnect connection) v = start_disconnect connection v
gesture (import_one repository) v = start_import repository v
gesture (detach_one repository) v = start_detach repository v
gesture (resolve id) v = start_resolve id v
gesture (parent_changed project connections) v = follow_parent project connections v

-- The effects that React runs after an event: the repositories follow the project and the selected
-- connection, the conflicts follow the project.
unfoldable pub run_effects : Integrations → Integrations → Integrations
run_effects before after =
    let same_project = before.project.id == after.project.id in
    let loaded =
      if same_project && before.selected_id == after.selected_id
      then after
      else start_load_repositories after in
    if same_project then loaded else start_load_conflicts loaded

-- the first values of the state, and the effects of the mounting
abbrev pub unmounted : Bool → Project → List GitConnection → Integrations
unmounted configured project connections = record {
  configured = configured;
  project = project;
  connections = connections;
  connecting = false;
  installing = false;
  loading_repositories = false;
  importing_id = none;
  detaching_id = none;
  resolving_id = none;
  repositories = [];
  attached = [];
  available = connections;
  selected_id = get_or (present project.connection_id) "";
  conflicts = [];
  conflicts_unavailable = false;
  conflict_error = none;
  error = none;
  pending = [];
  effects = [];
}

unfoldable pub mounted : Bool → Project → List GitConnection → Integrations
mounted configured project connections =
    start_load_conflicts (start_load_repositories (unmounted configured project connections))

pub data Step : Integrations → Integrations → Type 0 where
  act : (g : Gesture) (v : Integrations) → Step v (run_effects v (gesture g v))
  reply :
      (before after : List Job) (j : Job) (o : Outcome (Answer j)) (v : Integrations)
      → v.pending ≡ before ++ j ∷ after
      → Step v (
          run_effects
            (record v { pending = before ++ after })
            (settle j o (record v { pending = before ++ after })))

pub data Reach (start : Integrations) : Integrations → Type 0 where
  here : Reach start start
  next : {u v : Integrations} → Reach start u → Step u v → Reach start v
