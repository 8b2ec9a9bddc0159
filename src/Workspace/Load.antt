-- ===== src/Workspace/Load.antt =====
-- `loadWorkspace` of services/frontend/components/project-workspace.tsx: the part before the first
-- `await`, and the part behind each of the four.
use justprojects.Base.{
  String, Bool, true, false, Option, none, some, get_or, List, [], ◌∷◌, ◌++◌, ◌||◌, ◌==◌, nat_eq,
  find, codes, codes_eq, lower, if◌then◌else◌,
}
use justprojects.Types.{
  WorkspaceView, Task, Milestone, Project, ProjectStatus, Label, Session, TenantMember, SyncEvent,
  GitConnection, ProjectUpdate,
}
use justprojects.Workspace.{
  Message, text, Failure, api_error, other_error, Outcome, fulfilled, rejected, no_errors,
  get_session, list_projects, get_project, list_tasks, login_next, project_page, replace_route,
  store_last_project, load_session, load_projects, load_details, load_resources, World, emit, await,
  set_data, set_error, set_resource_errors, list_milestones, list_labels, list_git_connections,
  list_sync_runs, list_tenant_members, list_project_updates, sent,
}

-- the answer of `getProject`; `project` may be missing
pub record ProjectDetails : Type 0 where
  pub project : Option Project
  pub statuses : List ProjectStatus

-- What `Promise.allSettled` gives. A list that is missing counts as an empty one.
pub record Resources : Type 0 where
  pub tasks : Outcome (Option (List Task))
  pub milestones : Outcome (Option (List Milestone))
  pub labels : Outcome (Option (List Label))
  pub connections : Outcome (Option (List GitConnection))
  pub sync_runs : Outcome (Option (List SyncEvent))
  pub members : Outcome (Option (List TenantMember))
  pub updates : Outcome (Option (List ProjectUpdate))

abbrev pub resource_load_error : Message
resource_load_error = text "workspace.resourceLoadError"

-- `response.items ?? []` of a fulfilled request, and `[]` of a rejected one
abbrev pub settled_items {ℓ} : {A : Type ℓ} → Outcome (Option (List A)) → List A
settled_items (fulfilled items) = get_or items []
settled_items (rejected f) = []

-- `failed(key)`
abbrev pub failed {ℓ} : {A : Type ℓ} → Outcome A → Option Message
failed (fulfilled a) = none
failed (rejected f) = some resource_load_error

-- the test of `projects.find`
abbrev pub names_project : String → Project → Bool
names_project ref item = item.id == ref || codes_eq (lower (codes item.key)) (lower (codes ref))

-- `finally`
abbrev pub finish : World → World
finish w = record w { loading = false }

-- `catch`: an unauthorized request leads to the login page, any other failure to a message.
unfoldable pub load_failed : Failure → String → WorkspaceView → World → World
load_failed (api_error message status) route view w = finish (
    if nat_eq status 401
    then emit (replace_route (login_next route view)) w
    else set_error (some (text "workspace.loadError")) w)
load_failed other_error route view w = finish (set_error (some (text "workspace.loadError")) w)

unfoldable pub load_workspace : String → World → World
load_workspace ref w =
    if w.configured
    then await get_session (load_session ref w.project_ref w.active_view)
        (record w { loading = true; error_message = none; resource_errors = no_errors })
    else w

-- behind `await getSession()`
unfoldable pub after_session : String → String → WorkspaceView → Outcome Session → World → World
after_session ref route view (fulfilled session) w =
    await list_projects (load_projects ref route view session) w
after_session ref route view (rejected f) w = load_failed f route view w

-- `if (projectId !== canonicalKey) router.replace(...)`
abbrev pub to_canonical : String → Project → WorkspaceView → World → World
to_canonical ref chosen view w =
    let key = lower (codes chosen.key) in
    if codes_eq (codes ref) key then w else emit (replace_route (project_page key view)) w

abbrev pub choose_project :
    String → String → WorkspaceView → Session → List Project → Option Project → World → World
choose_project ref route view session projects none w = load_failed other_error route view w
choose_project ref route view session projects (some chosen) w =
    await (get_project chosen.id) (load_details route view session projects chosen)
      (to_canonical ref chosen view w)

-- behind `await listProjects()`
unfoldable pub after_projects :
    String → String → WorkspaceView → Session → Outcome (Option (List Project)) → World → World
after_projects ref route view session (fulfilled items) w =
    let projects = get_or items [] in
    choose_project ref route view session projects (find (names_project ref) projects) w
after_projects ref route view session (rejected f) w = load_failed f route view w

-- the seven requests of `Promise.allSettled`, in their order
abbrev pub send_resources : String → World → World
send_resources id w = emit (sent (list_project_updates id)) (
    emit (sent list_tenant_members) (
      emit (sent list_sync_runs) (
        emit (sent list_git_connections) (
          emit (sent (list_labels id))
            (emit (sent (list_milestones id)) (emit (sent (list_tasks id)) w))))))

-- behind `await getProject(resolvedProjectId)`
unfoldable pub after_details :
    String
    → WorkspaceView
    → Session
    → List Project
    → Project
    → Outcome ProjectDetails
    → World
    → World
after_details route view session projects chosen (fulfilled details) w =
    let stored = emit (store_last_project session.tenant.id chosen.id) (
      set_data
        (record (w.workspace_data) {
          project = get_or details.project chosen;
          projects = projects;
          statuses = details.statuses;
          session = some session;
        })
        w) in
    let asked = send_resources chosen.id stored in
    record asked { pending = asked.pending ++ load_resources route view ∷ [] }
after_details route view session projects chosen (rejected f) w = load_failed f route view w

-- behind `await Promise.allSettled(...)`, which is never rejected
unfoldable pub after_resources : String → WorkspaceView → Outcome Resources → World → World
after_resources route view (fulfilled r) w = finish (
    set_data
      (record (w.workspace_data) {
        members = settled_items r.members;
        tasks = settled_items r.tasks;
        milestones = settled_items r.milestones;
        labels = settled_items r.labels;
        git_connections = settled_items r.connections;
        sync_events = settled_items r.sync_runs;
        updates = settled_items r.updates;
      })
      (set_resource_errors
        (record {
          tasks_error = failed r.tasks;
          milestones_error = failed r.milestones;
          labels_error = failed r.labels;
          connections_error = failed r.connections;
          sync_error = failed r.sync_runs;
          members_error = failed r.members;
          updates_error = failed r.updates;
        })
        w))
after_resources route view (rejected f) w = load_failed f route view w
