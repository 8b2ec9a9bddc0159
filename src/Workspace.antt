-- ===== src/Workspace.antt =====
-- The state of `ProjectWorkspace` in services/frontend/components/project-workspace.tsx, and what
-- its handlers do to the world: the requests in flight, the toasts and the navigation.
-- A handler runs up to its first `await`, which leaves a `Job` in `pending`: the request, and what
-- the code behind the `await` has captured. An answer to that job runs the code behind it.
-- A translated message is its translation key.
pub mod Load
pub mod Refresh
pub mod Tasks
pub mod Milestones
pub mod Projects
pub mod Events
pub mod Loading
pub mod Isolation
pub mod GivenUp
pub mod Freshness
pub mod Edited
pub mod Optimistic
pub mod Rollback
pub mod Requests
pub mod Store
pub mod Samples
mod Tests
use justprojects.Base.{
  ℕ, String, Bool, true, false, Option, none, List, [], ◌∷◌, ◌++◌, map, ◌==◌, if◌then◌else◌,
}
use justprojects.Toast.{ToastKind}
use justprojects.Types.{
  Slot, WorkspaceView, Task, Milestone, Project, ProjectStatus, Session, WorkspaceData, undefined,
}

-- `created.name · text` is `named`
pub data Message : Type 0 where
  text : String → Message
  named : String → String → Message

-- `ApiError` of services/frontend/lib/api.ts, and any other thing that is thrown
pub data Failure : Type 0 where
  api_error : (message : String) (status : ℕ) → Failure
  other_error : Failure

-- how a request ends
pub data Outcome {ℓ} (A : Type ℓ) : Type ℓ where
  fulfilled : A → Outcome A
  rejected : Failure → Outcome A

pub record ResourceErrors : Type 0 where
  pub tasks_error : Option Message
  pub milestones_error : Option Message
  pub labels_error : Option Message
  pub connections_error : Option Message
  pub sync_error : Option Message
  pub members_error : Option Message
  pub updates_error : Option Message

abbrev pub no_errors : ResourceErrors
no_errors = record {
  tasks_error = none;
  milestones_error = none;
  labels_error = none;
  connections_error = none;
  sync_error = none;
  members_error = none;
  updates_error = none;
}

-- `NewTaskInput`; the `null` and the missing assignee are told apart
pub record TaskInput : Type 0 where
  pub title : String
  pub description : String
  pub status_id : String
  pub milestone_id : Option String
  pub priority : String
  pub start_date : String
  pub due_date : String
  pub estimate_minutes : Option ℕ
  pub assignee_id : Slot String
  pub visibility : String

pub record MilestoneInput : Type 0 where
  pub name : String
  pub description : String
  pub start_date : String
  pub due_date : String
  pub status : String
  pub visibility : String

pub record ProjectInput : Type 0 where
  pub name : String
  pub key : String
  pub description : String
  pub start_date : String
  pub target_date : String

-- The body of the PATCH of a task: a field that is `none` is not sent.
pub record TaskPatch : Type 0 where
  pub title : Option String
  pub description : Option String
  pub status_id : Option String
  pub milestone_id : Option String
  pub priority : Option String
  pub start_date : Option String
  pub due_date : Option String
  pub estimate_minutes : Option ℕ
  pub assignee_id : Option String
  pub visibility : Option String
  pub version : Option ℕ

-- The bodies of the POST requests of a milestone and a project, with the empty dates left out.
pub record MilestoneBody : Type 0 where
  pub name : String
  pub description : String
  pub start_date : Option String
  pub due_date : Option String
  pub status : String
  pub visibility : String

pub record ProjectBody : Type 0 where
  pub name : String
  pub key : Option String
  pub description : String
  pub start_date : Option String
  pub target_date : Option String

-- The requests that are sent.
pub data Request : Type 0 where
  get_session list_projects : Request
  get_project list_tasks list_milestones list_labels : String → Request
  list_git_connections list_sync_runs list_tenant_members : Request
  list_project_updates : String → Request
  post_logout : Request
  patch_project : String → Slot String → ℕ → Request
  post_task : String → TaskInput → Request
  patch_task : String → String → TaskPatch → Request
  post_project : ProjectBody → Request
  post_milestone : String → MilestoneBody → Request
  patch_milestone : String → String → MilestoneInput → ℕ → Request

-- Where the router is sent; a key is in lower case.
pub data Route : Type 0 where
  login : Route
  login_next : String → WorkspaceView → Route
  project_page : List ℕ → WorkspaceView → Route

-- What the component does outside its own state. `thrown` is a rejection that the handler hands on
-- to the dialog which called it.
pub data Effect : Type 0 where
  sent : Request → Effect
  push_route replace_route : Route → Effect
  toast : ToastKind → Message → Effect
  store_last_project : String → String → Effect
  thrown : Failure → Effect

-- A handler that waits, with what the code behind its `await` has captured.
pub data Job : Type 0 where
  load_session : (ref : String) (route : String) (view : WorkspaceView) → Job
  load_projects : (ref : String) (route : String) (view : WorkspaceView) → Session → Job
  load_details :
      (route : String) (view : WorkspaceView) → Session → List Project → (chosen : Project) → Job
  load_resources : (route : String) (view : WorkspaceView) → Job
  refresh_tasks : (project_id : String) (quiet : Bool) → Job
  refresh_sync_runs : (quiet : Bool) → Job
  refresh_milestones : (project_id : String) → Job
  logging_out : Job
  change_connection : (previous : Project) → Job
  create_task : (project_id : String) → Option ProjectStatus → Job
  update_task : (project_id : String) (previous : List Task) → Job
  change_status : (project_id task_id : String) (previous : List Task) → Job
  create_project : Job
  create_milestone : (project_id : String) → Job
  update_milestone : (project_id : String) (previous : List Milestone) → Job

-- The component's state, its props, and what it has left to the environment.
pub record World : Type 0 where
  pub configured : Bool
  pub project_ref : String
  pub active_view : WorkspaceView
  pub workspace_data : WorkspaceData
  pub selected_task : Option Task
  pub editing_task : Option Task
  pub editing_milestone : Option Milestone
  pub loading : Bool
  pub error_message : Option Message
  pub resource_errors : ResourceErrors
  pub refreshing_tasks : Bool
  pub pending : List Job
  pub effects : List Effect

abbrev pub empty_workspace : WorkspaceData
empty_workspace = record {
  project = record {
    id = "";
    name = "";
    key = "";
    description = none;
    start_date = undefined;
    target_date = undefined;
    connection_id = undefined;
    status = "active";
    version = 0;
  };
  projects = [];
  statuses = [];
  members = [];
  tasks = [];
  milestones = [];
  labels = [];
  session = none;
  sync_events = [];
  git_connections = [];
  updates = [];
}

-- the state before the first effect
abbrev pub mounted : Bool → String → WorkspaceView → World
mounted configured ref view = record {
  configured = configured;
  project_ref = ref;
  active_view = view;
  workspace_data = empty_workspace;
  selected_task = none;
  editing_task = none;
  editing_milestone = none;
  loading = true;
  error_message = none;
  resource_errors = no_errors;
  refreshing_tasks = false;
  pending = [];
  effects = [];
}

abbrev pub emit : Effect → World → World
emit e w = record w { effects = w.effects ++ e ∷ [] }

-- a request, and the code that waits for its answer
abbrev pub await : Request → Job → World → World
await r j w = record w { effects = w.effects ++ sent r ∷ []; pending = w.pending ++ j ∷ [] }

abbrev pub set_data : WorkspaceData → World → World
set_data d w = record w { workspace_data = d }

abbrev pub set_tasks : List Task → World → World
set_tasks ts w = record w { workspace_data = record (w.workspace_data) { tasks = ts } }

abbrev pub set_milestones : List Milestone → World → World
set_milestones ms w = record w { workspace_data = record (w.workspace_data) { milestones = ms } }

abbrev pub set_project : Project → World → World
set_project p w = record w { workspace_data = record (w.workspace_data) { project = p } }

abbrev pub set_error : Option Message → World → World
set_error e w = record w { error_message = e }

abbrev pub set_resource_errors : ResourceErrors → World → World
set_resource_errors e w = record w { resource_errors = e }

-- `items.map((item) => item.id === id ? value : item)`
abbrev pub replace_task : String → Task → List Task → List Task
replace_task id v = map (λ item. if item.id == id then v else item)

abbrev pub replace_milestone : String → Milestone → List Milestone → List Milestone
replace_milestone id v = map (λ item. if item.id == id then v else item)
