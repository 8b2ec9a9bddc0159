-- ===== src/Integrations.antt =====
-- `IntegrationsView` of services/frontend/components/project-workspace.tsx: its state, and its
-- handlers cut at their `await`s. The children hold the handlers and the machine.
-- The properties `project` and `connections` are fields, since the parent may change them between
-- two events. A call of one of the parent's functions is logged in `effects`. Of a conflict only the
-- identifier is kept.
pub mod Repositories
pub mod Providers
pub mod Conflicts
pub mod Events
pub mod Causes
pub mod Signs
pub mod Races
mod Tests
use justprojects.Base.{ℕ, String, Bool, true, false, Option, none, List, [], ◌∷◌, ◌++◌}
use justprojects.Toast.{ToastKind}
use justprojects.Types.{Slot, Project, GitConnection, GitRepository, ProjectRepository}

-- a message: a translation key, with the values that it is given, or the server's own text
pub data Note : Type 0 where
  text : String → Note
  import_queued : String → List ℕ → Note
  repository_detached : String → Note
  server_text : String → Note

pub data Effect : Type 0 where
  toast : ToastKind → Note → Effect
  open_url : String → Effect
  change_connection : Option String → Effect
  list_connections : List GitConnection → Effect
  refresh_sync_runs : Bool → Effect
  refresh_tasks : String → Bool → Effect

-- A request in flight, with what the code behind its `await` has captured. `told_parent` is the wait
-- for the parent's change of the connection, `runs_told` that for its list of sync runs.
pub data Job : Type 0 where
  load_repositories load_conflicts : Job
  github_url install_url told_parent : Job
  attach_job import_job : String → GitRepository → Job
  detach_job : GitRepository → Job
  disconnect_job : GitConnection → List GitConnection → String → Job
  resolve_job : String → String → Bool → Job
  runs_told : Bool → Job

pub record Integrations : Type 0 where
  pub configured : Bool
  pub project : Project
  pub connections : List GitConnection
  pub connecting : Bool
  pub installing : Bool
  pub loading_repositories : Bool
  pub importing_id : Option String
  pub detaching_id : Option String
  pub resolving_id : Option String
  pub repositories : List GitRepository
  pub attached : List ProjectRepository
  pub available : List GitConnection
  pub selected_id : String
  pub conflicts : List String
  pub conflicts_unavailable : Bool
  pub conflict_error : Option Note
  pub error : Option Note
  pub pending : List Job
  pub effects : List Effect

abbrev pub await : Job → Integrations → Integrations
await j v = record v { pending = v.pending ++ j ∷ [] }

abbrev pub emit : Effect → Integrations → Integrations
emit e v = record v { effects = v.effects ++ e ∷ [] }

abbrev pub fail : String → Integrations → Integrations
fail key v = record v { error = Option.some (text key) }

abbrev pub clean : Integrations → Integrations
clean v = record v { error = none }
