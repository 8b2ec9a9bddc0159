-- ===== src/Platform.antt =====
-- The state of `PlatformAdminPage` of services/frontend/components/platform-admin.tsx, and its lists as
-- they are searched. A message is its translation key; a handler's key in `saving` is its codes.
pub mod Load
pub mod Users
pub mod Settings
pub mod Events
pub mod Counts
pub mod Causes
pub mod Signs
pub mod Calm
mod Tests
use justprojects.Base.{
  ℕ, String, Bool, true, Option, none, some, List, [], ◌∷◌, ◌++◌, filter, codes, lower, trim,
  includes,
}
use justprojects.Types.{Project, Session}

pub record PlatformStats : Type 0 where
  pub users : ℕ
  pub active_users : ℕ
  pub suspended_users : ℕ
  pub workspaces : ℕ
  pub projects : ℕ
  pub tasks : ℕ
  pub active_sessions : ℕ
  pub recent_signups : ℕ
  pub recent_projects : ℕ

pub record PlatformSettings : Type 0 where
  pub login_enabled : Bool
  pub signup_enabled : Bool
  pub oidc_enabled : Bool

pub record PlatformUserSummary : Type 0 where
  pub id : String
  pub name : String
  pub email : String
  pub email_verified : Bool
  pub platform_admin : Bool
  pub suspended : Bool
  pub created_at : String
  pub updated_at : String
  pub tenant_count : ℕ
  pub project_count : ℕ
  pub active_sessions : ℕ
  pub last_active_at : Option String

pub record PlatformProjectSummary : Type 0 where
  pub id : String
  pub tenant_id : String
  pub tenant_name : String
  pub name : String
  pub key : String
  pub status : String
  pub created_at : String
  pub updated_at : String
  pub created_by_name : String
  pub task_count : ℕ
  pub completed_tasks : ℕ

-- `Partial<{ platformAdmin: boolean; suspended: boolean }>`
pub record UserPatch : Type 0 where
  pub platform_admin : Option Bool
  pub suspended : Option Bool

pub data PlatformRoute : Type 0 where
  login login_next app : PlatformRoute
  overview_page : List ℕ → PlatformRoute

-- `t(key)`, and `t(key, { count })`
pub data PlatformNote : Type 0 where
  text : String → PlatformNote
  counted : String → ℕ → PlatformNote

-- A handler that waits, with what the code behind its `await` has captured.
pub data PlatformJob : Type 0 where
  session_job lists_job setting_job logout_job : PlatformJob
  user_job : PlatformUserSummary → UserPatch → PlatformJob
  sessions_job : PlatformUserSummary → PlatformJob
  project_job : PlatformProjectSummary → String → PlatformJob

-- The state of the component, the requests in flight, and the pages opened.
pub record Platform : Type 0 where
  pub configured : Bool
  pub stats : Option PlatformStats
  pub settings : Option PlatformSettings
  pub users : List PlatformUserSummary
  pub projects : List PlatformProjectSummary
  pub shell_projects : List Project
  pub session : Option Session
  pub current_user_id : Option String
  pub user_query : String
  pub project_query : String
  pub loading : Bool
  pub saving : Option (List ℕ)
  pub error_message : Option String
  pub notice : Option PlatformNote
  pub pending : List PlatformJob
  pub routes : List PlatformRoute

abbrev pub ask : PlatformJob → Platform → Platform
ask j p = record p { pending = p.pending ++ j ∷ [] }

abbrev pub go_to : PlatformRoute → Platform → Platform
go_to r p = record p { routes = p.routes ++ r ∷ [] }

-- the first values of the state
abbrev pub mounted_platform : Bool → Platform
mounted_platform configured = record {
  configured = configured;
  stats = none;
  settings = none;
  users = [];
  projects = [];
  shell_projects = [];
  session = none;
  current_user_id = none;
  user_query = "";
  project_query = "";
  loading = true;
  saving = none;
  error_message = none;
  notice = none;
  pending = [];
  routes = [];
}

abbrev user_text : PlatformUserSummary → List ℕ
user_text u = lower (codes u.name ++ b' ' ∷ codes u.email)

abbrev project_text : PlatformProjectSummary → List ℕ
project_text p = lower (codes p.name ++ b' ' ∷ codes p.key ++ b' ' ∷ codes p.tenant_name)

-- `if (!normalized) return items`, else those whose text includes it
abbrev searched {ℓ} : {A : Type ℓ} → (A → List ℕ) → List ℕ → List A → List A
searched text_of [] items = items
searched text_of (c ∷ s) items = filter (λ item. includes (text_of item) (c ∷ s)) items

pub filtered_users : Platform → List PlatformUserSummary
filtered_users p = searched user_text (lower (trim (codes p.user_query))) p.users

pub filtered_projects : Platform → List PlatformProjectSummary
filtered_projects p = searched project_text (lower (trim (codes p.project_query))) p.projects
