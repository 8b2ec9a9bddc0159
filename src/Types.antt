-- ===== src/Types.antt =====
-- The data of services/frontend/lib/types.ts, as far as the modelled components use it.
-- `x?: T` is `Option T`, and `x?: T | null` is `Slot T`, which tells a key that is missing from one
-- that is null: a spread `{ ...a, ...b }` keeps the value of `a` for the first only.
-- Counts, positions, versions and minutes are natural numbers; a time stamp is its text.
use justprojects.Base.{ℕ, String, Bool, Option, none, some, List, truthy, if◌then◌else◌}

pub data Slot {ℓ} (A : Type ℓ) : Type ℓ where
  undefined : Slot A
  null : Slot A
  value : A → Slot A

module _ {ℓ} {A : Type ℓ} where
  -- `a ?? …`: null and undefined are missing alike
  abbrev pub present : Slot A → Option A
  present undefined = none
  present null = none
  present (value a) = some a

  -- the property that a spread of `new` over `old` leaves
  abbrev pub over_slot : Slot A → Slot A → Slot A
  over_slot undefined old = old
  over_slot null old = null
  over_slot (value a) old = value a

  -- `a ?? null`
  abbrev pub or_null : Option A → Slot A
  or_null none = null
  or_null (some a) = value a

-- `s || null`
abbrev pub text_or_null : String → Slot String
text_or_null s = if truthy s then value s else null

-- a reference as a condition: missing, null and the empty text are false
abbrev pub reference : Slot String → Option String
reference undefined = none
reference null = none
reference (value s) = if truthy s then some s else none

pub data StatusCategory : Type 0 where
  backlog todo in_progress blocked done : StatusCategory

pub data WorkspaceView : Type 0 where
  overview tasks roadmap integrations settings : WorkspaceView

pub record User : Type 0 where
  pub id : String
  pub name : String
  pub email : String
  pub email_verified : Option Bool
  pub platform_admin : Option Bool
  pub suspended : Option Bool

pub record Tenant : Type 0 where
  pub id : String
  pub name : String
  pub slug : String
  pub request_slug : String

pub record Membership : Type 0 where
  pub id : Option String
  pub role : String

-- `membership` is the intersection with `{ tenantId, userId }`.
pub record TenantMember : Type 0 where
  pub membership : Membership
  pub tenant_id : String
  pub user_id : String
  pub user : User

pub record Session : Type 0 where
  pub user : User
  pub tenant : Tenant
  pub membership : Membership
  pub platform_admin : Option Bool

pub record Project : Type 0 where
  pub id : String
  pub name : String
  pub key : String
  pub description : Option String
  pub start_date : Slot String
  pub target_date : Slot String
  pub connection_id : Slot String
  pub status : String
  pub version : ℕ

pub record ProjectStatus : Type 0 where
  pub id : String
  pub project_id : Option String
  pub name : String
  pub category : StatusCategory
  pub position : ℕ
  pub color : Option String

pub record Label : Type 0 where
  pub id : String
  pub name : String
  pub color : String

pub record RemoteAssignee : Type 0 where
  pub provider : String
  pub login : String
  pub mapped : Bool

pub record Task : Type 0 where
  pub id : String
  pub project_id : String
  pub parent_id : Slot String
  pub milestone_id : Slot String
  pub status_id : String
  pub status_name : Option String
  pub status_category : Option StatusCategory
  pub title : String
  pub description : Option String
  pub priority : String
  pub start_date : Slot String
  pub due_date : Slot String
  pub estimate_minutes : Slot ℕ
  pub assignee_id : Slot String
  pub assignee_name : Option String
  pub visibility : String
  pub position : ℕ
  pub version : ℕ
  pub labels : Option (List Label)
  pub remote_assignees : Option (List RemoteAssignee)
  pub created_at : Option String
  pub updated_at : Option String

pub record Milestone : Type 0 where
  pub id : String
  pub project_id : Option String
  pub name : String
  pub description : Option String
  pub start_date : Slot String
  pub due_date : Slot String
  pub status : String
  pub visibility : String
  pub version : ℕ

-- `metadata` and `payload` are the texts of JSON objects.
pub record SyncEventLog : Type 0 where
  pub id : String
  pub sync_event_id : String
  pub level : String
  pub phase : Option String
  pub message : String
  pub metadata : Option String
  pub created_at : String
  pub updated_at : Option String

pub record SyncEvent : Type 0 where
  pub id : String
  pub provider : Option String
  pub event_name : String
  pub action : Option String
  pub status : String
  pub created_at : String
  pub updated_at : Option String
  pub error_message : Option String
  pub payload : Option String
  pub logs : Option (List SyncEventLog)

pub record GitConnection : Type 0 where
  pub id : String
  pub provider : String
  pub name : Option String
  pub api_base_url : Option String
  pub auth_method : String
  pub external_account_id : Option ℕ
  pub external_account_login : Option String
  pub installation_id : Slot ℕ
  pub scopes : List String
  pub active : Bool

pub record ProjectUpdate : Type 0 where
  pub id : String
  pub project_id : String
  pub author_id : Slot String
  pub author_name : Option String
  pub title : String
  pub body : String
  pub visibility : String
  pub created_at : String
  pub updated_at : Option String

pub record WorkspaceData : Type 0 where
  pub project : Project
  pub projects : List Project
  pub statuses : List ProjectStatus
  pub members : List TenantMember
  pub tasks : List Task
  pub milestones : List Milestone
  pub labels : List Label
  pub session : Option Session
  pub sync_events : List SyncEvent
  pub git_connections : List GitConnection
  pub updates : List ProjectUpdate

pub record Notification : Type 0 where
  pub id : String
  pub kind : String
  pub title : String
  pub body : String
  pub link : Slot String
  pub read_at : Slot String
  pub created_at : String

pub record ProjectRequest : Type 0 where
  pub id : String
  pub tenant_id : Option String
  pub source_public_page_id : Slot String
  pub requester_user_id : Slot String
  pub requester_name : String
  pub requester_email : String
  pub title : String
  pub description : String
  pub requested_start_date : Slot String
  pub requested_target_date : Slot String
  pub priority : String
  pub status : String
  pub assigned_to : Slot String
  pub assigned_to_name : Option String
  pub internal_notes : Slot String
  pub converted_project_id : Slot String
  pub created_at : String
  pub updated_at : String

pub record GitRepository : Type 0 where
  pub id : String
  pub connection_id : String
  pub external_id : ℕ
  pub owner : String
  pub name : String
  pub full_name : String
  pub is_private : Bool

pub record RepositoryLink : Type 0 where
  pub id : String
  pub project_id : String
  pub repository_id : String

pub record ProjectRepository : Type 0 where
  pub link : RepositoryLink
  pub repository : GitRepository

pub record PublicPageSummary : Type 0 where
  pub id : String
  pub project_id : String
  pub slug : String
  pub access_mode : String
  pub title : Option String
  pub revoked : Bool
