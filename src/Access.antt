-- ===== src/Access.antt =====
-- `WorkspaceAccessPanel` of services/frontend/components/project-workspace.tsx: the members, the
-- invitations and the grants, each handler cut at its `await`. A message is its translation key.
pub mod Events
pub mod Viewers
mod Tests
use justprojects.Base.{
  String, Bool, true, false, not, ◌&&◌, ◌||◌, Option, none, some, get_or, List, [], ◌∷◌, ◌++◌, map,
  truthy, trim_text, ◌==◌, if◌then◌else◌,
}
use justprojects.Types.{Slot, Session, TenantMember}
use justprojects.Workspace.{Outcome, fulfilled, rejected}

pub record Invitation : Type 0 where
  pub id : String
  pub tenant_id : String
  pub email : String
  pub role : String
  pub expires_at : String
  pub accepted_at : Slot String

pub record PermissionGrant : Type 0 where
  pub id : String
  pub tenant_id : String
  pub user_id : String
  pub project_id : Slot String
  pub permission : String
  pub effect : String

-- what `Promise.all` gives; the grants are those of the request for them
pub record AccessLists : Type 0 where
  pub members : Option (List TenantMember)
  pub invitations : Option (List Invitation)
  pub grants : Option (List PermissionGrant)

pub record CreatedInvitation : Type 0 where
  pub invitation : Invitation
  pub accept_url : String

-- the requests that change something
pub data AccessChange : Type 0 where
  invitation : (email role : String) → AccessChange
  role_change : (user_id role : String) → AccessChange

-- A handler that waits; `lists_job` knows whether it asked for the grants too.
pub data AccessJob : Type 0 where
  lists_job : (with_grants : Bool) → AccessJob
  invite_job : AccessJob
  role_job : TenantMember → String → AccessJob

-- The properties, the state, the requests in flight, the changes sent, and the toasts.
pub record Access : Type 0 where
  pub configured : Bool
  pub project_id : String
  pub session : Option Session
  pub members : List TenantMember
  pub invitations : List Invitation
  pub grants : List PermissionGrant
  pub email : String
  pub role : String
  pub loading : Bool
  pub saving : Bool
  pub error_message : Option String
  pub invite_url : Option String
  pub pending : List AccessJob
  pub sent : List AccessChange
  pub toasts : List String

abbrev pub ask : AccessJob → Access → Access
ask j p = record p { pending = p.pending ++ j ∷ [] }

abbrev toast : String → Access → Access
toast key p = record p { toasts = p.toasts ++ key ∷ [] }

abbrev pub unmounted : Bool → String → Option Session → Access
unmounted configured project_id session = record {
  configured = configured;
  project_id = project_id;
  session = session;
  members = [];
  invitations = [];
  grants = [];
  email = "";
  role = "member";
  loading = configured;
  saving = false;
  error_message = none;
  invite_url = none;
  pending = [];
  sent = [];
  toasts = [];
}

abbrev pub can_manage : Option Session → Bool
can_manage none = false
can_manage (some s) = s.membership.role == "owner" || s.membership.role == "admin"

abbrev has_session : Option Session → Bool
has_session none = false
has_session (some s) = true

-- `load` up to its `await`
unfoldable pub start_load : Access → Access
start_load p =
    if not p.configured || not (has_session p.session)
    then p
    else ask (lists_job (can_manage p.session)) (record p { loading = true; error_message = none })

unfoldable pub after_lists : Bool → Outcome AccessLists → Access → Access
after_lists with_grants (fulfilled lists) p = record p {
  members = get_or lists.members [];
  invitations = get_or lists.invitations [];
  grants = if with_grants then get_or lists.grants [] else [];
  loading = false;
}
after_lists with_grants (rejected f) p = record p {
  error_message = some "settings.accessLoadError";
  loading = false;
}

-- `invite` up to its `await`
unfoldable pub start_invite : Access → Access
start_invite p =
    if truthy (trim_text p.email)
    then ask invite_job (record p {
      saving = true;
      error_message = none;
      invite_url = none;
      sent = p.sent ++ invitation (trim_text p.email) p.role ∷ [];
    })
    else p

unfoldable pub after_invite : Outcome CreatedInvitation → Access → Access
after_invite (fulfilled result) p = toast "settings.inviteCreated" (record p {
  invitations = result.invitation ∷ p.invitations;
  email = "";
  invite_url = some result.accept_url;
  saving = false;
})
after_invite (rejected f) p = record p {
  error_message = some "settings.inviteError";
  saving = false;
}

-- `updateRole` up to its `await`
unfoldable pub start_update_role : TenantMember → String → Access → Access
start_update_role member role p =
    ask (role_job member role)
      (record p { error_message = none; sent = p.sent ++ role_change member.user.id role ∷ [] })

abbrev pub with_role : String → String → List TenantMember → List TenantMember
with_role user_id role = map (λ item.
    if item.user.id == user_id
    then record item { membership = record (item.membership) { role = role } }
    else item)

unfoldable pub after_update_role : TenantMember → String → Outcome (Unit {0}) → Access → Access
after_update_role member role (fulfilled done) p =
    toast "settings.memberUpdated" (record p { members = with_role member.user.id role p.members })
after_update_role member role (rejected f) p = record p {
  error_message = some "settings.memberError";
}
