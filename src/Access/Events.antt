-- ===== src/Access/Events.antt =====
-- The panel as a machine: its buttons and fields, changes of the project and the language, and the
-- answers to the requests in flight, in any order.
use justprojects.Base.{
  String, Bool, not, ◌&&◌, Option, List, ◌∷◌, ◌++◌, ◌≡◌, ◌==◌, truthy, trim_text, if◌then◌else◌,
}
use justprojects.Types.{Session, TenantMember}
use justprojects.Workspace.{Outcome}
use justprojects.Access.{
  AccessLists, CreatedInvitation, AccessJob, lists_job, invite_job, role_job, Access, unmounted,
  can_manage, start_load, after_lists, start_invite, after_invite, start_update_role,
  after_update_role,
}

abbrev pub AccessReply : AccessJob → Type 0
AccessReply (lists_job with_grants) = AccessLists
AccessReply invite_job = CreatedInvitation
AccessReply (role_job member role) = Unit {0}

-- the code behind the `await`
unfoldable pub settle : (j : AccessJob) → Outcome (AccessReply j) → Access → Access
settle (lists_job with_grants) = after_lists with_grants
settle invite_job = after_invite
settle (role_job member role) = after_update_role member role

pub data AccessAction : Type 0 where
  retry change_language invite : AccessAction
  set_email set_role move_to : String → AccessAction
  pick_role : TenantMember → String → AccessAction

-- the form of an invitation, and the select of a member's role, are rendered
abbrev pub managing : Access → Bool
managing p = not p.loading && can_manage p.session

unfoldable pub do_action : AccessAction → Access → Access
do_action retry p = start_load p
do_action change_language p = start_load p
do_action invite p =
    if managing p && (truthy (trim_text p.email) && not p.saving) then start_invite p else p
do_action (set_email text) p = record p { email = text }
do_action (set_role text) p = record p { role = text }
do_action (move_to project_id) p = start_load (record p { project_id = project_id })
do_action (pick_role member role) p =
    if managing p && (not (member.membership.role == "owner") && truthy role)
    then start_update_role member role p
    else p

-- What can happen while one session lasts.
pub data AccessReach (configured : Bool) (project_id : String) (session : Option Session)
    : Access → Type 0 where
  opened :
      AccessReach configured project_id session
        (start_load (unmounted configured project_id session))
  act :
      (a : AccessAction) (p : Access)
      → AccessReach configured project_id session p
      → AccessReach configured project_id session (do_action a p)
  reply :
      (before after : List AccessJob) (j : AccessJob) (o : Outcome (AccessReply j)) (p : Access)
      → AccessReach configured project_id session p
      → p.pending ≡ before ++ j ∷ after
      → AccessReach configured project_id session
          (settle j o (record p { pending = before ++ after }))
