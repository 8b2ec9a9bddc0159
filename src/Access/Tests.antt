-- ===== src/Access/Tests.antt =====
-- The panel at concrete inputs.
use justprojects.Base.{◌≡◌, refl, true, false, none, some, [], ◌∷◌, map}
use justprojects.Types.{Session, TenantMember}
use justprojects.Workspace.{fulfilled}
use justprojects.Workspace.Samples.{signed_in, ann}
use justprojects.Access.{
  AccessLists, Access, lists_job, role_job, invitation, role_change, unmounted, start_load,
  after_lists, start_invite, after_invite, start_update_role, after_update_role,
}
use justprojects.Access.Events.{opened, act, reply, settle, do_action, invite, set_email, pick_role}
use justprojects.Access.Viewers.{viewer_sends_nothing}

abbrev member : TenantMember
member = record {
  membership = record { id = some "m2"; role = "member" };
  tenant_id = "t1";
  user_id = "u1";
  user = ann;
}

abbrev lists : AccessLists
lists = record { members = some (member ∷ []); invitations = none; grants = some [] }

abbrev viewer : Session
viewer = record signed_in { membership = record { id = some "m3"; role = "viewer" } }

-- opens what the panel computes with
panel : Unit {0}
unfolding start_load after_lists start_invite after_invite start_update_role after_update_role
    settle do_action
panel = tt

abbrev loaded : Access
loaded =
    settle (lists_job false) (fulfilled lists)
      (record (start_load (unmounted true "p1" (some viewer))) { pending = [] })

abbrev tried : Access
tried =
    do_action (pick_role member "admin") (do_action invite (do_action (set_email "x@y.z") loaded))

viewer_sends_nothing_example : (tried.sent ≡ []) × (tried.grants ≡ [])
unfolding panel
viewer_sends_nothing_example = viewer_sends_nothing true "p1" (some viewer) tried refl (
    act (pick_role member "admin") _ (
      act invite _ (
        act (set_email "x@y.z") loaded
          (reply [] [] (lists_job false) (fulfilled lists) _ opened refl))))

-- an owner does both
abbrev owned : Access
owned =
    settle (lists_job true) (fulfilled lists)
      (record (start_load (unmounted true "p1" (some signed_in))) { pending = [] })

owner_tests :
    ((do_action
        (pick_role member "admin")
        (do_action invite (do_action (set_email " x@y.z ") owned))).sent
      ≡ invitation "x@y.z" "member" ∷ role_change "u1" "admin" ∷ [])
    × (map (λ m. m.membership.role) (settle (role_job member "admin") (fulfilled tt) owned).members
        ≡ "admin" ∷ [])
unfolding panel
owner_tests = (refl, refl)
