-- ===== src/Access/Viewers.antt =====
-- What the panel lets those do who may not manage the workspace.
use justprojects.Base.{
  String, ◌≡◌, refl, ap, ◌∙◌, Bool, true, false, not, ◌&&◌, ◌||◌, Option, List, [], ◌∷◌, ◌++◌, any,
  any-insert, any-snoc, arith, if◌then◌else◌,
}
use justprojects.Types.{Session}
use justprojects.Workspace.{Outcome, fulfilled, rejected}
use justprojects.Access.{
  AccessJob, lists_job, invite_job, role_job, Access, unmounted, can_manage, has_session,
  start_load, after_lists,
}
use justprojects.Access.Events.{
  AccessReply, settle, AccessAction, retry, change_language, invite, set_email, set_role, move_to,
  pick_role, managing, do_action, AccessReach, opened, act, reply,
}

-- the requests that only a manager makes
abbrev is_managed : AccessJob → Bool
is_managed (lists_job with_grants) = with_grants
is_managed _ = true

-- The session may not manage, and nothing was done or shown that only a manager may.
record IsReadOnly (p : Access) : Type 0 where
  viewer : can_manage p.session ≡ false
  asked : any is_managed p.pending ≡ false
  unsent : p.sent ≡ []
  ungranted : p.grants ≡ []

if-IsReadOnly :
    (test : Bool) (p q : Access)
    → (test ≡ true → IsReadOnly p)
    → IsReadOnly q
    → IsReadOnly (if test then p else q)
if-IsReadOnly true p q h g = h refl
if-IsReadOnly false p q h g = g

start_load-IsReadOnly : (p : Access) → IsReadOnly p → IsReadOnly (start_load p)
unfolding start_load
start_load-IsReadOnly p h =
    if-IsReadOnly (not p.configured || not (has_session p.session)) p _ (λ e. h)
      (record {
        viewer = h.viewer;
        asked = ground (
          arith,
          h.asked,
          h.viewer,
          any-snoc is_managed p.pending (lists_job (can_manage p.session)),
        );
        unsent = h.unsent;
        ungranted = h.ungranted;
      })

do_action-IsReadOnly : (a : AccessAction) (p : Access) → IsReadOnly p → IsReadOnly (do_action a p)
unfolding do_action
do_action-IsReadOnly retry p h = start_load-IsReadOnly p h
do_action-IsReadOnly change_language p h = start_load-IsReadOnly p h
do_action-IsReadOnly invite p h =
    if-IsReadOnly (managing p && _) _ p (λ e. absurd (ground (arith, e, h.viewer))) h
do_action-IsReadOnly (set_email text) p h = record {
  viewer = h.viewer;
  asked = h.asked;
  unsent = h.unsent;
  ungranted = h.ungranted;
}
do_action-IsReadOnly (set_role text) p h = record {
  viewer = h.viewer;
  asked = h.asked;
  unsent = h.unsent;
  ungranted = h.ungranted;
}
do_action-IsReadOnly (move_to id) p h =
    start_load-IsReadOnly (record p { project_id = id })
      (record { viewer = h.viewer; asked = h.asked; unsent = h.unsent; ungranted = h.ungranted })
do_action-IsReadOnly (pick_role member role) p h =
    if-IsReadOnly (managing p && _) _ p (λ e. absurd (ground (arith, e, h.viewer))) h

module _ (before after : List AccessJob) (p : Access) where
  abbrev taken : Access
  taken = record p { pending = before ++ after }

  rest_asked :
      (j : AccessJob)
      → p.pending ≡ before ++ j ∷ after
      → IsReadOnly p
      → (is_managed j ≡ false) × (any is_managed (before ++ after) ≡ false)
  rest_asked j left h =
      let counted = ap (any is_managed) left ∙ any-insert is_managed before after j in
      (ground (arith, counted, h.asked), ground (arith, counted, h.asked))

  settle-IsReadOnly :
      (j : AccessJob) (o : Outcome (AccessReply j))
      → p.pending ≡ before ++ j ∷ after
      → IsReadOnly p
      → IsReadOnly (settle j o taken)
  unfolding settle after_lists
  settle-IsReadOnly (lists_job with_grants) (fulfilled lists) left h =
      let rest = rest_asked (lists_job with_grants) left h in
      record { viewer = h.viewer; asked = rest.1; unsent = h.unsent; ungranted = rw rest.0 refl }
  settle-IsReadOnly (lists_job with_grants) (rejected f) left h =
      let rest = rest_asked (lists_job with_grants) left h in
      record { viewer = h.viewer; asked = rest.1; unsent = h.unsent; ungranted = h.ungranted }
  settle-IsReadOnly invite_job o left h = absurd (ground (arith, (rest_asked invite_job left h).0))
  settle-IsReadOnly (role_job member role) o left h =
      absurd (ground (arith, (rest_asked (role_job member role) left h).0))

AccessReach-IsReadOnly :
    (configured : Bool) (project_id : String) (session : Option Session) (p : Access)
    → can_manage session ≡ false
    → AccessReach configured project_id session p
    → IsReadOnly p
AccessReach-IsReadOnly configured project_id session p viewer opened =
    start_load-IsReadOnly (unmounted configured project_id session)
      (record { viewer = viewer; asked = refl; unsent = refl; ungranted = refl })
AccessReach-IsReadOnly configured project_id session p viewer (act a q r) =
    do_action-IsReadOnly a q (AccessReach-IsReadOnly configured project_id session q viewer r)
AccessReach-IsReadOnly configured project_id session p viewer (reply before after j o q r left) =
    settle-IsReadOnly before after q j o left
      (AccessReach-IsReadOnly configured project_id session q viewer r)

-- As long as the session's role is neither owner nor admin, or there is no session: whatever is
-- clicked, and in whatever order the answers come, the panel sends no invitation and no change
-- of a role, and holds no permission grant.
pub viewer_sends_nothing :
    (configured : Bool) (project_id : String) (session : Option Session) (p : Access)
    → can_manage session ≡ false
    → AccessReach configured project_id session p
    → (p.sent ≡ []) × (p.grants ≡ [])
viewer_sends_nothing configured project_id session p viewer r =
    let h = AccessReach-IsReadOnly configured project_id session p viewer r in
    (h.unsent, h.ungranted)
