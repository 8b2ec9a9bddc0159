-- ===== src/PublicStatus/Tests.antt =====
-- The page at concrete inputs.
use justprojects.Base.{◌≡◌, refl, true, false, none, [], ◌∷◌}
use mathlib.Core.List.{Memᴰ}
use justprojects.Types.{null}
use justprojects.Answers.{answered, failed, api_error}
use justprojects.Workspace.Samples.{signed_in, ann}
use justprojects.PublicStatus.{
  PublicProjectData, PublicStatus, page_job, login_job, granted_job, unmounted, load_page,
  after_page, mount_form, start_login, after_login, after_granted, shows_project,
}
use justprojects.PublicStatus.Events.{
  StatusRun, here, act, reply, settle, do_action, submit, change_language,
}
use justprojects.PublicStatus.Shown.{shown_project-IsSeen}
use justprojects.PublicStatus.Stuck.{error_stays}

abbrev status_data : PublicProjectData
status_data = record {
  page = record { title = none; access_mode = "login" };
  project = record { name = "Rocket"; key = "RKT"; description = none; target_date = null };
  tasks = [];
  milestones = [];
  updates = [];
}

-- opens what the page computes with
page : Unit {0}
unfolding load_page after_page mount_form start_login after_login after_granted settle do_action
page = tt

abbrev opening : PublicStatus
opening = load_page (unmounted true "rkt-status" none)

-- The customer has to sign in, does, and is shown the project.
abbrev asked : PublicStatus
asked = mount_form opening (
    settle (page_job "rkt-status" none) (failed (api_error "sign in" 401))
      (record opening { pending = [] }))

abbrev sent : PublicStatus
sent = do_action submit asked

abbrev let_in : PublicStatus
let_in =
    mount_form sent
      (settle (login_job 1 "rkt-status" "" "") (answered signed_in) (record sent { pending = [] }))

abbrev inside : PublicStatus
inside = mount_form let_in (
    settle (granted_job 1 "rkt-status" ann) (answered status_data) (record let_in { pending = [] }))

inside-Run : StatusRun opening (status_data ∷ []) inside
unfolding page
inside-Run =
    reply [] [] (granted_job 1 "rkt-status" ann) (answered status_data) let_in
      (reply [] [] (login_job 1 "rkt-status" "" "") (answered signed_in) sent
        (act submit asked (
          reply [] [] (page_job "rkt-status" none) (failed (api_error "sign in" 401)) opening here
            refl refl))
        refl tt)
      refl tt

shown_project-IsSeen_example : Memᴰ inside.payload (status_data ∷ [])
unfolding page
shown_project-IsSeen_example =
    shown_project-IsSeen true "rkt-status" none (status_data ∷ []) inside inside-Run refl

-- The page was not there; after a change of the language it is, but is not shown.
abbrev missing : PublicStatus
missing =
    settle (page_job "rkt-status" none) (failed (api_error "not found" 404))
      (record opening { pending = [] })

abbrev again : PublicStatus
again = do_action change_language missing

abbrev answered_again : PublicStatus
answered_again =
    mount_form again
      (settle (page_job "rkt-status" none) (answered status_data) (record again { pending = [] }))

error_stays_example : shows_project answered_again ≡ false
unfolding page
error_stays_example = error_stays missing (status_data ∷ []) answered_again refl (
    reply [] [] (page_job "rkt-status" none) (answered status_data) again
      (act change_language missing here) refl tt)
