-- ===== src/Workspace/GivenUp.antt =====
-- How a load of the workspace ends when one of its requests is rejected, or its project is unknown.
use justprojects.Base.{
  String, ◌≡◌, Bool, false, Option, none, some, get_or, List, [], ◌∷◌, ◌++◌, find, arith,
  if◌then◌else◌, nat_eq,
}
use justprojects.Types.{Project, Session, WorkspaceView}
use justprojects.Workspace.{
  text, Failure, api_error, other_error, fulfilled, rejected, load_session, load_projects,
  load_details, World, login_next, replace_route,
}
use justprojects.Workspace.Load.{
  names_project, load_failed, after_session, after_projects, after_details, choose_project,
}
use justprojects.Workspace.Events.{resume}

-- an `ApiError` of status 401
abbrev pub is_unauthorized : Failure → Bool
is_unauthorized (api_error message status) = nat_eq status 401
is_unauthorized other_error = false

-- How a load that failed ends: the data stay, the spinner goes off, and either the login page is
-- opened with the way back, or an error is shown.
pub record IsGivenUp (f : Failure) (route : String) (view : WorkspaceView) (w v : World)
    : Type 0 where
  pub data_kept : v.workspace_data ≡ w.workspace_data
  pub jobs_kept : v.pending ≡ w.pending
  pub quiet : v.loading ≡ false
  pub told :
      v.error_message
      ≡ (if is_unauthorized f then w.error_message else some (text "workspace.loadError"))
  pub sent_to_login : v.effects ≡ (
      if is_unauthorized f
      then w.effects ++ replace_route (login_next route view) ∷ []
      else w.effects)

load_failed-IsGivenUp :
    (f : Failure) (route : String) (view : WorkspaceView) (w : World)
    → IsGivenUp f route view w (load_failed f route view w)
unfolding load_failed
load_failed-IsGivenUp (api_error message status) route view w = ground arith
load_failed-IsGivenUp other_error route view w = ground arith

rejected_load-IsGivenUp :
    (ref route : String) (view : WorkspaceView) (session : Session) (ps : List Project)
    (chosen : Project) (f : Failure) (w : World)
    → IsGivenUp f route view w (resume (load_session ref route view) (rejected f) w)
      × IsGivenUp f route view w (resume (load_projects ref route view session) (rejected f) w)
      × IsGivenUp f route view w (resume (load_details route view session ps chosen) (rejected f) w)
unfolding resume after_session after_projects after_details
rejected_load-IsGivenUp ref route view session ps chosen f w =
    let given_up = load_failed-IsGivenUp f route view w in (given_up, given_up, given_up)

unknown_project-IsGivenUp :
    (ref route : String) (view : WorkspaceView) (session : Session) (items : Option (List Project))
    (w : World)
    → find (names_project ref) (get_or items []) ≡ none
    → IsGivenUp other_error route view w
        (resume (load_projects ref route view session) (fulfilled items) w)
unfolding resume after_projects
unknown_project-IsGivenUp ref route view session items w absent =
    rw (absent, choose_project) (load_failed-IsGivenUp other_error route view w)

-- Whichever of the session, project list and project details requests is rejected, the load is given
-- up in the same way: the data stay, the spinner goes off, and an unauthorized request leads to the
-- login page while any other shows the error. A project list that does not hold the wanted project
-- gives the load up with the error, too.
pub load-IsGivenUp :
    (ref route : String) (view : WorkspaceView) (session : Session) (ps : List Project)
    (items : Option (List Project)) (chosen : Project) (f : Failure) (w : World)
    → find (names_project ref) (get_or items []) ≡ none
    → IsGivenUp f route view w (resume (load_session ref route view) (rejected f) w)
      × IsGivenUp f route view w (resume (load_projects ref route view session) (rejected f) w)
      × IsGivenUp f route view w (resume (load_details route view session ps chosen) (rejected f) w)
      × IsGivenUp other_error route view w
          (resume (load_projects ref route view session) (fulfilled items) w)
load-IsGivenUp ref route view session ps items chosen f w absent =
    let given_up = rejected_load-IsGivenUp ref route view session ps chosen f w in
    (
      given_up.0,
      given_up.1,
      given_up.2,
      unknown_project-IsGivenUp ref route view session items w absent,
    )
