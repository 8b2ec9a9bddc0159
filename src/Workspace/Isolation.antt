-- ===== src/Workspace/Isolation.antt =====
-- Whole runs of `loadWorkspace`: what they show, and what a failure of one of its requests does.
use justprojects.Base.{
  String, ◌≡◌, refl, ◌∙◌, ap, true, false, Option, none, some, get_or, List, [], ◌∷◌, ◌++◌, find,
  arith,
}
use mathlib.Core.Path.{subst}
use justprojects.Types.{Project, ProjectStatus, Session, WorkspaceView}
use justprojects.Workspace.{
  Outcome, fulfilled, Job, load_session, load_projects, load_details, load_resources, World,
}
use justprojects.Workspace.Load.{
  ProjectDetails, Resources, names_project, settled_items, failed, load_workspace, after_session,
  after_projects, after_details, after_resources, choose_project, to_canonical,
}
use justprojects.Workspace.Events.{
  Answer, resume, perform, act, reply, Reach, here, next, go_to, visit,
}

-- the one job in flight is answered
answered :
    {start : World} (j : Job) (o : Outcome (Answer j)) (w : World)
    → w.pending ≡ j ∷ []
    → Reach start w
    → Reach start (resume j o (record w { pending = [] }))
answered j o w e r = next r (reply [] [] j o w e)

module _ (route : String) (view : WorkspaceView) (session : Session) (items : Option (List Project))
    (chosen : Project) (details : ProjectDetails) (r : Resources) where
  -- The worlds of a load from `w`, each just before the next answer; `loaded` is the last of them:
  -- the effect of the route, then the code behind each `await` on the answer to it.
  abbrev asked_session : World → World
  asked_session w = load_workspace route (record w { project_ref = route; active_view = view })

  abbrev asked_projects : World → World
  asked_projects w =
      after_session route route view (fulfilled session) (record (asked_session w) { pending = [] })

  abbrev asked_details : World → World
  asked_details w =
      after_projects route route view session (fulfilled items)
        (record (asked_projects w) { pending = [] })

  abbrev asked_resources : World → World
  asked_resources w =
      after_details route view session (get_or items []) chosen (fulfilled details)
        (record (asked_details w) { pending = [] })

  abbrev pub loaded : World → World
  loaded w = after_resources route view (fulfilled r) (record (asked_resources w) { pending = [] })

-- The seven lists that a load fills, each from its own answer, and the error of each.
pub record ShowsResources (r : Resources) (w : World) : Type 0 where
  pub tasks : w.workspace_data.tasks ≡ settled_items r.tasks
  pub milestones : w.workspace_data.milestones ≡ settled_items r.milestones
  pub labels : w.workspace_data.labels ≡ settled_items r.labels
  pub connections : w.workspace_data.git_connections ≡ settled_items r.connections
  pub sync_runs : w.workspace_data.sync_events ≡ settled_items r.sync_runs
  pub members : w.workspace_data.members ≡ settled_items r.members
  pub updates : w.workspace_data.updates ≡ settled_items r.updates
  pub tasks_failed : w.resource_errors.tasks_error ≡ failed r.tasks
  pub milestones_failed : w.resource_errors.milestones_error ≡ failed r.milestones
  pub labels_failed : w.resource_errors.labels_error ≡ failed r.labels
  pub connections_failed : w.resource_errors.connections_error ≡ failed r.connections
  pub sync_failed : w.resource_errors.sync_error ≡ failed r.sync_runs
  pub members_failed : w.resource_errors.members_error ≡ failed r.members
  pub updates_failed : w.resource_errors.updates_error ≡ failed r.updates

-- A load that found its project: nothing is in flight, the spinner is off, no error is shown.
pub record IsLoaded (session : Session) (projects : List Project) (project : Project)
    (statuses : List ProjectStatus) (w : World) : Type 0 where
  pub idle : w.pending ≡ []
  pub quiet : w.loading ≡ false
  pub fine : w.error_message ≡ none
  pub shown : w.workspace_data.project ≡ project
  pub listed : w.workspace_data.projects ≡ projects
  pub signed_in : w.workspace_data.session ≡ some session
  pub stated : w.workspace_data.statuses ≡ statuses

module _ (route : String) (view : WorkspaceView) (session : Session) (items : Option (List Project))
    (chosen : Project) (details : ProjectDetails) (r : Resources) (w : World) where
  loaded-ShowsResources : ShowsResources r (loaded route view session items chosen details r w)
  unfolding after_resources
  loaded-ShowsResources = record {
    tasks = refl;
    milestones = refl;
    labels = refl;
    connections = refl;
    sync_runs = refl;
    members = refl;
    updates = refl;
    tasks_failed = refl;
    milestones_failed = refl;
    labels_failed = refl;
    connections_failed = refl;
    sync_failed = refl;
    members_failed = refl;
    updates_failed = refl;
  }

  module _ (c : w.configured ≡ true) where
    session_fine :
        ((asked_session route view session items chosen details r w).error_message ≡ none)
        × ((asked_session route view session items chosen details r w).pending
            ≡ w.pending ++ load_session route route view ∷ [])
    unfolding load_workspace
    session_fine = rw c (refl, refl)

    projects_fine :
        ((asked_projects route view session items chosen details r w).error_message ≡ none)
        × ((asked_projects route view session items chosen details r w).pending
            ≡ load_projects route route view session ∷ [])
    unfolding after_session
    projects_fine = (session_fine.0, refl)

  canonical_fine :
      (v : World)
      → ((to_canonical route chosen view v).error_message ≡ v.error_message)
        × ((to_canonical route chosen view v).pending ≡ v.pending)
  canonical_fine v = ground arith

  module _ (c : w.configured ≡ true)
      (found : find (names_project route) (get_or items []) ≡ some chosen) where
    details_fine :
        ((asked_details route view session items chosen details r w).error_message ≡ none)
        × ((asked_details route view session items chosen details r w).pending
            ≡ load_details route view session (get_or items []) chosen ∷ [])
    unfolding after_projects
    details_fine =
        let v = record (asked_projects route view session items chosen details r w) {
          pending = [];
        } in
        rw (found, choose_project)
          (
            (canonical_fine v).0 ∙ (projects_fine c).0,
            ap (λ js. js ++ load_details route view session (get_or items []) chosen ∷ [])
                (canonical_fine v).1,
          )

    resources_fine :
        ((asked_resources route view session items chosen details r w).error_message ≡ none)
        × ((asked_resources route view session items chosen details r w).pending
            ≡ load_resources route view ∷ [])
    unfolding after_details
    resources_fine = (details_fine.0, refl)

    loaded-IsLoaded :
        IsLoaded session
          (get_or items [])
          (get_or details.project chosen)
          details.statuses
          (loaded route view session items chosen details r w)
    unfolding after_details after_resources
    loaded-IsLoaded = record {
      idle = refl;
      quiet = refl;
      fine = resources_fine.0;
      shown = refl;
      listed = refl;
      signed_in = refl;
      stated = refl;
    }

    loaded-Reach : w.pending ≡ [] → Reach w (loaded route view session items chosen details r w)
    unfolding resume perform visit
    loaded-Reach idle =
        let went : Reach w (asked_session route view session items chosen details r w) =
          subst (λ v. Reach w v) (rw c) (next here (act (go_to route view) w)) in
        let one : (asked_session route view session items chosen details r w).pending
            ≡ load_session route route view ∷ [] =
          rw (← ap (λ js. js ++ load_session route route view ∷ []) idle) ((session_fine c).1) in
        answered (load_resources route view) (fulfilled r)
          (asked_resources route view session items chosen details r w) resources_fine.1
          (answered (load_details route view session (get_or items []) chosen) (fulfilled details)
            (asked_details route view session items chosen details r w) details_fine.1
            (answered (load_projects route route view session) (fulfilled items)
              (asked_projects route view session items chosen details r w) (projects_fine c).1
              (answered (load_session route route view) (fulfilled session)
                (asked_session route view session items chosen details r w) one went)))

-- From a configured workspace with nothing in flight, opening a route, then the answers to the four
-- requests of its load in turn and nothing else, lead, if the answered list holds the project, to a
-- workspace that is idle, without an error, with the answered project, statuses, list and session;
-- each of the seven lists and its error depend only on how that list's own request ended.
pub load_succeeds :
    (route : String) (view : WorkspaceView) (session : Session) (items : Option (List Project))
    (chosen : Project) (details : ProjectDetails) (r : Resources) (w : World)
    → w.configured ≡ true
    → w.pending ≡ []
    → find (names_project route) (get_or items []) ≡ some chosen
    → Reach w (loaded route view session items chosen details r w)
      × IsLoaded session
          (get_or items [])
          (get_or details.project chosen)
          details.statuses
          (loaded route view session items chosen details r w)
      × ShowsResources r (loaded route view session items chosen details r w)
load_succeeds route view session items chosen details r w c idle found = (
  loaded-Reach route view session items chosen details r w c found idle,
  loaded-IsLoaded route view session items chosen details r w c found,
  loaded-ShowsResources route view session items chosen details r w,
)
