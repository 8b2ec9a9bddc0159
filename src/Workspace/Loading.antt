-- ===== src/Workspace/Loading.antt =====
-- The spinner: `loading` is true only while a request of `loadWorkspace` is in flight.
pub mod Quiet
pub mod Always
use justprojects.Base.{
  String, ◌≡◌, refl, ◌∙◌, ap, Bool, true, false, ◌||◌, Option, none, some, get_or, List, [], ◌∷◌,
  ◌++◌, find, any, any-append, arith, Bool-cases, Option-cases, inl, inr,
}
use justprojects.Types.{Session, Project, WorkspaceView}
use justprojects.Workspace.{
  Failure, api_error, other_error, fulfilled, rejected, Outcome, Job, load_session, load_projects,
  load_details, load_resources, refresh_tasks, refresh_sync_runs, refresh_milestones, logging_out,
  change_connection, create_task, update_task, change_status, create_project, create_milestone,
  update_milestone, World, mounted,
}
use justprojects.Workspace.Load.{
  load_workspace, load_failed, after_session, after_projects, after_details, after_resources,
  names_project, choose_project, to_canonical, ProjectDetails, Resources,
}
use justprojects.Workspace.Refresh.{
  start_refresh_tasks, after_refresh_tasks, start_refresh_sync_runs, after_refresh_sync_runs,
  start_refresh_milestones, after_refresh_milestones, sync_tick, poll_tick,
}
use justprojects.Workspace.Tasks.{
  open_task_editor, start_create_task, after_create_task, start_update_task, after_update_task,
  start_change_status, after_change_status, edited_task, send_update, begin_move, send_move,
}
use justprojects.Workspace.Milestones.{
  open_milestone_editor, start_create_milestone, after_create_milestone, start_update_milestone,
  after_update_milestone,
}
use justprojects.Workspace.Projects.{
  on_project_change, on_view_change, start_logout, after_logout, start_change_connection,
  after_change_connection, on_git_connections, start_create_project, after_create_project,
}
use justprojects.Workspace.Events.{
  Answer, resume, visit, Action, perform, Step, act, reply, Reach, here, next,
}

-- the jobs of `loadWorkspace`
abbrev pub is_load : Job → Bool
is_load (load_session _ _ _) = true
is_load (load_projects _ _ _ _) = true
is_load (load_details _ _ _ _ _) = true
is_load (load_resources _ _) = true
is_load (refresh_tasks _ _) = false
is_load (refresh_sync_runs _) = false
is_load (refresh_milestones _) = false
is_load logging_out = false
is_load (change_connection _) = false
is_load (create_task _ _) = false
is_load (update_task _ _) = false
is_load (change_status _ _ _) = false
is_load create_project = false
is_load (create_milestone _) = false
is_load (update_milestone _ _) = false

abbrev pub is_loading : World → Bool
is_loading w = any is_load w.pending

-- The configuration is fixed, and with no load in flight the spinner is off.
pub record IsSettled (w : World) : Type 0 where
  pub configured : w.configured ≡ true
  pub settled : is_loading w ≡ false → w.loading ≡ false

-- `v` came out of `w` by code that has nothing to do with loading.
pub record SameLoad (w v : World) : Type 0 where
  pub configured : v.configured ≡ w.configured
  pub loading : v.loading ≡ w.loading
  pub jobs : is_loading v ≡ is_loading w

pub same_load :
    {w v : World}
    → v.configured ≡ w.configured
    → v.loading ≡ w.loading
    → is_loading v ≡ is_loading w
    → SameLoad w v
same_load c l j = record { configured = c; loading = l; jobs = j }

pub SameLoad-refl : (w : World) → SameLoad w w
SameLoad-refl w = record { configured = refl; loading = refl; jobs = refl }

pub SameLoad-trans : {u v w : World} → SameLoad u v → SameLoad v w → SameLoad u w
SameLoad-trans p q = record {
  configured = q.configured ∙ p.configured;
  loading = q.loading ∙ p.loading;
  jobs = q.jobs ∙ p.jobs;
}

pub SameLoad-IsSettled : {w v : World} → SameLoad w v → IsSettled w → IsSettled v
SameLoad-IsSettled s h = ground arith

-- one more job that is no load
pub quiet_job :
    (js : List Job) (j : Job) → is_load j ≡ false → any is_load (js ++ j ∷ []) ≡ any is_load js
quiet_job js j h = ground (arith, any-append is_load js (j ∷ []))

pub refresh_tasks-SameLoad :
    (id : String) (quiet : Bool) (w : World) → SameLoad w (start_refresh_tasks id quiet w)
unfolding start_refresh_tasks
refresh_tasks-SameLoad id quiet w =
    ground (arith, quiet_job w.pending (refresh_tasks id quiet) refl)

pub sync_runs-SameLoad : (quiet : Bool) (w : World) → SameLoad w (start_refresh_sync_runs quiet w)
unfolding start_refresh_sync_runs
sync_runs-SameLoad quiet w = ground (arith, quiet_job w.pending (refresh_sync_runs quiet) refl)

pub milestones-SameLoad : (id : String) (w : World) → SameLoad w (start_refresh_milestones id w)
unfolding start_refresh_milestones
milestones-SameLoad id w = ground (arith, quiet_job w.pending (refresh_milestones id) refl)

-- A failed load ends the spinner, and nothing else of what counts here.
failed-SameLoad :
    (f : Failure) (route : String) (view : WorkspaceView) (w : World)
    → ((load_failed f route view w).loading ≡ false)
      × ((load_failed f route view w).configured ≡ w.configured)
unfolding load_failed
failed-SameLoad (api_error m s) route view w = ground arith
failed-SameLoad other_error route view w = (refl, refl)

failed-IsSettled :
    (f : Failure) (route : String) (view : WorkspaceView) (w : World)
    → w.configured ≡ true
    → IsSettled (load_failed f route view w)
failed-IsSettled f route view w c = record {
  configured = (failed-SameLoad f route view w).1 ∙ c;
  settled = λ h. (failed-SameLoad f route view w).0;
}

load_job : (js : List Job) (j : Job) → is_load j ≡ true → any is_load (js ++ j ∷ []) ≡ true
load_job js j h = ground (arith, any-append is_load js (j ∷ []))

waiting-IsSettled : {w : World} → w.configured ≡ true → is_loading w ≡ true → IsSettled w
waiting-IsSettled c l = record { configured = c; settled = λ h. cc (l, h) }

pub load_workspace-IsSettled :
    (ref : String) (w : World) → w.configured ≡ true → IsSettled (load_workspace ref w)
unfolding load_workspace
load_workspace-IsSettled ref w c = rw c (waiting-IsSettled refl (load_job w.pending _ refl))

-- After the answer to a request of `loadWorkspace`, whatever it was.
module _ (route : String) (view : WorkspaceView) (w : World) (c : w.configured ≡ true) where
  pub after_session-IsSettled :
      (ref : String) (o : Outcome Session) → IsSettled (after_session ref route view o w)
  unfolding after_session
  after_session-IsSettled ref (fulfilled s) = waiting-IsSettled c (load_job w.pending _ refl)
  after_session-IsSettled ref (rejected f) = failed-IsSettled f route view w c

  pub after_details-IsSettled :
      (s : Session) (ps : List Project) (chosen : Project) (o : Outcome ProjectDetails)
      → IsSettled (after_details route view s ps chosen o w)
  unfolding after_details
  after_details-IsSettled s ps chosen (fulfilled d) =
      waiting-IsSettled c (load_job w.pending _ refl)
  after_details-IsSettled s ps chosen (rejected f) = failed-IsSettled f route view w c

  pub after_resources-IsSettled :
      (o : Outcome Resources) → IsSettled (after_resources route view o w)
  unfolding after_resources
  after_resources-IsSettled (fulfilled r) = record { configured = c; settled = λ h. refl }
  after_resources-IsSettled (rejected f) = failed-IsSettled f route view w c

  to_canonical-SameLoad :
      (ref : String) (chosen : Project) → SameLoad w (to_canonical ref chosen view w)
  to_canonical-SameLoad ref chosen = ground arith

  choose_project-IsSettled :
      (ref : String) (s : Session) (ps : List Project) (found : Option Project)
      → IsSettled (choose_project ref route view s ps found w)
  choose_project-IsSettled ref s ps none = failed-IsSettled other_error route view w c
  choose_project-IsSettled ref s ps (some chosen) =
      waiting-IsSettled ((to_canonical-SameLoad ref chosen).configured ∙ c)
        (load_job (to_canonical ref chosen view w).pending _ refl)

  pub after_projects-IsSettled :
      (ref : String) (s : Session) (o : Outcome (Option (List Project)))
      → IsSettled (after_projects ref route view s o w)
  unfolding after_projects
  after_projects-IsSettled ref s (fulfilled items) =
      choose_project-IsSettled ref s (get_or items []) (find (names_project ref) (get_or items []))
  after_projects-IsSettled ref s (rejected f) = failed-IsSettled f route view w c
