-- ===== src/Workspace/Tests.antt =====
-- The workspace at concrete inputs.
use justprojects.Base.{◌≡◌, refl, true, false, none, some, [], ◌∷◌, find, any, arith}
use justprojects.Types.{overview, Task}
use justprojects.Workspace.{
  World, rejected, fulfilled, other_error, update_task, mounted, load_session, load_projects,
  load_details,
}
use justprojects.Workspace.Load.{load_workspace, load_failed, after_session}
use justprojects.Workspace.Refresh.{after_refresh_tasks}
use justprojects.Workspace.Tasks.{
  has_task_id, start_update_task, start_change_status, after_update_task, after_change_status,
  after_create_task,
}
use justprojects.Workspace.Events.{Reach, reply, here, next, visit, resume}
use justprojects.Workspace.Loading.Always.{spinner_ends}
use justprojects.Workspace.Isolation.{IsLoaded, ShowsResources, load_succeeds, loaded}
use justprojects.Workspace.GivenUp.{IsGivenUp, load-IsGivenUp}
use justprojects.Workspace.Freshness.{OwnsTasks, after_refresh_tasks-OwnsTasks}
use justprojects.Workspace.Edited.{IsEdited}
use justprojects.Workspace.Optimistic.{
  OnlyChanges, start_update_task-OnlyChanges, start_change_status-OnlyChanges,
}
use justprojects.Workspace.Rollback.{
  IsUndone, refused_update-IsUndone, refused_update_loses_created, created_meanwhile,
}
use justprojects.Workspace.Requests.{times, created_after_poll_twice}
use justprojects.Workspace.Store.{tasks_of, change_at, add, with_name, overlay, answers-Refine}
use justprojects.Workspace.Samples.{
  shown, edit, launch, build, land, done_status, open_status, rocket, signed_in, details, answers,
  unauthorized,
}

-- a first visit, whose session is refused
abbrev visited : World
visited = visit "rkt" overview (mounted true "rkt" overview)

abbrev turned_away : World
turned_away =
    resume (load_session "rkt" "rkt" overview) (rejected unauthorized)
      (record visited { pending = [] })

spinner_ends_example : turned_away.loading ≡ false
unfolding visit load_workspace resume after_session load_failed
spinner_ends_example =
    spinner_ends "rkt" overview turned_away
      (next here
        (reply [] [] (load_session "rkt" "rkt" overview) (rejected unauthorized) visited refl))
      refl

load_succeeds_example :
    Reach
      (record shown { pending = [] })
      (loaded "rkt" overview signed_in
        (some (rocket ∷ []))
        rocket
        details
        answers
        (record shown { pending = [] }))
    × IsLoaded signed_in (rocket ∷ []) rocket details.statuses (
        loaded "rkt" overview signed_in
          (some (rocket ∷ []))
          rocket
          details
          answers
          (record shown { pending = [] }))
    × ShowsResources answers (
        loaded "rkt" overview signed_in
          (some (rocket ∷ []))
          rocket
          details
          answers
          (record shown { pending = [] }))
load_succeeds_example =
    load_succeeds "rkt" overview signed_in (some (rocket ∷ [])) rocket details answers
      (record shown { pending = [] }) refl refl refl

after_refresh_tasks-OwnsTasks_example :
    OwnsTasks (after_refresh_tasks "p1" true (fulfilled (some (build ∷ []))) shown)
    × ((after_refresh_tasks "p1" true (fulfilled (some (build ∷ []))) shown).workspace_data.project
        ≡ rocket)
    × ((after_refresh_tasks "p1" true
          (fulfilled (some (build ∷ [])))
          shown).resource_errors.tasks_error
        ≡ none)
after_refresh_tasks-OwnsTasks_example =
    after_refresh_tasks-OwnsTasks "p1" true (fulfilled (some (build ∷ []))) shown (refl, (refl, tt))
      (refl, tt)

start_update_task-OnlyChanges_example :
    OnlyChanges "b" (build ∷ launch ∷ []) (start_update_task edit 1 shown).workspace_data.tasks
    × (new : Task) × (find (has_task_id "b") (start_update_task edit 1 shown).workspace_data.tasks
        ≡ some new)
    × IsEdited (open_status ∷ done_status ∷ []) [] edit launch new
start_update_task-OnlyChanges_example = start_update_task-OnlyChanges edit 1 shown launch refl refl

start_change_status-OnlyChanges_example :
    OnlyChanges "a" (build ∷ launch ∷ []) (start_change_status "a" "s2" shown).workspace_data.tasks
    × (find (has_task_id "a") (start_change_status "a" "s2" shown).workspace_data.tasks
        ≡ some (record build {
          status_id = "s2";
          status_name = some done_status.name;
          status_category = some done_status.category;
        }))
start_change_status-OnlyChanges_example =
    start_change_status-OnlyChanges "a" "s2" shown build done_status refl refl

refused_update-IsUndone_example :
    ((start_update_task edit 1 shown).pending ≡ update_task "p1" (build ∷ launch ∷ []) ∷ [])
    × IsUndone "workspace.saveTaskError" shown (
        after_update_task "p1"
          (build ∷ launch ∷ [])
          (rejected other_error)
          (start_update_task edit 1 shown))
refused_update-IsUndone_example = refused_update-IsUndone edit 1 shown launch other_error refl

refused_update_loses_created_example :
    ((start_update_task edit 1 shown).pending ≡ update_task "p1" (build ∷ launch ∷ []) ∷ [])
    × (any (has_task_id "c") (created_meanwhile edit 1 none land shown).workspace_data.tasks ≡ true)
    × (any
          (has_task_id "c")
          (after_update_task "p1"
            (build ∷ launch ∷ [])
            (rejected other_error)
            (created_meanwhile edit 1 none land shown)).workspace_data.tasks
        ≡ false)
refused_update_loses_created_example =
    refused_update_loses_created edit 1 shown launch land other_error none refl refl

created_after_poll_twice_example :
    times "c"
      (after_create_task "p1" none (fulfilled land) (
        after_refresh_tasks "p1" true
          (fulfilled (some (build ∷ land ∷ [])))
          shown)).workspace_data.tasks
    ≡ 2
created_after_poll_twice_example =
    created_after_poll_twice shown (build ∷ land ∷ []) none land (omega arith)

load-IsGivenUp_example :
    IsGivenUp unauthorized "old" overview shown
      (resume (load_session "old" "old" overview) (rejected unauthorized) shown)
    × IsGivenUp unauthorized "old" overview shown
        (resume (load_projects "old" "old" overview signed_in) (rejected unauthorized) shown)
    × IsGivenUp unauthorized "old" overview shown
        (resume (load_details "old" overview signed_in [] rocket) (rejected unauthorized) shown)
    × IsGivenUp other_error "old" overview shown (
        resume
          (load_projects "old" "old" overview signed_in)
          (fulfilled (some (rocket ∷ [])))
          shown)
load-IsGivenUp_example =
    load-IsGivenUp "old" "old" overview signed_in [] (some (rocket ∷ [])) rocket unauthorized shown
      refl

answers-Refine_example :
    (tasks_of (after_update_task "p1" [] (fulfilled launch) shown) "b"
      ≡ change_at "b" (λ old. launch) (tasks_of shown) "b")
    × (tasks_of (after_create_task "p1" none (fulfilled launch) shown) "b"
        ≡ add (with_name none launch) (tasks_of shown) "b")
    × (tasks_of (after_change_status "p1" "b" [] (fulfilled launch) shown) "b"
        ≡ change_at "b" (λ old. overlay old launch) (tasks_of shown) "b")
answers-Refine_example = answers-Refine "p1" "b" [] none launch shown refl "b"
