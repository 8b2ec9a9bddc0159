-- ===== src/Workspace/Freshness.antt =====
-- Answers that come late, and the errors that a refresh leaves.
use justprojects.Base.{
  String, ◌≡◌, refl, sym, Bool-cases, inl, inr, Bool, true, false, Option, get_or, List, [], All,
  arith, eq_iff, ◌==◌, if◌then◌else◌,
}
use mathlib.Core.Path.{subst}
use justprojects.Types.{Task}
use justprojects.Workspace.{Outcome, fulfilled, rejected, World, set_tasks}
use justprojects.Workspace.Load.{failed, settled_items}
use justprojects.Workspace.Refresh.{after_refresh_tasks}

-- Every listed task belongs to the project that is shown.
abbrev pub OwnsTasks : World → Type 0
OwnsTasks w = All (λ t. t.project_id ≡ w.workspace_data.project.id) w.workspace_data.tasks

-- the answer of an honest server to `listTasks(id)`
abbrev pub OfProject : String → Outcome (Option (List Task)) → Type 0
OfProject id o = All (λ t. t.project_id ≡ id) (settled_items o)

-- the list that a fulfilled refresh leaves
fresh-OwnsTasks :
    (id : String) (items : Option (List Task)) (w : World)
    → OwnsTasks w
    → OfProject id (fulfilled items)
    → All
        (λ t. t.project_id ≡ w.workspace_data.project.id)
        (if w.workspace_data.project.id == id
          then set_tasks (get_or items []) w
          else w).workspace_data.tasks
fresh-OwnsTasks id items w owns honest = elim (Bool-cases (w.workspace_data.project.id == id)) [
  | inl shown ↦
      let same : w.workspace_data.project.id ≡ id = (eq_iff _ _).0 shown in
      rw shown (subst (λ p. All (λ t. t.project_id ≡ p) (get_or items [])) (sym same) honest)
  | inr other ↦ rw other owns
]

project-fresh :
    (id : String) (items : Option (List Task)) (w : World)
    → (if w.workspace_data.project.id == id
        then set_tasks (get_or items []) w
        else w).workspace_data.project
      ≡ w.workspace_data.project
project-fresh id items w = ground arith

-- The answer to a refresh, even one that was asked for another project than is now shown, lists no
-- task of another project, whatever becomes of the request, if the list had none and the server
-- answers with tasks of the asked project; the project stays the same, and the task error is there
-- exactly if the request failed.
pub after_refresh_tasks-OwnsTasks :
    (id : String) (quiet : Bool) (o : Outcome (Option (List Task))) (w : World)
    → OwnsTasks w
    → OfProject id o
    → OwnsTasks (after_refresh_tasks id quiet o w)
      × ((after_refresh_tasks id quiet o w).workspace_data.project ≡ w.workspace_data.project)
      × ((after_refresh_tasks id quiet o w).resource_errors.tasks_error ≡ failed o)
unfolding after_refresh_tasks
after_refresh_tasks-OwnsTasks id true (fulfilled items) w owns honest =
    let project = project-fresh id items w in
    (rw project (fresh-OwnsTasks id items w owns honest), project, refl)
after_refresh_tasks-OwnsTasks id false (fulfilled items) w owns honest =
    let project = project-fresh id items w in
    (rw project (fresh-OwnsTasks id items w owns honest), project, refl)
after_refresh_tasks-OwnsTasks id true (rejected f) w owns honest = (owns, refl, refl)
after_refresh_tasks-OwnsTasks id false (rejected f) w owns honest = (owns, refl, refl)
