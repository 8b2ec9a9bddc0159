-- ===== src/Kanban/Tests.antt =====
-- The board at concrete inputs.
use justprojects.Base.{any, ◌≡◌, refl, true, false, none, some, [], ◌∷◌, arith, eq_iff}
use justprojects.Kanban.Moves.{start_change_status-lands}
use justprojects.Workspace.Tasks.{start_change_status}
use justprojects.Types.{Task, null}
use justprojects.Workspace.Samples.{task, build, launch, open_status, done_status, shown}
use justprojects.Kanban.{has_id, held, column, columns_from_tasks, commit_drop}
use justprojects.Kanban.Columns.{column-columns_from_tasks}
use justprojects.Kanban.Commit.{commit_drop_moves}

abbrev lost : Task
lost = task "c" "Lost" "s9" null

board_test :
    columns_from_tasks (open_status ∷ done_status ∷ []) (build ∷ lost ∷ launch ∷ [])
    ≡ ("s1", build ∷ launch ∷ []) ∷ ("s2", []) ∷ ("s9", lost ∷ []) ∷ []
unfolding columns_from_tasks
board_test = refl

column-columns_from_tasks_example :
    column "s1" (columns_from_tasks (open_status ∷ done_status ∷ []) (build ∷ lost ∷ launch ∷ []))
    ≡ some (build ∷ launch ∷ [])
column-columns_from_tasks_example =
    column-columns_from_tasks "s1" (open_status ∷ done_status ∷ []) (build ∷ lost ∷ launch ∷ [])

commit_drop_moves_example :
    (commit_drop true (build ∷ launch ∷ []) [] "b" (("s1", build ∷ []) ∷ ("s2", launch ∷ []) ∷ [])
      ≡ some ("b", "s2"))
    × (commit_drop false
          (build ∷ launch ∷ [])
          []
          "b"
          (("s1", build ∷ []) ∷ ("s2", launch ∷ []) ∷ [])
        ≡ none)
commit_drop_moves_example =
    commit_drop_moves (build ∷ launch ∷ []) [] (("s1", build ∷ []) ∷ []) [] "b" "s2" (launch ∷ [])
      launch refl refl refl (ground (arith, eq_iff "s2" "s1")) (ground (arith, eq_iff "s2" ""))

start_change_status-lands_example :
    any (has_id "b") (
      held (
        column "s2" (
          columns_from_tasks
            (open_status ∷ done_status ∷ [])
            (start_change_status "b" "s2" shown).workspace_data.tasks)))
    ≡ true
start_change_status-lands_example =
    start_change_status-lands "b" "s2" done_status launch shown refl refl
