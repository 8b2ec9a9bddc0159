-- ===== src/TaskList/Tests.antt =====
-- The nested list at concrete inputs.
use justprojects.Base.{◌≡◌, refl, true, some, List, [], ◌∷◌, All, arith, ◌==◌, eq_iff}
use justprojects.Types.{Task, value}
use justprojects.Workspace.Samples.{build, launch, task}
use justprojects.TaskList.{Rows, visible_tasks, first_expanded}
use justprojects.TaskList.Path.{HaveOneParent}
use justprojects.TaskList.Depth.{visible_tasks_total}
use justprojects.TaskList.Roots.{visible_tasks-IsShown, IsShown}

-- a child of `build`, and two tasks that are each other's parent
abbrev child : Task
child = task "k" "Paint" "s1" (value "a")

abbrev twin : Task
twin = task "x" "Egg" "s1" (value "y")

abbrev other_twin : Task
other_twin = task "y" "Hen" "s1" (value "x")

abbrev nested : List Task
nested = child ∷ build ∷ twin ∷ other_twin ∷ launch ∷ []

opened_rows :
    visible_tasks (λ id. id == "a") nested ≡ some ((build, 0) ∷ (child, 1) ∷ (launch, 0) ∷ [])
unfolding visible_tasks
opened_rows = refl

initially_open : first_expanded nested ≡ ("a", true) ∷ ("b", true) ∷ []
unfolding first_expanded
initially_open = refl

abbrev small : List Task
small = child ∷ build ∷ []

one_parent : HaveOneParent small
one_parent = (
  (λ e. refl, (λ e. absurd (ground (arith, eq_iff "k" "a")), tt)),
  (((λ e. absurd (ground (arith, eq_iff "k" "a"))), ((λ e. refl), tt)), tt),
)

visible_tasks_total_example : (rows : Rows) × (visible_tasks (λ id. true) small ≡ some rows)
visible_tasks_total_example = visible_tasks_total (λ id. true) small one_parent

visible_tasks-IsShown_example :
    All (IsShown (λ id. id == "a") nested) ((build, 0) ∷ (child, 1) ∷ (launch, 0) ∷ [])
visible_tasks-IsShown_example =
    visible_tasks-IsShown (λ id. id == "a") nested ((build, 0) ∷ (child, 1) ∷ (launch, 0) ∷ [])
      opened_rows
