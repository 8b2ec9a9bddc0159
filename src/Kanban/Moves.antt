-- ===== src/Kanban/Moves.antt =====
-- From a drop on the board to the board that it leaves: `onTaskStatusChange` is
-- `handleTaskStatusChange` of services/frontend/components/project-workspace.tsx.
use justprojects.Base.{
  String, ◌≡◌, refl, Bool, true, some, List, [], ◌∷◌, filter, find, any, any-find, arith, eq_refl,
}
use justprojects.Types.{Task, ProjectStatus}
use justprojects.Workspace.{World}
use justprojects.Workspace.Tasks.{
  has_task_id, has_status_id, begin_move, move_task, start_change_status,
}
use justprojects.Kanban.{column, columns_from_tasks, held, has_id}
use justprojects.Kanban.Columns.{in_status, column-columns_from_tasks}

any-filter : (p q : Task → Bool) (ts : List Task) → any p (filter q ts) ≡ true → any q ts ≡ true
any-filter p q [] h = cc
any-filter p q (t ∷ ts) h = ground (arith, any-filter p q ts)

move_task-lands :
    (id s : String) (next : ProjectStatus) (ts : List Task)
    → any (has_id id) ts ≡ true
    → any (has_id id) (filter (in_status s) (move_task id s next ts)) ≡ true
move_task-lands id s next [] h = cc
move_task-lands id s next (t ∷ ts) h = ground (arith, move_task-lands id s next ts, eq_refl s)

change_status-tasks :
    (id s : String) (next : ProjectStatus) (task : Task) (w : World)
    → find (has_status_id s) w.workspace_data.statuses ≡ some next
    → find (has_task_id id) w.workspace_data.tasks ≡ some task
    → (start_change_status id s w).workspace_data.tasks ≡ move_task id s next w.workspace_data.tasks
unfolding start_change_status
change_status-tasks id s next task w known listed = rw (known, begin_move, listed) refl

-- Once the move of a listed card to a known status has begun, and before the server has answered, the
-- board of all tasks has the card in the column of that status.
pub start_change_status-lands :
    (id s : String) (next : ProjectStatus) (task : Task) (w : World)
    → find (has_status_id s) w.workspace_data.statuses ≡ some next
    → find (has_task_id id) w.workspace_data.tasks ≡ some task
    → any (has_id id) (
        held (
          column s (
            columns_from_tasks w.workspace_data.statuses
              (start_change_status id s w).workspace_data.tasks)))
      ≡ true
start_change_status-lands id s next task w known listed =
    let moved = move_task id s next w.workspace_data.tasks in
    let lands =
      move_task-lands id s next w.workspace_data.tasks
        (any-find (has_id id) w.workspace_data.tasks task listed) in
    rw (change_status-tasks id s next task w known listed) (
      ground (
        arith,
        lands,
        any-filter (has_id id) (in_status s) moved lands,
        column-columns_from_tasks s w.workspace_data.statuses moved,
      ))
