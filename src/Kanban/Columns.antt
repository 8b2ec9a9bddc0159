-- ===== src/Kanban/Columns.antt =====
-- What each column of the board holds.
use justprojects.Base.{
  String, ◌≡◌, refl, Bool, false, none, some, List, [], ◌∷◌, ◌++◌, ◌==◌, ◌||◌, filter, any, arith,
  eq_iff, if◌then◌else◌,
}
use mathlib.Core.List.{append_assoc}
use justprojects.Types.{Task, ProjectStatus}
use justprojects.Kanban.{
  Columns, column, set_column, empty_columns, held, place_task, place_tasks, columns_from_tasks,
}

abbrev pub in_status : String → Task → Bool
in_status key task = task.status_id == key

abbrev pub is_status : String → ProjectStatus → Bool
is_status key status = status.id == key

column-set_column :
    (key j : String) (items : List Task) (columns : Columns)
    → column j (set_column key items columns) ≡ (if key == j then some items else column j columns)
unfolding column set_column
column-set_column key j items [] = refl
column-set_column key j items ((k, old) ∷ rest) =
    ground (arith, eq_iff k key, eq_iff k j, eq_iff key j, column-set_column key j items rest)

column-empty_columns :
    (j : String) (statuses : List ProjectStatus) (columns : Columns)
    → column j (empty_columns statuses columns)
      ≡ (if any (is_status j) statuses then some [] else column j columns)
unfolding empty_columns
column-empty_columns j [] columns = refl
column-empty_columns j (s ∷ statuses) columns = ground (
  arith,
  column-empty_columns j statuses (set_column s.id [] columns),
  column-set_column s.id j [] columns,
)

column-place_task :
    (j : String) (t : Task) (columns : Columns)
    → column j (place_task t columns)
      ≡ (if in_status j t then some (held (column j columns) ++ t ∷ []) else column j columns)
unfolding place_task
column-place_task j t columns = ground (
  arith,
  eq_iff t.status_id j,
  column-set_column t.status_id j (held (column t.status_id columns) ++ t ∷ []) columns,
)

filter_of_none : (p : Task → Bool) (ts : List Task) → any p ts ≡ false → filter p ts ≡ []
filter_of_none p [] h = refl
filter_of_none p (t ∷ ts) h = ground (arith, filter_of_none p ts)

column-place_tasks :
    (j : String) (ts : List Task) (columns : Columns)
    → column j (place_tasks ts columns) ≡ (
        if any (in_status j) ts
        then some (held (column j columns) ++ filter (in_status j) ts)
        else column j columns)
unfolding place_tasks
column-place_tasks j [] columns = refl
column-place_tasks j (t ∷ ts) columns =
    let old = held (column j columns) in
    ground (
      arith,
      column-place_tasks j ts (place_task t columns),
      column-place_task j t columns,
      append_assoc old (t ∷ []) (filter (in_status j) ts),
      filter_of_none (in_status j) ts,
    )

-- A column is there exactly if its key is a status or the status of a task, and it holds exactly the
-- tasks of that status, in the order of the task list.
pub column-columns_from_tasks :
    (j : String) (statuses : List ProjectStatus) (tasks : List Task)
    → column j (columns_from_tasks statuses tasks) ≡ (
        if any (is_status j) statuses || any (in_status j) tasks
        then some (filter (in_status j) tasks)
        else none)
unfolding columns_from_tasks column
column-columns_from_tasks j statuses tasks = ground (
  arith,
  column-place_tasks j tasks (empty_columns statuses []),
  column-empty_columns j statuses [],
  filter_of_none (in_status j) tasks,
)
