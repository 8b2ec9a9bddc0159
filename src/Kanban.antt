-- ===== src/Kanban.antt =====
-- The board of services/frontend/components/kanban-board.tsx: `columnsFromTasks`, `activeTask` and
-- `onValueCommit` of `KanbanBoardView`. The drag and drop itself is the ReUI component's: it hands
-- over the columns after a drop and the identifier of the dropped card.
-- An object with text keys is an association list in the order of insertion.
pub mod Columns
pub mod Commit
pub mod Moves
mod Tests
use justprojects.Base.{
  String, Bool, true, false, Option, none, some, or_else, List, [], ◌∷◌, ◌++◌, map, not, ◌==◌, ◌||◌,
  find, any, if◌then◌else◌,
}
use justprojects.Types.{Task, ProjectStatus}

abbrev pub Columns : Type 0
Columns = List (String × List Task)

-- `columns[key]`
pub column : String → Columns → Option (List Task)
column key [] = none
column key ((k, items) ∷ rest) = if k == key then some items else column key rest

-- `columns[key] = items`
pub set_column : String → List Task → Columns → Columns
set_column key items [] = (key, items) ∷ []
set_column key items ((k, old) ∷ rest) =
    if k == key then (k, items) ∷ rest else (k, old) ∷ set_column key items rest

-- `Object.fromEntries(statuses.map((status) => [status.id, []]))`, from left to right
pub empty_columns : List ProjectStatus → Columns → Columns
unfolding set_column
empty_columns [] columns = columns
empty_columns (s ∷ statuses) columns = empty_columns statuses (set_column s.id [] columns)

abbrev held : Option (List Task) → List Task
held none = []
held (some items) = items

-- the body of the loop of `columnsFromTasks`
pub place_task : Task → Columns → Columns
unfolding column set_column
place_task task columns =
    set_column task.status_id (held (column task.status_id columns) ++ task ∷ []) columns

pub place_tasks : List Task → Columns → Columns
unfolding place_task
place_tasks [] columns = columns
place_tasks (t ∷ ts) columns = place_tasks ts (place_task t columns)

pub columns_from_tasks : List ProjectStatus → List Task → Columns
unfolding empty_columns place_tasks
columns_from_tasks statuses tasks = place_tasks tasks (empty_columns statuses [])

abbrev pub has_id : String → Task → Bool
has_id id task = task.id == id

-- `Object.values(columns).flat()`
abbrev pub all_cards : Columns → List Task
all_cards [] = []
all_cards ((key, items) ∷ rest) = items ++ all_cards rest

-- `activeTask`
pub active_task : List Task → Columns → String → Option Task
active_task tasks columns id =
    or_else (find (has_id id) tasks) (find (has_id id) (all_cards columns))

-- `Object.entries(nextValue).find(...)?.[0]`
pub column_of : String → Columns → Option String
column_of id [] = none
column_of id ((key, items) ∷ rest) = if any (has_id id) items then some key else column_of id rest

abbrev pub changed_column : Option Task → Option String → Option (String × String)
changed_column none next = none
changed_column (some moved) none = none
changed_column (some moved) (some next) =
    if next == moved.status_id || next == "" then none else some (moved.id, next)

-- `onValueCommit`: the call of `onTaskStatusChange` that a drop leads to. `is_item` is the test of
-- `meta.kind`.
pub commit_drop : Bool → List Task → Columns → String → Columns → Option (String × String)
unfolding active_task column_of
commit_drop is_item tasks columns id next =
    if is_item then changed_column (active_task tasks columns id) (column_of id next) else none
