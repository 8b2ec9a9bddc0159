-- ===== src/TaskList.antt =====
-- The nested list of services/frontend/components/task-list.tsx: `walk` of `visibleTasks`, and the
-- first value of `expanded`.
-- The recursion of `walk` follows the parents of the tasks. It takes fuel, one for each level, and
-- is none when the fuel runs out: where no two tasks share an identifier, one more than the number
-- of tasks is enough.
pub mod Path
pub mod Depth
pub mod Roots
mod Tests
use justprojects.Base.{
  ℕ, zero, suc, String, ◌+◌, Bool, true, false, Option, none, some, List, [], ◌∷◌, ◌++◌, map,
  same_text, filter, length, if◌then◌else◌,
}
use justprojects.Types.{Slot, present, reference, Task}

-- `(item.parentId ?? null) === parentId`, where none is null
abbrev pub has_parent : Option String → Task → Bool
has_parent parent task = same_text (present task.parent_id) parent

-- `result`, the tasks with their depth
abbrev pub Rows : Type 0
Rows = List (Task × ℕ)

abbrev pub both : Option Rows → Option Rows → Option Rows
both none ys = none
both (some xs) none = none
both (some xs) (some ys) = some (xs ++ ys)

-- The loop of `walk` over the children, `inner` being `walk` one level further down.
abbrev pub walk_loop :
    (String → Bool) → (Option String → ℕ → Option Rows) → ℕ → List Task → Option Rows
walk_loop expanded inner depth [] = some []
walk_loop expanded inner depth (t ∷ ts) =
    let rest = walk_loop expanded inner depth ts in
    let below = if expanded t.id then inner (some t.id) (depth + 1) else some [] in
    both (both (some ((t, depth) ∷ [])) below) rest

pub walk : (String → Bool) → List Task → ℕ → Option String → ℕ → Option Rows
walk expanded tasks zero parent depth = none
walk expanded tasks (suc fuel) parent depth =
    walk_loop expanded (walk expanded tasks fuel) depth (filter (has_parent parent) tasks)

pub visible_tasks : (String → Bool) → List Task → Option Rows
unfolding walk
visible_tasks expanded tasks = walk expanded tasks (length tasks + 1) none 0

-- `!task.parentId`
abbrev has_no_parent : Task → Bool
has_no_parent t = elim (reference t.parent_id) [ none ↦ true | some id ↦ false ]

-- the first value of `expanded`: every task without a parent
pub first_expanded : List Task → List (String × Bool)
first_expanded tasks = map (λ t. (t.id, true)) (filter has_no_parent tasks)
