-- ===== src/Roadmap.antt =====
-- The roadmap of services/frontend/components/roadmap-view.tsx: `tasksByMilestone`, `buildGanttData`
-- and `parseDate`.
-- A time is its number of milliseconds since 1970, so only dates from then on are modelled. The
-- browser's `Date` is the argument `parse`, none for an invalid date, and its clock the argument
-- `now`. Fixed colours are left as their texts.
pub mod Grouping
pub mod Dates
pub mod Rows
mod Tests
use justprojects.Base.{
  ℕ, String, ◌+◌, ◌*◌, Bool, true, false, not, Option, none, some, get_or, or_else, List, [], ◌∷◌,
  ◌++◌, map, ◌==◌, ltb, filter, any, truthy, if◌then◌else◌,
}
use justprojects.Types.{
  Slot, undefined, null, value, reference, Task, Milestone, StatusCategory, done, blocked,
  in_progress, backlog, todo,
}
use Prim.Native.String

-- `GanttResource`, with the children of a milestone
pub record Row : Type 0 where
  pub id : String
  pub title : String
  pub color : String

pub record Resource : Type 0 where
  pub id : String
  pub title : String
  pub color : String
  pub children : List Row

-- `GanttEvent`; `all_day` and `read_only` are always true
pub record Event : Type 0 where
  pub id : String
  pub title : String
  pub start : ℕ
  pub end : ℕ
  pub resource_id : String
  pub color : String
  pub progress : Option ℕ

-- `!task.milestoneId` is `is_free`, `!task.parentId` is `is_root`.
abbrev pub is_missing : Slot String → Bool
is_missing s = elim (reference s) [ none ↦ true | some id ↦ false ]

abbrev pub is_free : Task → Bool
is_free task = is_missing task.milestone_id

abbrev pub is_root : Task → Bool
is_root task = is_missing task.parent_id

-- `task.milestoneId === id`
abbrev pub in_milestone : String → Task → Bool
in_milestone id task = elim (task.milestone_id) [
  | undefined ↦ false
  | null ↦ false
  | value m ↦ m == id
]

-- A `Map` is an association list in the order of insertion.
abbrev pub Groups : Type 0
Groups = List (String × List Task)

-- `grouped.get(id) ?? []`
pub group : String → Groups → List Task
group id [] = []
group id ((k, ts) ∷ rest) = if k == id then ts else group id rest

-- `grouped.set(id, items)`
pub set_group : String → List Task → Groups → Groups
set_group id items [] = (id, items) ∷ []
set_group id items ((k, ts) ∷ rest) =
    if k == id then (k, items) ∷ rest else (k, ts) ∷ set_group id items rest

abbrev pub add_to_group : Task → Option String → Groups → Groups
add_to_group task none groups = groups
add_to_group task (some id) groups = set_group id (group id groups ++ task ∷ []) groups

pub group_tasks : List Task → Groups → Groups
unfolding group set_group
group_tasks [] groups = groups
group_tasks (t ∷ ts) groups = group_tasks ts (add_to_group t (reference t.milestone_id) groups)

pub tasks_by_milestone : List Task → Groups
unfolding group_tasks
tasks_by_milestone tasks = group_tasks tasks []

abbrev pub task_color : Option StatusCategory → String
task_color (some done) = "#22c55e"
task_color (some blocked) = "#f59e0b"
task_color _ = "#6366f1"

abbrev pub task_progress : Option StatusCategory → ℕ
task_progress (some done) = 100
task_progress (some in_progress) = 55
task_progress _ = 0

-- `taskResource`
abbrev pub task_row : Task → Row
task_row task = record { id = task.id; title = task.title; color = task_color task.status_category }

abbrev pub milestone_resource : List Task → Milestone → Resource
milestone_resource roots milestone = record {
  id = milestone.id;
  title = milestone.name;
  color = "#0f766e";
  children = map task_row (filter (in_milestone milestone.id) roots);
}

abbrev pub free_resource : String → List Task → Resource
free_resource title roots = record {
  id = "roadmap-tasks";
  title = title;
  color = "#6366f1";
  children = map task_row (filter is_free roots);
}

-- `resources` of `buildGanttData`
pub gantt_resources : List Task → List Milestone → String → List Resource
gantt_resources tasks milestones title =
    let roots = filter is_root tasks in
    map (milestone_resource roots) milestones
    ++ (if any is_free roots then free_resource title roots ∷ [] else [])

module _ (parse : String → Option ℕ) (now : ℕ) where
  -- `parseDate`
  abbrev pub parse_date : Slot String → Option ℕ
  parse_date s = elim (reference s) [ none ↦ none | some text ↦ parse text ]

  abbrev pub start_of : Slot String → Slot String → ℕ
  start_of start due = get_or (or_else (parse_date start) (parse_date due)) now

  abbrev milestone_color : String → String
  milestone_color status = if status == "closed" then "#0f766e" else "#14b8a6"

  pub milestone_event : Milestone → Event
  milestone_event milestone =
      let start = start_of milestone.start_date milestone.due_date in
      record {
        id = String.◌++◌ "milestone-" milestone.id;
        title = milestone.name;
        start = start;
        end = get_or (parse_date milestone.due_date) start;
        resource_id = milestone.id;
        color = milestone_color milestone.status;
        progress = none;
      }

  pub task_event : Task → Event
  task_event task =
      let start = start_of task.start_date task.due_date in
      let due = get_or (parse_date task.due_date) (start + 2 * 86_400_000) in
      record {
        id = String.◌++◌ "task-" task.id;
        title = task.title;
        start = start;
        end = if ltb due start then start else due;
        resource_id = task.id;
        color = task_color task.status_category;
        progress = some (task_progress task.status_category);
      }

  -- `events` of `buildGanttData`
  pub gantt_events : List Task → List Milestone → List Event
  gantt_events tasks milestones =
      map milestone_event milestones ++ map task_event (filter is_root tasks)
