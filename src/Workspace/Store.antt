-- ===== src/Workspace/Store.antt =====
-- What the server's answers do to the tasks, seen as a map from identifiers to tasks that knows
-- nothing of the order of the list.
use justprojects.Base.{
  String, ◌≡◌, refl, ◌∙◌, Bool, true, Option, none, some, or_else, List, [], ◌∷◌, ◌++◌, map, find,
  ap, arith, eq_iff, ◌==◌, if◌then◌else◌,
}
use justprojects.Types.{Task, ProjectStatus, Slot, undefined, null, value, over_slot}
use justprojects.Workspace.{fulfilled, World}
use justprojects.Workspace.Refresh.{start_refresh_tasks}
use justprojects.Workspace.Tasks.{
  has_task_id, with_status, merge_task, after_create_task, after_update_task, after_change_status,
}

-- the abstract state
abbrev pub TaskMap : Type 0
TaskMap = String → Option Task

abbrev pub tasks_of : World → TaskMap
tasks_of w id = find (has_task_id id) w.workspace_data.tasks

-- the task at the identifier, if there is one, turned into another
abbrev pub change_at : String → (Task → Task) → TaskMap → TaskMap
change_at id f m j = if id == j then elim (m j) [ none ↦ none | some old ↦ some (f old) ] else m j

-- a new task, unless the identifier is taken
abbrev pub add : Task → TaskMap → TaskMap
add task m j = or_else (m j) (if task.id == j then some task else none)

-- a field that an answer may leave out: what the answer has, or else what was there
module _ {ℓ} {A : Type ℓ} where
  abbrev pub sent : Option A → Option A → Option A
  sent new old = elim new [ none ↦ old | some a ↦ some a ]

  abbrev pub sent_slot : Slot A → Slot A → Slot A
  sent_slot new old = elim new [ undefined ↦ old | null ↦ null | value a ↦ value a ]

  sent_lem : (new old : Option A) → or_else new old ≡ sent new old
  sent_lem none old = refl
  sent_lem (some a) old = refl

  sent_slot_lem : (new old : Slot A) → over_slot new old ≡ sent_slot new old
  sent_slot_lem undefined old = refl
  sent_slot_lem null old = refl
  sent_slot_lem (value a) old = refl

-- the answer to a creation, which may leave out the name and the category of its status
abbrev pub with_name : Option ProjectStatus → Task → Task
with_name status answer = record answer {
  status_name = sent answer.status_name (elim status [ none ↦ none | some s ↦ some s.name ]);
  status_category =
      sent answer.status_category (elim status [ none ↦ none | some s ↦ some s.category ]);
}

-- the old task under the fields of the answer
abbrev pub overlay : Task → Task → Task
overlay old answer = record answer {
  parent_id = sent_slot answer.parent_id old.parent_id;
  milestone_id = sent_slot answer.milestone_id old.milestone_id;
  status_name = sent answer.status_name old.status_name;
  status_category = sent answer.status_category old.status_category;
  description = sent answer.description old.description;
  start_date = sent_slot answer.start_date old.start_date;
  due_date = sent_slot answer.due_date old.due_date;
  estimate_minutes = sent_slot answer.estimate_minutes old.estimate_minutes;
  assignee_id = sent_slot answer.assignee_id old.assignee_id;
  assignee_name = sent answer.assignee_name old.assignee_name;
  labels = sent answer.labels old.labels;
  remote_assignees = sent answer.remote_assignees old.remote_assignees;
  created_at = sent answer.created_at old.created_at;
  updated_at = sent answer.updated_at old.updated_at;
}

with_name_lem :
    (status : Option ProjectStatus) (answer : Task)
    → with_status status answer ≡ with_name status answer
with_name_lem none answer = λ i. record answer {
  status_name = sent_lem answer.status_name none i;
  status_category = sent_lem answer.status_category none i;
}
with_name_lem (some s) answer = λ i. record answer {
  status_name = sent_lem answer.status_name (some s.name) i;
  status_category = sent_lem answer.status_category (some s.category) i;
}

overlay_lem :
    (answer : Task)
    → ◌≡◌ {A = Task → Task} (λ old. merge_task old answer) (λ old. overlay old answer)
unfolding merge_task
overlay_lem answer = λ i old. record answer {
  parent_id = sent_slot_lem answer.parent_id old.parent_id i;
  milestone_id = sent_slot_lem answer.milestone_id old.milestone_id i;
  status_name = sent_lem answer.status_name old.status_name i;
  status_category = sent_lem answer.status_category old.status_category i;
  description = sent_lem answer.description old.description i;
  start_date = sent_slot_lem answer.start_date old.start_date i;
  due_date = sent_slot_lem answer.due_date old.due_date i;
  estimate_minutes = sent_slot_lem answer.estimate_minutes old.estimate_minutes i;
  assignee_id = sent_slot_lem answer.assignee_id old.assignee_id i;
  assignee_name = sent_lem answer.assignee_name old.assignee_name i;
  labels = sent_lem answer.labels old.labels i;
  remote_assignees = sent_lem answer.remote_assignees old.remote_assignees i;
  created_at = sent_lem answer.created_at old.created_at i;
  updated_at = sent_lem answer.updated_at old.updated_at i;
}

find-change :
    (id : String) (f : Task → Task) (ts : List Task) (j : String)
    → ((t : Task) → (f t).id ≡ id)
    → find (has_task_id j) (map (λ t. if t.id == id then f t else t) ts)
      ≡ change_at id f (λ k. find (has_task_id k) ts) j
find-change id f [] j same = ground arith
find-change id f (t ∷ ts) j same = ground (
  arith,
  find-change id f ts j same,
  same t,
  eq_iff t.id id,
  eq_iff t.id j,
  eq_iff id j,
  eq_iff (f t).id j,
)

find-add :
    (task : Task) (ts : List Task) (j : String)
    → find (has_task_id j) (ts ++ task ∷ []) ≡ add task (λ k. find (has_task_id k) ts) j
find-add task [] j = refl
find-add task (t ∷ ts) j = ground (arith, find-add task ts j)

refresh-tasks_of :
    (id : String) (quiet : Bool) (w : World) (j : String)
    → tasks_of (start_refresh_tasks id quiet w) j ≡ tasks_of w j
unfolding start_refresh_tasks
refresh-tasks_of id quiet w j = ground arith

-- An accepted edit of a listed task puts the server's task at its identifier; an accepted creation
-- adds the server's task unless its identifier is taken, with the name and category of its status
-- where the answer has none; and an accepted move, if the answer is about the moved task, puts at
-- that task the answer with the old value of each field it leaves out. Nothing else of the map of
-- tasks changes.
pub answers-Refine :
    (project_id id : String) (previous : List Task) (status : Option ProjectStatus) (task : Task)
    (w : World)
    → task.id ≡ id
    → (j : String)
    → (tasks_of (after_update_task project_id previous (fulfilled task) w) j
        ≡ change_at task.id (λ old. task) (tasks_of w) j)
      × (tasks_of (after_create_task project_id status (fulfilled task) w) j
          ≡ add (with_name status task) (tasks_of w) j)
      × (tasks_of (after_change_status project_id id previous (fulfilled task) w) j
          ≡ change_at id (λ old. overlay old task) (tasks_of w) j)
unfolding after_update_task after_create_task after_change_status merge_task
answers-Refine project_id id previous status task w own j =
    let ts = w.workspace_data.tasks in
    (
      refresh-tasks_of project_id true _ j ∙ find-change task.id (λ old. task) ts j (λ t. refl),
      refresh-tasks_of project_id true _ j
          ∙ find-add (with_status status task) ts j
          ∙ ap (λ t. add t (tasks_of w) j) (with_name_lem status task),
      refresh-tasks_of project_id true _ j
          ∙ find-change id (λ old. merge_task old task) ts j (λ t. own)
          ∙ ap (λ f. change_at id f (tasks_of w) j) (overlay_lem task),
    )
