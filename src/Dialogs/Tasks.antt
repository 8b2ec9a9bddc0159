-- ===== src/Dialogs/Tasks.antt =====
-- `TaskDialog`.
use justprojects.Base.{
  ℕ, suc, String, Bool, true, false, Option, none, some, get_or, or_else, List, [], ◌∷◌, ◌++◌, find,
  first, truthy, ◌==◌, if◌then◌else◌,
}
use justprojects.Types.{null, value, present, StatusCategory, ProjectStatus, Task}
use justprojects.Workspace.{TaskInput, Outcome, fulfilled, rejected}
use justprojects.Base.{trim_text}
use justprojects.Dialogs.{date_text}
use justprojects.Dialogs.Decimal.{show_nat, read_nat}

-- The fields; the estimate is the codes of its text.
pub record TaskForm : Type 0 where
  pub title : String
  pub description : String
  pub status_id : String
  pub milestone_id : String
  pub priority : String
  pub start_date : String
  pub due_date : String
  pub estimate : List ℕ
  pub assignee_id : String
  pub visibility : String

-- what the dialog calls with its input: `onCreate` and `onUpdate`
pub data TaskCall : Type 0 where
  create : TaskInput → TaskCall
  update : TaskInput → ℕ → TaskCall

-- The properties that the parent gives, the state, the calls made, and the times `onOpenChange(false)`
-- was called.
pub record TaskDialog : Type 0 where
  pub statuses : List ProjectStatus
  pub task : Option Task
  pub can_create : Bool
  pub can_update : Bool
  pub form : TaskForm
  pub submitting : Bool
  pub calls : List TaskCall
  pub closings : ℕ

abbrev is_todo : ProjectStatus → Bool
is_todo s = elim (s.category) [ StatusCategory.todo ↦ true | _ ↦ false ]

-- `defaultStatus?.id ?? ""`
abbrev pub default_status_id : List ProjectStatus → String
default_status_id statuses = elim (or_else (find is_todo statuses) (first statuses)) [
  | none ↦ ""
  | some s ↦ s.id
]

-- the first values, and those that `reset` sets
abbrev pub blank_form : List ProjectStatus → TaskForm
blank_form statuses = record {
  title = "";
  description = "";
  status_id = default_status_id statuses;
  milestone_id = "none";
  priority = "medium";
  start_date = "";
  due_date = "";
  estimate = [];
  assignee_id = "unassigned";
  visibility = "internal";
}

-- the form of the editor when it is opened on a task
abbrev pub form_of : Task → TaskForm
form_of task = record {
  title = task.title;
  description = get_or task.description "";
  status_id = task.status_id;
  milestone_id = get_or (present task.milestone_id) "none";
  priority = task.priority;
  start_date = date_text task.start_date;
  due_date = date_text task.due_date;
  estimate = elim (present task.estimate_minutes) [ none ↦ [] | some n ↦ show_nat n ];
  assignee_id = get_or (present task.assignee_id) "unassigned";
  visibility = task.visibility;
}

-- the effect that fills the editor, run when it is opened or its task changes
abbrev pub fill_form : Bool → Option Task → TaskDialog → TaskDialog
fill_form is_open none d = d
fill_form is_open (some task) d = if is_open then record d { form = form_of task } else d

unfoldable pub populate : Bool → TaskDialog → TaskDialog
populate is_open d = fill_form is_open d.task d

-- the effect that waits for the statuses
unfoldable pub choose_status : TaskDialog → TaskDialog
choose_status d =
    if truthy d.form.status_id
    then d
    else record d { form = record (d.form) { status_id = default_status_id d.statuses } }

abbrev pub minutes : List ℕ → Option ℕ
minutes [] = none
minutes (c ∷ s) = some (read_nat (c ∷ s))

abbrev pub input_of : TaskForm → TaskInput
input_of f = record {
  title = trim_text f.title;
  description = trim_text f.description;
  status_id = f.status_id;
  milestone_id = if f.milestone_id == "none" then none else some f.milestone_id;
  priority = f.priority;
  start_date = f.start_date;
  due_date = f.due_date;
  estimate_minutes = minutes f.estimate;
  assignee_id = if f.assignee_id == "unassigned" then null else value f.assignee_id;
  visibility = f.visibility;
}

abbrev pub call : TaskCall → TaskDialog → TaskDialog
call c d = record d { submitting = true; calls = d.calls ++ c ∷ [] }

abbrev pub send : TaskInput → Option Task → TaskDialog → TaskDialog
send input none d = if d.can_create then call (create input) d else d
send input (some task) d = if d.can_update then call (update input task.version) d else d

-- `submit` up to its `await`
unfoldable pub start_submit : TaskDialog → TaskDialog
start_submit d = if truthy (trim_text d.form.title) then send (input_of d.form) d.task d else d

unfoldable pub after_submit : Outcome (Unit {0}) → TaskDialog → TaskDialog
after_submit (fulfilled done) d = record d {
  form = blank_form d.statuses;
  closings = suc d.closings;
  submitting = false;
}
after_submit (rejected f) d = record d { submitting = false }
