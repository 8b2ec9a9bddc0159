-- ===== src/Workspace/Edited.antt =====
-- What the editor of a task shows at once, field by field: `optimistic` in `handleUpdateTask` of
-- services/frontend/components/project-workspace.tsx.
use justprojects.Base.{
  String, ◌≡◌, refl, some, List, find, arith, Option, none, or_else, ◌==◌, if◌then◌else◌,
  Bool-cases, inl, inr,
}
use justprojects.Types.{
  Task, ProjectStatus, StatusCategory, Slot, undefined, null, value, present, or_null, text_or_null,
  reference, TenantMember,
}
use justprojects.Workspace.{TaskInput}
use justprojects.Workspace.Tasks.{
  has_status_id, optimistic_task, assignee_name_of, status_name_of, category_of,
}

-- `new` is the task `old` with the fields of the editor; a text that is empty clears a date, and
-- what the editor does not know is kept.
pub record IsEdited (statuses : List ProjectStatus) (members : List TenantMember)
    (input : TaskInput) (old new : Task) : Type 0 where
  pub title : new.title ≡ input.title
  pub description : new.description ≡ some input.description
  pub priority : new.priority ≡ input.priority
  pub visibility : new.visibility ≡ input.visibility
  pub milestone : present new.milestone_id ≡ input.milestone_id
  pub estimate : present new.estimate_minutes ≡ input.estimate_minutes
  pub start_date :
      present new.start_date ≡ (if input.start_date == "" then none else some input.start_date)
  pub due_date : present new.due_date ≡ (if input.due_date == "" then none else some input.due_date)
  pub assignee : present new.assignee_id ≡ present input.assignee_id
  pub assignee_name : new.assignee_name ≡ elim (present input.assignee_id) [
    | none ↦ none
    | some id ↦ if id == "" then none else elim (find (λ m. m.user.id == id) members) [
      | none ↦ none
      | some member ↦ some member.user.name
    ]
  ]
  pub status : new.status_id ≡ input.status_id
  pub status_name : new.status_name ≡ elim (find (λ s. s.id == input.status_id) statuses) [
    | none ↦ old.status_name
    | some s ↦ some s.name
  ]
  pub status_category : new.status_category ≡ elim (find (λ s. s.id == input.status_id) statuses) [
    | none ↦ old.status_category
    | some s ↦ some s.category
  ]
  pub same_id : new.id ≡ old.id
  pub same_project : new.project_id ≡ old.project_id
  pub same_parent : new.parent_id ≡ old.parent_id
  pub same_position : new.position ≡ old.position
  pub same_version : new.version ≡ old.version
  pub same_labels : new.labels ≡ old.labels
  pub same_remote : new.remote_assignees ≡ old.remote_assignees
  pub same_created : new.created_at ≡ old.created_at
  pub same_updated : new.updated_at ≡ old.updated_at

present-or_null {ℓ} : {A : Type ℓ} (o : Option A) → present (or_null o) ≡ o
present-or_null none = refl
present-or_null (some a) = refl

present-text_or_null : (s : String) → present (text_or_null s) ≡ (if s == "" then none else some s)
present-text_or_null s = ground arith

assignee_name_of-reference :
    (members : List TenantMember) (a : Slot String)
    → assignee_name_of members (reference a) ≡ elim (present a) [
      | none ↦ none
      | some id ↦ if id == "" then none else elim (find (λ m. m.user.id == id) members) [
        | none ↦ none
        | some member ↦ some member.user.name
      ]
    ]
assignee_name_of-reference members undefined = refl
assignee_name_of-reference members null = refl
assignee_name_of-reference members (value id) = elim (Bool-cases (id == "")) [
  | inl empty ↦ rw empty refl
  | inr named ↦ rw named refl
]

status_name_lem :
    (found : Option ProjectStatus) (old : Option String)
    → or_else (status_name_of found) old ≡ elim found [ none ↦ old | some s ↦ some s.name ]
status_name_lem none old = refl
status_name_lem (some s) old = refl

category_lem :
    (found : Option ProjectStatus) (old : Option StatusCategory)
    → or_else (category_of found) old ≡ elim found [ none ↦ old | some s ↦ some s.category ]
category_lem none old = refl
category_lem (some s) old = refl

pub optimistic_task-IsEdited :
    (statuses : List ProjectStatus) (members : List TenantMember) (input : TaskInput) (task : Task)
    → IsEdited statuses members input task (optimistic_task statuses members input task)
unfolding optimistic_task
optimistic_task-IsEdited statuses members input task =
    let found = find (has_status_id input.status_id) statuses in
    record {
      title = refl;
      description = refl;
      priority = refl;
      visibility = refl;
      milestone = present-or_null input.milestone_id;
      estimate = present-or_null input.estimate_minutes;
      start_date = present-text_or_null input.start_date;
      due_date = present-text_or_null input.due_date;
      assignee = present-or_null (present input.assignee_id);
      assignee_name = assignee_name_of-reference members input.assignee_id;
      status = refl;
      status_name = status_name_lem found task.status_name;
      status_category = category_lem found task.status_category;
      same_id = refl;
      same_project = refl;
      same_parent = refl;
      same_position = refl;
      same_version = refl;
      same_labels = refl;
      same_remote = refl;
      same_created = refl;
      same_updated = refl;
    }
