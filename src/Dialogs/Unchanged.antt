-- ===== src/Dialogs/Unchanged.antt =====
-- An editor that is submitted as it was filled.
use justprojects.Base.{
  String, false, Option, none, some, get_or, List, ◌==◌, if◌then◌else◌, ◌≡◌, same_text, find,
}
use justprojects.Types.{present, Task, ProjectStatus, TenantMember}
use justprojects.Base.{trim_text}
use justprojects.Dialogs.{date_text}

-- What the form cannot tell from something else: text with spaces around it, a date longer than ten
-- characters, and references that read like the form's own words for none.
pub record IsPlain (task : Task) : Type 0 where
  pub title : trim_text task.title ≡ task.title
  pub description : trim_text (get_or task.description "") ≡ get_or task.description ""
  pub start_date : date_text task.start_date ≡ get_or (present task.start_date) ""
  pub due_date : date_text task.due_date ≡ get_or (present task.due_date) ""
  pub milestone : same_text (present task.milestone_id) (some "none") ≡ false
  pub assignee : same_text (present task.assignee_id) (some "unassigned") ≡ false

-- The task is shown under the name and category of its status, if that is known, and under the name
-- of the member it is assigned to, or without one if there is no such member.
pub record IsNamed (statuses : List ProjectStatus) (members : List TenantMember) (task : Task)
    : Type 0 where
  pub status_name : task.status_name ≡ elim (find (λ s. s.id == task.status_id) statuses) [
    | none ↦ task.status_name
    | some s ↦ some s.name
  ]
  pub status_category : task.status_category ≡ elim (find (λ s. s.id == task.status_id) statuses) [
    | none ↦ task.status_category
    | some s ↦ some s.category
  ]
  pub assignee_name : task.assignee_name ≡ elim (present task.assignee_id) [
    | none ↦ none
    | some id ↦ if id == "" then none else elim (find (λ m. m.user.id == id) members) [
      | none ↦ none
      | some member ↦ some member.user.name
    ]
  ]

-- The two tasks are shown alike; a missing text is shown like the empty one.
pub record IsShownLike (a b : Task) : Type 0 where
  pub id : a.id ≡ b.id
  pub title : a.title ≡ b.title
  pub description : get_or a.description "" ≡ get_or b.description ""
  pub status : a.status_id ≡ b.status_id
  pub status_name : a.status_name ≡ b.status_name
  pub status_category : a.status_category ≡ b.status_category
  pub milestone : present a.milestone_id ≡ present b.milestone_id
  pub priority : a.priority ≡ b.priority
  pub start_date : get_or (present a.start_date) "" ≡ get_or (present b.start_date) ""
  pub due_date : get_or (present a.due_date) "" ≡ get_or (present b.due_date) ""
  pub estimate : present a.estimate_minutes ≡ present b.estimate_minutes
  pub assignee : present a.assignee_id ≡ present b.assignee_id
  pub assignee_name : a.assignee_name ≡ b.assignee_name
  pub visibility : a.visibility ≡ b.visibility
  pub version : a.version ≡ b.version
  pub labels : a.labels ≡ b.labels
  pub remote_assignees : a.remote_assignees ≡ b.remote_assignees

abbrev name_of : List TenantMember → Option String → Option String
name_of members assignee = elim (assignee) [
  | none ↦ none
  | some id ↦ if id == "" then none else elim (find (λ m. m.user.id == id) members) [
    | none ↦ none
    | some member ↦ some member.user.name
  ]
]
