-- ===== src/Workspace/Samples.antt =====
-- A small workspace, for the tests.
use justprojects.Base.{String, true, false, none, some, [], ◌∷◌}
use justprojects.Types.{
  Slot, undefined, null, todo, done, User, Session, Project, ProjectStatus, Task, Milestone,
  overview,
}
use justprojects.Workspace.{
  World, mounted, TaskInput, MilestoneInput, Failure, api_error, other_error, fulfilled, rejected,
}
use justprojects.Workspace.Load.{ProjectDetails, Resources}

abbrev pub ann : User
ann = record {
  id = "u1";
  name = "Ann";
  email = "ann@example.org";
  email_verified = some true;
  platform_admin = none;
  suspended = none;
}

abbrev pub signed_in : Session
signed_in = record {
  user = ann;
  tenant = record { id = "t1"; name = "Acme"; slug = "acme"; request_slug = "acme-in" };
  membership = record { id = some "m1"; role = "owner" };
  platform_admin = none;
}

abbrev pub rocket : Project
rocket = record {
  id = "p1";
  name = "Rocket";
  key = "RKT";
  description = none;
  start_date = null;
  target_date = null;
  connection_id = null;
  status = "active";
  version = 3;
}

abbrev pub open_status : ProjectStatus
open_status = record {
  id = "s1";
  project_id = some "p1";
  name = "Open";
  category = todo;
  position = 0;
  color = none;
}

abbrev pub done_status : ProjectStatus
done_status = record {
  id = "s2";
  project_id = some "p1";
  name = "Done";
  category = done;
  position = 1;
  color = none;
}

abbrev pub task : String → String → String → Slot String → Task
task id title status_id parent_id = record {
  id = id;
  project_id = "p1";
  parent_id = parent_id;
  milestone_id = null;
  status_id = status_id;
  status_name = none;
  status_category = none;
  title = title;
  description = none;
  priority = "medium";
  start_date = null;
  due_date = null;
  estimate_minutes = null;
  assignee_id = undefined;
  assignee_name = none;
  visibility = "internal";
  position = 0;
  version = 1;
  labels = none;
  remote_assignees = none;
  created_at = none;
  updated_at = none;
}

abbrev pub build : Task
build = task "a" "Build" "s1" null

abbrev pub launch : Task
launch = task "b" "Launch" "s1" null

abbrev pub land : Task
land = task "c" "Land" "s1" null

abbrev pub milestone : Milestone
milestone = record {
  id = "m1";
  project_id = some "p1";
  name = "Orbit";
  description = none;
  start_date = null;
  due_date = null;
  status = "open";
  visibility = "internal";
  version = 2;
}

-- The project is shown with two tasks, the second of which is being edited, and a milestone.
abbrev pub shown : World
shown = record (mounted true "rkt" overview) {
  workspace_data = record ((mounted true "rkt" overview).workspace_data) {
    project = rocket;
    projects = rocket ∷ [];
    statuses = open_status ∷ done_status ∷ [];
    tasks = build ∷ launch ∷ [];
    milestones = milestone ∷ [];
    session = some signed_in;
  };
  editing_task = some launch;
  editing_milestone = some milestone;
  loading = false;
}

abbrev pub edit : TaskInput
edit = record {
  title = "Launch it";
  description = "";
  status_id = "s2";
  milestone_id = none;
  priority = "high";
  start_date = "";
  due_date = "2026-01-02";
  estimate_minutes = none;
  assignee_id = null;
  visibility = "internal";
}

abbrev pub milestone_edit : MilestoneInput
milestone_edit = record {
  name = "Moon";
  description = "";
  start_date = "";
  due_date = "";
  status = "closed";
  visibility = "internal";
}

abbrev pub details : ProjectDetails
details = record { project = some rocket; statuses = open_status ∷ done_status ∷ [] }

-- the answers of a load in which the milestones could not be read
abbrev pub answers : Resources
answers = record {
  tasks = fulfilled (some (build ∷ launch ∷ []));
  milestones = rejected other_error;
  labels = fulfilled (some []);
  connections = fulfilled none;
  sync_runs = fulfilled (some []);
  members = fulfilled (some []);
  updates = fulfilled (some []);
}

abbrev pub unauthorized : Failure
unauthorized = api_error "unauthorized" 401
