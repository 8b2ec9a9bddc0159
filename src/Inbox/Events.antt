-- ===== src/Inbox/Events.antt =====
-- The inbox as a machine: what the user does, and the answers to the requests in flight, in any
-- order.
use justprojects.Base.{String, Bool, true, false, none, List, [], ◌∷◌, ◌++◌, ◌≡◌}
use justprojects.Types.{Session, Project, ProjectRequest}
use justprojects.Answers.{Ended}
use justprojects.Inbox.{
  Lists, InboxJob, session_job, lists_job, logout_job, save_job, convert_job, Inbox, ask,
  start_load, after_session, after_lists, select_request, start_save, after_save, start_convert,
  after_convert, open_project, after_logout,
}

abbrev pub InboxReply : InboxJob → Type 0
InboxReply session_job = Session
InboxReply lists_job = Lists
InboxReply logout_job = Unit {0}
InboxReply (save_job id) = ProjectRequest
InboxReply (convert_job id) = ProjectRequest × Project

unfoldable pub continue : (j : InboxJob) → Ended (InboxReply j) → Inbox → Inbox
continue session_job = after_session
continue lists_job = after_lists
continue logout_job = after_logout
continue (save_job id) = after_save id
continue (convert_job id) = after_convert id

pub data InboxAction : Type 0 where
  retry save convert close log_out : InboxAction
  pick : ProjectRequest → InboxAction
  pick_project set_query set_status_filter set_status set_assignee set_notes : String → InboxAction

unfoldable pub do_action : InboxAction → Inbox → Inbox
do_action retry w = start_load w
do_action save w = start_save w
do_action convert w = start_convert w
do_action close w = record w { selected = none }
do_action log_out w = ask logout_job w
do_action (pick r) w = select_request r w
do_action (pick_project id) w = open_project id w
do_action (set_query text) w = record w { query = text }
do_action (set_status_filter text) w = record w { status_filter = text }
do_action (set_status text) w = record w { status = text }
do_action (set_assignee text) w = record w { assignee = text }
do_action (set_notes text) w = record w { internal_notes = text }

pub data InboxStep : Inbox → Inbox → Type 0 where
  act : (a : InboxAction) (w : Inbox) → InboxStep w (do_action a w)
  reply :
      (before after : List InboxJob) (j : InboxJob) (o : Ended (InboxReply j)) (w : Inbox)
      → w.pending ≡ before ++ j ∷ after
      → InboxStep w (continue j o (record w { pending = before ++ after }))

-- the first values of the state
abbrev pub mounted_inbox : Bool → Inbox
mounted_inbox configured = record {
  configured = configured;
  session = none;
  requests = [];
  members = [];
  projects = [];
  selected = none;
  status_filter = "all";
  query = "";
  status = "submitted";
  assignee = "";
  internal_notes = "";
  loading = true;
  saving = false;
  error_message = none;
  pending = [];
  patches = [];
  routes = [];
}

-- What can happen after the first load, which begins with the mounting.
pub data InboxReach (configured : Bool) : Inbox → Type 0 where
  opened : InboxReach configured (start_load (mounted_inbox configured))
  next : {v w : Inbox} → InboxReach configured v → InboxStep v w → InboxReach configured w
