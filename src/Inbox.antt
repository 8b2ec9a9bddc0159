-- ===== src/Inbox.antt =====
-- The inbox of services/frontend/components/request-inbox.tsx: `load`, `filtered`, `selectRequest`,
-- `save`, `convert`, `openProject` and `handleLogout` of `RequestInbox`, each cut at its `await`s.
-- A status is its text.
pub mod Events
pub mod Spinners
pub mod Selection
mod Tests
use justprojects.Base.{
  ℕ, String, ◌≡◌, Bool, true, false, ◌&&◌, ◌==◌, Option, none, some, get_or, List, [], ◌∷◌, ◌++◌,
  map, find, filter, nat_eq, codes, lower, trim, includes, truthy, if◌then◌else◌,
}
use justprojects.Answers.{
  Cause, api_error, error, thrown_value, Ended, answered, failed, message_of,
}
use justprojects.Types.{
  Slot, null, value, present, text_or_null, Session, TenantMember, Project, ProjectRequest,
}

-- what `Promise.all` gives; a missing list counts as an empty one
pub record Lists : Type 0 where
  pub requests : Option (List ProjectRequest)
  pub members : Option (List TenantMember)
  pub projects : Option (List Project)

pub data InboxJob : Type 0 where
  session_job lists_job logout_job : InboxJob
  save_job convert_job : String → InboxJob

pub data InboxRoute : Type 0 where
  login login_next : InboxRoute
  overview_page : List ℕ → InboxRoute

-- the body of the PATCH of a request
pub record RequestPatch : Type 0 where
  pub status : String
  pub assigned_to : Slot String
  pub internal_notes : String

-- The state of the component, the requests in flight, the PATCHes sent, and the pages opened.
pub record Inbox : Type 0 where
  pub configured : Bool
  pub session : Option Session
  pub requests : List ProjectRequest
  pub members : List TenantMember
  pub projects : List Project
  pub selected : Option ProjectRequest
  pub status_filter : String
  pub query : String
  pub status : String
  pub assignee : String
  pub internal_notes : String
  pub loading : Bool
  pub saving : Bool
  pub error_message : Option String
  pub pending : List InboxJob
  pub patches : List (String × RequestPatch)
  pub routes : List InboxRoute

abbrev pub ask : InboxJob → Inbox → Inbox
ask j w = record w { pending = w.pending ++ j ∷ [] }

abbrev pub go_to : InboxRoute → Inbox → Inbox
go_to r w = record w { routes = w.routes ++ r ∷ [] }

unfoldable pub start_load : Inbox → Inbox
start_load w =
    if w.configured then ask session_job (record w { loading = true; error_message = none }) else w

-- `catch` and `finally` of `load`
unfoldable pub load_failed : Cause → Inbox → Inbox
load_failed (api_error message code) w =
    if nat_eq code 401
    then go_to login_next (record w { loading = false })
    else record w { loading = false; error_message = some message }
load_failed (error message) w = record w { loading = false; error_message = some message }
load_failed thrown_value w = record w { loading = false; error_message = some "requests.loadError" }

unfoldable pub after_session : Ended Session → Inbox → Inbox
after_session (answered session) w = ask lists_job (record w { session = some session })
after_session (failed c) w = load_failed c w

unfoldable pub after_lists : Ended Lists → Inbox → Inbox
after_lists (answered lists) w = record w {
  requests = get_or lists.requests [];
  members = get_or lists.members [];
  projects = get_or lists.projects [];
  loading = false;
}
after_lists (failed c) w = load_failed c w

-- the text of a request that is searched
abbrev pub request_text : ProjectRequest → List ℕ
request_text r = lower (
    codes r.title
    ++ b' ' ∷ codes r.description
    ++ b' ' ∷ codes r.requester_name
    ++ b' ' ∷ codes r.requester_email)

abbrev pub request_found : List ℕ → ProjectRequest → Bool
request_found [] r = true
request_found (c ∷ s) r = includes (request_text r) (c ∷ s)

-- `filtered`
pub filtered_requests : Inbox → List ProjectRequest
filtered_requests w =
    filter
      (λ r.
        (if w.status_filter == "all" then true else r.status == w.status_filter)
        && request_found (lower (trim (codes w.query))) r)
      w.requests

unfoldable pub select_request : ProjectRequest → Inbox → Inbox
select_request r w = record w {
  selected = some r;
  status = r.status;
  assignee = get_or (present r.assigned_to) "";
  internal_notes = get_or (present r.internal_notes) "";
}

-- `{ status, assignedTo: assignee || null, internalNotes }`
abbrev pub request_patch : Inbox → RequestPatch
request_patch w = record {
  status = w.status;
  assigned_to = text_or_null w.assignee;
  internal_notes = w.internal_notes;
}

abbrev send_save : Inbox → Option ProjectRequest → Inbox
send_save w none = w
send_save w (some r) = ask (save_job r.id) (record w {
  saving = true;
  error_message = none;
  patches = w.patches ++ (r.id, request_patch w) ∷ [];
})

unfoldable pub start_save : Inbox → Inbox
start_save w = send_save w w.selected

abbrev pub replace_request : String → ProjectRequest → List ProjectRequest → List ProjectRequest
replace_request id result = map (λ r. if r.id == id then result else r)

unfoldable pub after_save : String → Ended ProjectRequest → Inbox → Inbox
after_save id (answered result) w = record w {
  requests = replace_request id result w.requests;
  selected = some result;
  saving = false;
}
after_save id (failed c) w = record w {
  error_message = some (message_of "requests.statusError" c);
  saving = false;
}

abbrev send_convert : Inbox → Option ProjectRequest → Inbox
send_convert w none = w
send_convert w (some r) = ask (convert_job r.id) (record w { saving = true; error_message = none })

unfoldable pub start_convert : Inbox → Inbox
start_convert w = send_convert w w.selected

unfoldable pub after_convert : String → Ended (ProjectRequest × Project) → Inbox → Inbox
after_convert id (answered (result, project)) w =
    go_to (overview_page (lower (codes project.key))) (record w {
      requests = replace_request id result w.requests;
      selected = some result;
      saving = false;
    })
after_convert id (failed c) w = record w {
  error_message = some (message_of "requests.convertError" c);
  saving = false;
}

abbrev open_found : Inbox → Option Project → Inbox
open_found w none = w
open_found w (some p) = go_to (overview_page (lower (codes p.key))) w

unfoldable pub open_project : String → Inbox → Inbox
open_project id w = open_found w (find (λ p. p.id == id) w.projects)

-- behind `await logout().catch(...)`
unfoldable pub after_logout : Ended (Unit {0}) → Inbox → Inbox
after_logout o w = go_to login w
