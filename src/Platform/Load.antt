-- ===== src/Platform/Load.antt =====
-- `load`, `openProject` and `handleLogout`.
use justprojects.Base.{
  String, true, false, Option, none, some, get_or, List, [], find, nat_eq, codes, lower, ◌==◌,
  if◌then◌else◌,
}
use justprojects.Types.{Project, Session}
use justprojects.Answers.{
  Cause, api_error, error, thrown_value, Ended, answered, failed, message_of,
}
use justprojects.Platform.{
  PlatformStats, PlatformSettings, PlatformUserSummary, PlatformProjectSummary, session_job,
  lists_job, login, login_next, app, overview_page, Platform, ask, go_to,
}

-- what `Promise.all` gives; a missing list counts as an empty one
pub record PlatformLists : Type 0 where
  pub stats : PlatformStats
  pub settings : PlatformSettings
  pub users : Option (List PlatformUserSummary)
  pub projects : Option (List PlatformProjectSummary)
  pub shell_projects : Option (List Project)

-- `load` up to its first `await`
unfoldable pub start_load : Platform → Platform
start_load p =
    if p.configured
    then ask session_job (record p { loading = true; error_message = none })
    else record p { loading = false; error_message = some "auth.apiRequired" }

abbrev load_error : Cause → Platform → Platform
load_error c p = record p { loading = false; error_message = some (message_of "admin.loadError" c) }

-- `catch` and `finally` of `load`
unfoldable pub load_failed : Cause → Platform → Platform
load_failed (api_error message status) p =
    if nat_eq status 401
    then go_to login_next (record p { loading = false })
    else if nat_eq status 403
    then go_to app (record p { loading = false })
    else load_error (api_error message status) p
load_failed (error message) p = load_error (error message) p
load_failed thrown_value p = load_error thrown_value p

unfoldable pub after_session : Ended Session → Platform → Platform
after_session (answered session) p =
    ask lists_job (record p { session = some session; current_user_id = some session.user.id })
after_session (failed c) p = load_failed c p

unfoldable pub after_lists : Ended PlatformLists → Platform → Platform
after_lists (answered lists) p = record p {
  stats = some lists.stats;
  settings = some lists.settings;
  users = get_or lists.users [];
  projects = get_or lists.projects [];
  shell_projects = get_or lists.shell_projects [];
  loading = false;
}
after_lists (failed c) p = load_failed c p

abbrev open_found : Platform → Option Project → Platform
open_found p none = p
open_found p (some q) = go_to (overview_page (lower (codes q.key))) p

unfoldable pub open_project : String → Platform → Platform
open_project id p = open_found p (find (λ q. q.id == id) p.shell_projects)

-- behind `await logout().catch(...)`
unfoldable pub after_logout : Ended (Unit {0}) → Platform → Platform
after_logout o p = go_to login p
