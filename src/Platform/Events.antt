-- ===== src/Platform/Events.antt =====
-- The page as a machine: what its buttons and fields do, and the answers to the requests in flight, in
-- any order.
use justprojects.Base.{
  ℕ, String, Bool, true, false, not, ◌&&◌, ◌||◌, Option, none, some, List, ◌∷◌, ◌++◌, ◌≡◌, ◌==◌,
  same_text, codes_eq, if◌then◌else◌,
}
use justprojects.Types.{Session, User}
use justprojects.Answers.{Ended}
use justprojects.Platform.{
  PlatformSettings, PlatformUserSummary, PlatformProjectSummary, UserPatch, PlatformJob,
  session_job, lists_job, setting_job, logout_job, user_job, sessions_job, project_job, Platform,
  ask, mounted_platform,
}
use justprojects.Platform.Load.{
  PlatformLists, start_load, after_session, after_lists, open_project, after_logout,
}
use justprojects.Platform.Users.{start_save_user, after_save_user, start_revoke, after_revoke}
use justprojects.Platform.Settings.{
  SettingField, login_enabled, signup_enabled, setting_key, start_save_setting, after_save_setting,
  project_key, start_save_project, after_save_project,
}

abbrev pub PlatformReply : PlatformJob → Type 0
PlatformReply session_job = Session
PlatformReply lists_job = PlatformLists
PlatformReply setting_job = PlatformSettings
PlatformReply logout_job = Unit {0}
PlatformReply (user_job user input) = User
PlatformReply (sessions_job user) = ℕ
PlatformReply (project_job project status) = String

-- the code behind the `await`
unfoldable pub settle : (j : PlatformJob) → Ended (PlatformReply j) → Platform → Platform
settle session_job = after_session
settle lists_job = after_lists
settle setting_job = after_save_setting
settle logout_job = after_logout
settle (user_job user input) = after_save_user user input
settle (sessions_job user) = after_revoke user
settle (project_job project status) = after_save_project project status

-- `saving === key`, and `Boolean(saving)`
abbrev saving_is : List ℕ → Option (List ℕ) → Bool
saving_is key none = false
saving_is key (some k) = codes_eq k key

abbrev pub saving_some : Option (List ℕ) → Bool
saving_some none = false
saving_some (some k) = true

-- the switch as it is shown
abbrev enabled : SettingField → PlatformSettings → Bool
enabled login_enabled s = s.login_enabled
enabled signup_enabled s = s.signup_enabled

-- The switches are rendered with the settings only.
abbrev pub toggle_shown : SettingField → Option PlatformSettings → Platform → Platform
toggle_shown field none p = p
toggle_shown field (some s) p =
    if saving_is (setting_key field) p.saving
    then p
    else start_save_setting field (not (enabled field s)) p

-- The buttons of a row are not there for the administrator's own row, and are disabled by any `saving`.
abbrev pub row_disabled : PlatformUserSummary → Platform → Bool
row_disabled user p = same_text (some user.id) p.current_user_id || saving_some p.saving

abbrev is_project_status : String → Bool
is_project_status value = value == "active" || value == "paused" || value == "archived"

pub data PlatformAction : Type 0 where
  retry refresh dismiss log_out : PlatformAction
  toggle : SettingField → PlatformAction
  press_admin press_suspend press_revoke : PlatformUserSummary → PlatformAction
  pick_status : PlatformProjectSummary → String → PlatformAction
  set_user_query set_project_query pick_project : String → PlatformAction

unfoldable pub do_action : PlatformAction → Platform → Platform
do_action retry p = start_load p
do_action refresh p = if p.loading then p else start_load p
do_action dismiss p = record p { notice = none }
do_action log_out p = ask logout_job p
do_action (toggle field) p = toggle_shown field p.settings p
do_action (press_admin user) p =
    let patch : UserPatch = record {
      platform_admin = some (not user.platform_admin);
      suspended = none;
    } in
    if row_disabled user p then p else start_save_user user patch "admin" p
do_action (press_suspend user) p =
    let patch : UserPatch = record {
      platform_admin = none;
      suspended = some (not user.suspended);
    } in
    if row_disabled user p then p else start_save_user user patch "suspend" p
do_action (press_revoke user) p = if row_disabled user p then p else start_revoke user p
do_action (pick_status project status) p =
    if is_project_status status && not (saving_is (project_key project.id) p.saving)
    then start_save_project project status p
    else p
do_action (set_user_query text) p = record p { user_query = text }
do_action (set_project_query text) p = record p { project_query = text }
do_action (pick_project id) p = open_project id p

pub data PlatformStep : Platform → Platform → Type 0 where
  act : (a : PlatformAction) (p : Platform) → PlatformStep p (do_action a p)
  reply :
      (before after : List PlatformJob) (j : PlatformJob) (o : Ended (PlatformReply j))
      (p : Platform)
      → p.pending ≡ before ++ j ∷ after
      → PlatformStep p (settle j o (record p { pending = before ++ after }))

-- What can happen after the first load, which begins with the mounting.
pub data PlatformReach (configured : Bool) : Platform → Type 0 where
  opened : PlatformReach configured (start_load (mounted_platform configured))
  next :
      {p q : Platform} → PlatformReach configured p → PlatformStep p q → PlatformReach configured q
