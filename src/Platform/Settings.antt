-- ===== src/Platform/Settings.antt =====
-- `saveSetting` and `saveProject`.
use justprojects.Base.{String, Bool, none, some, List, ◌++◌, map, codes, ◌==◌, ℕ}
use justprojects.Answers.{Ended, answered, failed, message_of}
use justprojects.Platform.{
  PlatformSettings, PlatformProjectSummary, text, setting_job, project_job, Platform, ask,
}
use justprojects.Platform.Users.{action_failed}
use justprojects.Base.{if◌then◌else◌}

pub data SettingField : Type 0 where
  login_enabled signup_enabled : SettingField

abbrev pub setting_key : SettingField → List ℕ
setting_key login_enabled = codes "login"
setting_key signup_enabled = codes "signup"

-- `saveSetting` up to its `await`; the value is only in the request's body
unfoldable pub start_save_setting : SettingField → Bool → Platform → Platform
start_save_setting field value p =
    ask setting_job (record p { saving = some (setting_key field); error_message = none })

unfoldable pub after_save_setting : Ended PlatformSettings → Platform → Platform
after_save_setting (answered updated) p = record p {
  settings = some updated;
  notice = some (text "admin.saved");
  saving = none;
}
after_save_setting (failed c) p = record p {
  error_message = some (message_of "admin.saveError" c);
  saving = none;
}

-- `project:${project.id}`
abbrev pub project_key : String → List ℕ
project_key id = codes "project:" ++ codes id

-- `saveProject` up to its `await`
unfoldable pub start_save_project : PlatformProjectSummary → String → Platform → Platform
start_save_project project status p =
    ask (project_job project status)
      (record p { saving = some (project_key project.id); error_message = none })

-- `{ ...item, ...updated, status: value }`, where the answer's identifier is `updated_id`
abbrev pub replace_project :
    String → String → String → List PlatformProjectSummary → List PlatformProjectSummary
replace_project id updated_id status =
    map (λ item. if item.id == id then record item { id = updated_id; status = status } else item)

unfoldable pub after_save_project :
    PlatformProjectSummary → String → Ended String → Platform → Platform
after_save_project project status (answered updated_id) p = record p {
  projects = replace_project project.id updated_id status p.projects;
  notice = some (text "admin.actionSaved");
  saving = none;
}
after_save_project project status (failed c) p = action_failed c p
