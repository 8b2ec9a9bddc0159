-- ===== src/PublicStatus/Events.antt =====
-- The page as a machine: what the customer does, changes of its properties, and the answers to the
-- requests in flight, in any order. A run is kept with the data that were answered in it.
use justprojects.Base.{String, false, Option, List, [], ◌∷◌, ◌++◌, ◌≡◌, ◌==◌, if◌then◌else◌}
use justprojects.Types.{Session}
use justprojects.Answers.{api_error, error, thrown_value, Ended, answered, failed}
use justprojects.PublicStatus.{
  PublicProjectData, StatusJob, page_job, login_job, granted_job, PublicStatus, load_page,
  after_page, mount_form, shows_form, start_login, after_login, after_granted,
}

abbrev pub StatusReply : StatusJob → Type 0
StatusReply (page_job slug token) = PublicProjectData
StatusReply (login_job number slug email password) = Session
StatusReply (granted_job number slug user) = PublicProjectData

-- the code behind the `await`
unfoldable pub settle : (j : StatusJob) → Ended (StatusReply j) → PublicStatus → PublicStatus
settle (page_job slug token) = after_page
settle (login_job number slug email password) = after_login number slug
settle (granted_job number slug user) = after_granted number user

abbrev pub with_data :
    (j : StatusJob) → Ended (StatusReply j) → List PublicProjectData → List PublicProjectData
with_data (page_job slug token) (answered fresh) seen = fresh ∷ seen
with_data (granted_job number slug user) (answered fresh) seen = fresh ∷ seen
with_data _ _ seen = seen

pub data StatusAction : Type 0 where
  submit change_language : StatusAction
  set_email set_password : String → StatusAction
  move_to : (slug : String) (token : Option String) → StatusAction

-- The button of the form is disabled while it loads.
unfoldable pub do_action : StatusAction → PublicStatus → PublicStatus
do_action submit p = if shows_form p then (if p.form.loading then p else start_login p) else p
do_action change_language p = load_page p
do_action (set_email text) p = record p { form = record (p.form) { email = text } }
do_action (set_password text) p = record p { form = record (p.form) { password = text } }
do_action (move_to slug token) p = load_page (record p { slug = slug; token = token })

-- A failure says something.
abbrev pub HasMessage {ℓ} : {A : Type ℓ} → Ended A → Type 0
HasMessage (answered a) = Unit
HasMessage (failed (api_error message status)) = (message == "") ≡ false
HasMessage (failed (error message)) = (message == "") ≡ false
HasMessage (failed thrown_value) = Unit

-- What can follow a state, where every failure says something.
pub data StatusRun (first : PublicStatus) : List PublicProjectData → PublicStatus → Type 0 where
  here : StatusRun first [] first
  act :
      {seen : List PublicProjectData} (a : StatusAction) (p : PublicStatus)
      → StatusRun first seen p
      → StatusRun first seen (do_action a p)
  reply :
      {seen : List PublicProjectData} (before after : List StatusJob) (j : StatusJob)
      (o : Ended (StatusReply j)) (p : PublicStatus)
      → StatusRun first seen p
      → p.pending ≡ before ++ j ∷ after
      → HasMessage o
      → StatusRun first
          (with_data j o seen)
          (mount_form p (settle j o (record p { pending = before ++ after })))
