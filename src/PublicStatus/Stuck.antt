-- ===== src/PublicStatus/Stuck.antt =====
-- An error of the page, and what follows it.
use justprojects.Base.{
  ◌≡◌, refl, Bool, true, false, not, ◌&&◌, List, ◌++◌, arith, if◌then◌else◌, nat_eq,
}
use justprojects.Answers.{api_error, error, thrown_value, Ended, answered, failed}
use justprojects.PublicStatus.{
  PublicProjectData, StatusJob, page_job, login_job, granted_job, PublicStatus, load_page,
  after_page, mount_form, shows_form, shows_project, no_error, start_login, after_login,
  after_granted,
}
use justprojects.PublicStatus.Events.{
  StatusReply, HasMessage, settle, StatusAction, submit, change_language, set_email, set_password,
  move_to, do_action, StatusRun, here, act, reply,
}

abbrev IsStuck : PublicStatus → Type 0
IsStuck p = no_error p.error_message ≡ false

if-IsStuck :
    (test : Bool) (p q : PublicStatus) → IsStuck p → IsStuck q → IsStuck (if test then p else q)
if-IsStuck true p q h g = h
if-IsStuck false p q h g = g

do_action-IsStuck : (a : StatusAction) (p : PublicStatus) → IsStuck p → IsStuck (do_action a p)
unfolding do_action start_login load_page
do_action-IsStuck submit p h = if-IsStuck (shows_form p) _ p (if-IsStuck p.form.loading p _ h h) h
do_action-IsStuck change_language p h = if-IsStuck p.configured _ p h h
do_action-IsStuck (set_email text) p h = h
do_action-IsStuck (set_password text) p h = h
do_action-IsStuck (move_to slug token) p h = if-IsStuck p.configured _ _ h h

settle-IsStuck :
    (j : StatusJob) (o : Ended (StatusReply j)) (p : PublicStatus)
    → HasMessage o
    → IsStuck p
    → IsStuck (settle j o p)
unfolding settle after_page after_login after_granted
settle-IsStuck (page_job slug token) (answered fresh) p m h = h
settle-IsStuck (page_job slug token) (failed (api_error message status)) p m h =
    if-IsStuck (nat_eq status 401) _ _ h m
settle-IsStuck (page_job slug token) (failed (error message)) p m h = m
settle-IsStuck (page_job slug token) (failed thrown_value) p m h = refl
settle-IsStuck (login_job number slug email password) (answered session) p m h = h
settle-IsStuck (login_job number slug email password) (failed c) p m h = h
settle-IsStuck (granted_job number slug user) (answered fresh) p m h = h
settle-IsStuck (granted_job number slug user) (failed c) p m h = h

run-IsStuck :
    (first : PublicStatus) (seen : List PublicProjectData) (p : PublicStatus)
    → IsStuck first
    → StatusRun first seen p
    → IsStuck p
unfolding mount_form
run-IsStuck first seen p h here = h
run-IsStuck first seen p h (act a q r) = do_action-IsStuck a q (run-IsStuck first seen q h r)
run-IsStuck first seen p h (reply {seen = earlier} before after j o q r left m) =
    let next = settle j o (record q { pending = before ++ after }) in
    let kept : IsStuck next =
      settle-IsStuck j o (record q { pending = before ++ after }) m
        (run-IsStuck first earlier q h r) in
    if-IsStuck (shows_form next && not (shows_form q)) _ next kept kept

-- Once the page has an error with a message, no run from there in which each failure has a
-- message shows a project, not even if the page is asked for again and answered.
pub error_stays :
    (first : PublicStatus) (seen : List PublicProjectData) (p : PublicStatus)
    → no_error first.error_message ≡ false
    → StatusRun first seen p
    → shows_project p ≡ false
error_stays first seen p h r = ground (arith, run-IsStuck first seen p h r)
