-- ===== src/PublicStatus/Shown.antt =====
-- What the page shows of the project.
use justprojects.Base.{
  String, ◌≡◌, refl, Bool, true, false, Option, List, ◌++◌, arith, if◌then◌else◌, nat_eq,
}
use mathlib.Core.List.{Memᴰ}
use mathlib.Core.List.Memᴰ.{head}
use justprojects.Answers.{api_error, error, thrown_value, Ended, answered, failed}
use justprojects.PublicStatus.{
  PublicProjectData, StatusJob, page_job, login_job, granted_job, PublicStatus, unmounted,
  load_page, after_page, mount_form, shows_form, shows_project, start_login, after_login,
  after_granted,
}
use justprojects.PublicStatus.Events.{
  StatusReply, HasMessage, settle, with_data, StatusAction, submit, change_language, set_email,
  set_password, move_to, do_action, StatusRun, here, act, reply,
}

-- A project that is shown is one that was answered.
abbrev IsSeen : List PublicProjectData → PublicStatus → Type 0
IsSeen seen p = shows_project p ≡ true → Memᴰ p.payload seen

if-IsSeen :
    (seen : List PublicProjectData) (test : Bool) (p q : PublicStatus)
    → IsSeen seen p
    → IsSeen seen q
    → IsSeen seen (if test then p else q)
if-IsSeen seen true p q h g = h
if-IsSeen seen false p q h g = g

load_page-IsSeen :
    (seen : List PublicProjectData) (p : PublicStatus) → IsSeen seen p → IsSeen seen (load_page p)
unfolding load_page
load_page-IsSeen seen p h = if-IsSeen seen p.configured _ p h h

do_action-IsSeen :
    (seen : List PublicProjectData) (a : StatusAction) (p : PublicStatus)
    → IsSeen seen p
    → IsSeen seen (do_action a p)
unfolding do_action start_login
do_action-IsSeen seen submit p h =
    if-IsSeen seen (shows_form p) _ p (if-IsSeen seen p.form.loading p _ h h) h
do_action-IsSeen seen change_language p h = load_page-IsSeen seen p h
do_action-IsSeen seen (set_email text) p h = h
do_action-IsSeen seen (set_password text) p h = h
do_action-IsSeen seen (move_to slug token) p h =
    load_page-IsSeen seen (record p { slug = slug; token = token }) h

module _ (seen : List PublicProjectData) (before after : List StatusJob) (p : PublicStatus) where
  abbrev taken : PublicStatus
  taken = record p { pending = before ++ after }

  settle-IsSeen :
      (j : StatusJob) (o : Ended (StatusReply j))
      → HasMessage o
      → IsSeen seen p
      → IsSeen (with_data j o seen) (settle j o taken)
  unfolding settle after_page after_login after_granted
  settle-IsSeen (page_job slug token) (answered fresh) m h = λ e. head refl
  settle-IsSeen (page_job slug token) (failed (api_error message status)) m h =
      if-IsSeen seen (nat_eq status 401) _ _ (λ e. absurd cc) (λ e. absurd (ground (arith, e, m)))
  settle-IsSeen (page_job slug token) (failed (error message)) m h =
      λ e. absurd (ground (arith, e, m))
  settle-IsSeen (page_job slug token) (failed thrown_value) m h = λ e. absurd (ground (arith, e))
  settle-IsSeen (login_job number slug email password) (answered session) m h = h
  settle-IsSeen (login_job number slug email password) (failed c) m h = h
  settle-IsSeen (granted_job number slug user) (answered fresh) m h = λ e. head refl
  settle-IsSeen (granted_job number slug user) (failed c) m h = h

mount_form-IsSeen :
    (seen : List PublicProjectData) (before after : PublicStatus)
    → IsSeen seen after
    → IsSeen seen (mount_form before after)
unfolding mount_form
mount_form-IsSeen seen before after h = if-IsSeen seen _ _ after h h

run-IsSeen :
    (first : PublicStatus) (seen : List PublicProjectData) (p : PublicStatus)
    → shows_project first ≡ false
    → StatusRun first seen p
    → IsSeen seen p
run-IsSeen first seen p blank here = λ e. absurd cc
run-IsSeen first seen p blank (act a q r) =
    do_action-IsSeen seen a q (run-IsSeen first seen q blank r)
run-IsSeen first seen p blank (reply {seen = earlier} before after j o q r left m) =
    mount_form-IsSeen (with_data j o earlier) q _
      (settle-IsSeen earlier before after q j o m (run-IsSeen first earlier q blank r))

opened_blank :
    (configured : Bool) (slug : String) (token : Option String)
    → shows_project (load_page (unmounted configured slug token)) ≡ false
unfolding load_page
opened_blank true slug token = refl
opened_blank false slug token = refl

-- Over every run of the page in which each failure has a message, whatever the customer does and
-- in whatever order the answers come: a project that is shown is one that the backend has
-- answered with.
pub shown_project-IsSeen :
    (configured : Bool) (slug : String) (token : Option String) (seen : List PublicProjectData)
    (p : PublicStatus)
    → StatusRun (load_page (unmounted configured slug token)) seen p
    → shows_project p ≡ true
    → Memᴰ p.payload seen
shown_project-IsSeen configured slug token seen p r =
    run-IsSeen (load_page (unmounted configured slug token)) seen p
      (opened_blank configured slug token) r
