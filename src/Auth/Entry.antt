-- ===== src/Auth/Entry.antt =====
-- Who gets in.
use justprojects.Base.{
  ◌≡◌, refl, ap, ◌∙◌, Bool, true, false, not, ◌&&◌, ◌||◌, none, List, [], ◌∷◌, ◌++◌, any,
  any-insert, any-snoc, arith, if◌then◌else◌,
}
use justprojects.Answers.{Ended, answered, failed}
use justprojects.Auth.{
  AuthJob, config_job, session_job, oidc_job, login_job, register_job, AuthRoute, app, assign, Auth,
  ask, unmounted, start_config, after_config, signup_disabled, start_submit, submit_failed,
  after_login, after_entry, start_oidc, after_oidc,
}
use justprojects.Auth.Events.{
  AuthReply, settle, AuthAction, submit, oidc, show_password, set_email, set_password, set_form,
  submit_disabled, oidc_pressable, do_action, with_accepted, AuthReach, opened, act, reply,
}

abbrev pub is_app : AuthRoute → Bool
is_app app = true
is_app (assign url) = false

abbrev pub is_session : AuthJob → Bool
is_session session_job = true
is_session _ = false

abbrev pub is_login : AuthJob → Bool
is_login (login_job email password) = true
is_login _ = false

abbrev pub is_register : AuthJob → Bool
is_register (register_job form) = true
is_register _ = false

-- A registration was accepted, or a session was, and credentials before it; the last one stands first.
abbrev pub lets_in : List AuthJob → Bool
lets_in [] = false
lets_in (j ∷ earlier) = is_register j || ((is_session j && any is_login earlier) || lets_in earlier)

-- The session is asked for behind an accepted login, and the workspace opened behind an entry.
record IsSound (accepted : List AuthJob) (p : Auth) : Type 0 where
  asked : any is_session p.pending ≡ true → any is_login accepted ≡ true
  entered : any is_app p.routes ≡ true → lets_in accepted ≡ true

if-IsSound :
    (accepted : List AuthJob) (test : Bool) (p q : Auth)
    → IsSound accepted p
    → IsSound accepted q
    → IsSound accepted (if test then p else q)
if-IsSound accepted true p q h g = h
if-IsSound accepted false p q h g = g

ask-IsSound :
    (accepted : List AuthJob) (j : AuthJob) (p : Auth)
    → is_session j ≡ false
    → IsSound accepted p
    → IsSound accepted (ask j p)
ask-IsSound accepted j p other h = record {
  asked = λ e. ground (arith, h.asked, any-snoc is_session p.pending j, other);
  entered = h.entered;
}

start_submit-IsSound :
    (accepted : List AuthJob) (p : Auth) → IsSound accepted p → IsSound accepted (start_submit p)
unfolding start_submit
start_submit-IsSound accepted p h =
    let tried : IsSound accepted (record p { error_message = none; loading = true }) = record {
      asked = h.asked;
      entered = h.entered;
    } in
    if-IsSound accepted (not p.configured) _ _ (record { asked = h.asked; entered = h.entered })
      (if-IsSound accepted p.is_login _ _
        (ask-IsSound accepted (login_job p.email p.password) _ refl tried)
        (if-IsSound accepted (signup_disabled p.auth_config) _ _
          (record { asked = h.asked; entered = h.entered })
          (ask-IsSound accepted (register_job p.register_form) _ refl tried)))

do_action-IsSound :
    (accepted : List AuthJob) (a : AuthAction) (p : Auth)
    → IsSound accepted p
    → IsSound accepted (do_action a p)
unfolding do_action start_oidc
do_action-IsSound accepted submit p h =
    if-IsSound accepted (submit_disabled p) p _ h (start_submit-IsSound accepted p h)
do_action-IsSound accepted oidc p h =
    if-IsSound accepted (oidc_pressable p) _ p
      (ask-IsSound accepted oidc_job _ refl (record { asked = h.asked; entered = h.entered })) h
do_action-IsSound accepted show_password p h = record { asked = h.asked; entered = h.entered }
do_action-IsSound accepted (set_email text) p h = record { asked = h.asked; entered = h.entered }
do_action-IsSound accepted (set_password text) p h = record { asked = h.asked; entered = h.entered }
do_action-IsSound accepted (set_form form) p h = record { asked = h.asked; entered = h.entered }

module _ (accepted : List AuthJob) (before after : List AuthJob) (p : Auth) where
  abbrev taken : Auth
  taken = record p { pending = before ++ after }

  -- The request is taken out.
  refused-IsSound :
      (j : AuthJob) → p.pending ≡ before ++ j ∷ after → IsSound accepted p → IsSound accepted taken
  refused-IsSound j left h = record {
    asked = λ e.
        h.asked
          (ground (arith, ap (any is_session) left ∙ any-insert is_session before after j, e));
    entered = h.entered;
  }

  accepted-IsSound :
      (j : AuthJob)
      → p.pending ≡ before ++ j ∷ after
      → IsSound accepted p
      → IsSound (j ∷ accepted) taken
  accepted-IsSound j left h =
      let t = refused-IsSound j left h in
      record { asked = λ e. ground (arith, t.asked e); entered = λ e. ground (arith, t.entered e) }

  -- A session was accepted, so credentials were before it.
  session-lets_in :
      p.pending ≡ before ++ session_job ∷ after
      → IsSound accepted p
      → lets_in (session_job ∷ accepted) ≡ true
  session-lets_in left h = ground (
    arith,
    h.asked
        (ground (arith, ap (any is_session) left ∙ any-insert is_session before after session_job)),
  )

  settle-IsSound :
      (j : AuthJob) (o : Ended (AuthReply j))
      → p.pending ≡ before ++ j ∷ after
      → IsSound accepted p
      → IsSound (with_accepted j o accepted) (settle j o taken)
  unfolding settle after_config after_login after_entry after_oidc submit_failed
  settle-IsSound config_job (answered config) left h =
      let t = accepted-IsSound config_job left h in record { asked = t.asked; entered = t.entered }
  settle-IsSound session_job (answered s) left h = record {
    asked = (accepted-IsSound session_job left h).asked;
    entered = λ e. session-lets_in left h;
  }
  settle-IsSound oidc_job (answered url) left h =
      let t = accepted-IsSound oidc_job left h in
      record {
        asked = t.asked;
        entered = λ e. t.entered (ground (arith, e, any-snoc is_app p.routes (assign url)));
      }
  settle-IsSound (login_job email password) (answered s) left h = record {
    asked = λ e. refl;
    entered = (accepted-IsSound (login_job email password) left h).entered;
  }
  settle-IsSound (register_job form) (answered s) left h = record {
    asked = (accepted-IsSound (register_job form) left h).asked;
    entered = λ e. refl;
  }
  settle-IsSound config_job (failed c) left h =
      let t = refused-IsSound config_job left h in record { asked = t.asked; entered = t.entered }
  settle-IsSound session_job (failed c) left h =
      let t = refused-IsSound session_job left h in record { asked = t.asked; entered = t.entered }
  settle-IsSound oidc_job (failed c) left h =
      let t = refused-IsSound oidc_job left h in record { asked = t.asked; entered = t.entered }
  settle-IsSound (login_job email password) (failed c) left h =
      let t = refused-IsSound (login_job email password) left h in
      record { asked = t.asked; entered = t.entered }
  settle-IsSound (register_job form) (failed c) left h =
      let t = refused-IsSound (register_job form) left h in
      record { asked = t.asked; entered = t.entered }

opened-IsSound : (login configured : Bool) → IsSound [] (start_config (unmounted login configured))
unfolding start_config
opened-IsSound login true = record { asked = λ e. absurd cc; entered = λ e. absurd cc }
opened-IsSound login false = record { asked = λ e. absurd cc; entered = λ e. absurd cc }

AuthReach-IsSound :
    (login configured : Bool) (accepted : List AuthJob) (p : Auth)
    → AuthReach login configured accepted p
    → IsSound accepted p
AuthReach-IsSound login configured accepted p opened = opened-IsSound login configured
AuthReach-IsSound login configured accepted p (act a q r) =
    do_action-IsSound accepted a q (AuthReach-IsSound login configured accepted q r)
AuthReach-IsSound login configured accepted p
      (reply {accepted = earlier} before after j o q r left) =
    settle-IsSound earlier before after q j o left (AuthReach-IsSound login configured earlier q r)

-- Over every run of the page, in either mode and whatever the order of the answers: the
-- workspace is opened only if credentials and then the session were accepted before, or a
-- registration was.
pub entry-lets_in :
    (login configured : Bool) (accepted : List AuthJob) (p : Auth)
    → AuthReach login configured accepted p
    → any is_app p.routes ≡ true
    → lets_in accepted ≡ true
entry-lets_in login configured accepted p r =
    (AuthReach-IsSound login configured accepted p r).entered
