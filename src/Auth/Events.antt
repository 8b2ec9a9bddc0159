-- ===== src/Auth/Events.antt =====
-- The page as a machine: its fields and buttons, and the answers to the requests in flight, in any
-- order. A run is kept with the requests that were accepted in it, the last one first.
use justprojects.Base.{
  String, Bool, false, not, ◌&&◌, ◌||◌, Option, none, some, List, [], ◌∷◌, ◌++◌, ◌≡◌, if◌then◌else◌,
}
use justprojects.Types.{Session}
use justprojects.Answers.{Ended, answered, failed}
use justprojects.Auth.{
  AuthConfig, RegisterForm, AuthJob, config_job, session_job, oidc_job, login_job, register_job,
  Auth, unmounted, start_config, after_config, signup_disabled, start_submit, after_login,
  after_entry, start_oidc, after_oidc,
}

abbrev pub AuthReply : AuthJob → Type 0
AuthReply config_job = AuthConfig
AuthReply session_job = Session
AuthReply oidc_job = String
AuthReply (login_job email password) = Session
AuthReply (register_job form) = Session

-- the code behind the `await`
unfoldable pub settle : (j : AuthJob) → Ended (AuthReply j) → Auth → Auth
settle config_job = after_config
settle session_job = after_entry
settle oidc_job = after_oidc
settle (login_job email password) = after_login
settle (register_job form) = after_entry

pub data AuthAction : Type 0 where
  submit oidc show_password : AuthAction
  set_email set_password : String → AuthAction
  set_form : RegisterForm → AuthAction

-- the submit button is disabled
abbrev pub submit_disabled : Auth → Bool
submit_disabled p = p.loading || p.oidc_loading || (not p.is_login && signup_disabled p.auth_config)

abbrev is_true : Option Bool → Bool
is_true none = false
is_true (some b) = b

-- the button of the identity provider is there and enabled
abbrev pub oidc_pressable : Auth → Bool
oidc_pressable p =
    is_true p.oidc_available
    && (p.is_login || not (signup_disabled p.auth_config))
    && not (p.loading || p.oidc_loading)

unfoldable pub do_action : AuthAction → Auth → Auth
do_action submit p = if submit_disabled p then p else start_submit p
do_action oidc p = if oidc_pressable p then start_oidc p else p
do_action show_password p = record p { show_password = not p.show_password }
do_action (set_email text) p = record p { email = text }
do_action (set_password text) p = record p { password = text }
do_action (set_form form) p = record p { register_form = form }

abbrev pub with_accepted : (j : AuthJob) → Ended (AuthReply j) → List AuthJob → List AuthJob
with_accepted j (answered a) accepted = j ∷ accepted
with_accepted j (failed c) accepted = accepted

-- What can happen after the mounting, which asks for the configuration.
pub data AuthReach (is_login configured : Bool) : List AuthJob → Auth → Type 0 where
  opened : AuthReach is_login configured [] (start_config (unmounted is_login configured))
  act :
      {accepted : List AuthJob} (a : AuthAction) (p : Auth)
      → AuthReach is_login configured accepted p
      → AuthReach is_login configured accepted (do_action a p)
  reply :
      {accepted : List AuthJob} (before after : List AuthJob) (j : AuthJob)
      (o : Ended (AuthReply j)) (p : Auth)
      → AuthReach is_login configured accepted p
      → p.pending ≡ before ++ j ∷ after
      → AuthReach is_login configured
          (with_accepted j o accepted)
          (settle j o (record p { pending = before ++ after }))
