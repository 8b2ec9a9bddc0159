-- ===== src/Auth.antt =====
-- `AuthPage` of services/frontend/components/auth-page.tsx: the login and the registration, each handler
-- cut at its `await`s. A message is its translation key.
pub mod Events
pub mod Entry
mod Tests
use justprojects.Base.{
  ℕ, String, Bool, true, false, not, ◌&&◌, ◌||◌, Option, none, some, List, [], ◌∷◌, ◌++◌, nat_eq,
  if◌then◌else◌,
}
use justprojects.Types.{Session}
use justprojects.Answers.{
  Cause, api_error, error, thrown_value, Ended, answered, failed, message_of,
}

pub record AuthConfig : Type 0 where
  pub login_enabled : Bool
  pub signup_enabled : Bool
  pub oidc_enabled : Bool

pub record RegisterForm : Type 0 where
  pub name : String
  pub email : String
  pub password : String
  pub tenant_name : String

-- A handler that waits, with the body of its request.
pub data AuthJob : Type 0 where
  config_job session_job oidc_job : AuthJob
  login_job : (email password : String) → AuthJob
  register_job : RegisterForm → AuthJob

-- `router.replace("/app")`, and `window.location.assign`
pub data AuthRoute : Type 0 where
  app : AuthRoute
  assign : String → AuthRoute

-- The mode, the state, the requests in flight, and the pages opened.
pub record Auth : Type 0 where
  pub is_login : Bool
  pub configured : Bool
  pub email : String
  pub password : String
  pub register_form : RegisterForm
  pub error_message : Option String
  pub loading : Bool
  pub oidc_loading : Bool
  pub show_password : Bool
  pub auth_config : Option AuthConfig
  pub oidc_available : Option Bool
  pub pending : List AuthJob
  pub routes : List AuthRoute

abbrev pub ask : AuthJob → Auth → Auth
ask j p = record p { pending = p.pending ++ j ∷ [] }

abbrev pub go_to : AuthRoute → Auth → Auth
go_to r p = record p { routes = p.routes ++ r ∷ [] }

abbrev pub unmounted : Bool → Bool → Auth
unmounted is_login configured = record {
  is_login = is_login;
  configured = configured;
  email = "";
  password = "";
  register_form = record { name = ""; email = ""; password = ""; tenant_name = "" };
  error_message = none;
  loading = false;
  oidc_loading = false;
  show_password = false;
  auth_config = none;
  oidc_available = if configured then none else some false;
  pending = [];
  routes = [];
}

-- the effect of the mounting
unfoldable pub start_config : Auth → Auth
start_config p = if p.configured then ask config_job p else p

unfoldable pub after_config : Ended AuthConfig → Auth → Auth
after_config (answered config) p = record p {
  auth_config = some config;
  oidc_available = some config.oidc_enabled;
}
after_config (failed c) p = record p { oidc_available = some false }

-- `authConfig?.signupEnabled === false`
abbrev pub signup_disabled : Option AuthConfig → Bool
signup_disabled none = false
signup_disabled (some config) = not config.signup_enabled

-- `submit` up to its first `await`
unfoldable pub start_submit : Auth → Auth
start_submit p =
    if not p.configured
    then record p { error_message = some "auth.apiRequired" }
    else if p.is_login
    then ask (login_job p.email p.password) (record p { error_message = none; loading = true })
    else if signup_disabled p.auth_config
    then record p { error_message = some "auth.signupDisabled"; loading = false }
    else ask (register_job p.register_form) (record p { error_message = none; loading = true })

-- what is shown of a rejected `submit`
abbrev pub submit_error : Bool → Cause → String
submit_error is_login (api_error message status) =
    if nat_eq status 403
    then (if is_login then "auth.loginDisabled" else "auth.signupDisabled")
    else if nat_eq status 401
    then "auth.sessionUnavailable"
    else message
submit_error is_login (error message) = message
submit_error is_login thrown_value = "workspace.loadError"

-- `catch` and `finally` of `submit`
unfoldable pub submit_failed : Cause → Auth → Auth
submit_failed c p = record p { error_message = some (submit_error p.is_login c); loading = false }

unfoldable pub after_login : Ended Session → Auth → Auth
after_login (answered session) p = ask session_job p
after_login (failed c) p = submit_failed c p

-- behind the last `await` of either mode
unfoldable pub after_entry : Ended Session → Auth → Auth
after_entry (answered session) p = record (go_to app p) { loading = false }
after_entry (failed c) p = submit_failed c p

-- `oidc` up to its `await`
unfoldable pub start_oidc : Auth → Auth
start_oidc p = ask oidc_job (record p { error_message = none; oidc_loading = true })

unfoldable pub after_oidc : Ended String → Auth → Auth
after_oidc (answered url) p = record (go_to (assign url) p) { oidc_loading = false }
after_oidc (failed c) p = record p {
  error_message = some (message_of "login.continueOIDC" c);
  oidc_loading = false;
}
