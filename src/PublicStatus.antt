-- ===== src/PublicStatus.antt =====
-- `PublicProjectPage` and its `CustomerAccessForm` of
-- services/frontend/components/public-project-page.tsx, each handler cut at its `await`s. A message is
-- its translation key. The dialog for a request is left out.
pub mod Events
pub mod Shown
pub mod Stuck
mod Tests
use justprojects.Base.{
  ℕ, zero, suc, String, Bool, true, false, not, ◌&&◌, Option, none, some, List, [], ◌∷◌, ◌++◌,
  nat_eq, ◌==◌, if◌then◌else◌,
}
use justprojects.Types.{Slot, StatusCategory, User, Session, ProjectUpdate}
use justprojects.Answers.{
  Cause, api_error, error, thrown_value, Ended, answered, failed, message_of,
}

pub record PublicPage : Type 0 where
  pub title : Option String
  pub access_mode : String

pub record PublicProject : Type 0 where
  pub name : String
  pub key : String
  pub description : Option String
  pub target_date : Slot String

pub record PublicTask : Type 0 where
  pub id : String
  pub parent_id : Slot String
  pub milestone_id : Slot String
  pub title : String
  pub description : Option String
  pub priority : String
  pub start_date : Slot String
  pub due_date : Slot String
  pub status_name : Option String
  pub status_category : Option StatusCategory
  pub estimate_minutes : Slot ℕ

pub record PublicMilestone : Type 0 where
  pub id : String
  pub name : String
  pub description : Option String
  pub start_date : Slot String
  pub due_date : Slot String
  pub status : String

pub record PublicProjectData : Type 0 where
  pub page : PublicPage
  pub project : PublicProject
  pub tasks : List PublicTask
  pub milestones : List PublicMilestone
  pub updates : List ProjectUpdate

-- The state of a form that is mounted; `number` tells it from those mounted before.
pub record AccessForm : Type 0 where
  pub number : ℕ
  pub email : String
  pub password : String
  pub error_message : Option String
  pub loading : Bool

-- A handler that waits; those of the form know which form they belong to.
pub data StatusJob : Type 0 where
  page_job : (slug : String) (token : Option String) → StatusJob
  login_job : (number : ℕ) (slug email password : String) → StatusJob
  granted_job : (number : ℕ) (slug : String) → User → StatusJob

-- The properties, the state, the form, and the requests in flight.
pub record PublicStatus : Type 0 where
  pub configured : Bool
  pub slug : String
  pub token : Option String
  pub payload : PublicProjectData
  pub loading : Bool
  pub error_message : Option String
  pub auth_required : Bool
  pub authenticated : Bool
  pub customer : Option User
  pub form : AccessForm
  pub pending : List StatusJob

abbrev pub ask : StatusJob → PublicStatus → PublicStatus
ask j p = record p { pending = p.pending ++ j ∷ [] }

abbrev pub fresh_form : ℕ → AccessForm
fresh_form number = record {
  number = number;
  email = "";
  password = "";
  error_message = none;
  loading = false;
}

abbrev pub unmounted : Bool → String → Option String → PublicStatus
unmounted configured slug token = record {
  configured = configured;
  slug = slug;
  token = token;
  payload = record {
    page = record { title = none; access_mode = "link" };
    project = record { name = ""; key = ""; description = none; target_date = Slot.undefined };
    tasks = [];
    milestones = [];
    updates = [];
  };
  loading = configured;
  error_message = if configured then none else some "auth.apiRequired";
  auth_required = false;
  authenticated = false;
  customer = none;
  form = fresh_form 0;
  pending = [];
}

-- the effect, run at the mounting and when the slug, the token or the language changes
unfoldable pub load_page : PublicStatus → PublicStatus
load_page p = if p.configured then ask (page_job p.slug p.token) p else p

-- `setError` of the page
abbrev page_failed : Cause → PublicStatus → PublicStatus
page_failed c p = record p {
  error_message = some (message_of "public.notAvailable" c);
  loading = false;
}

unfoldable pub after_page : Ended PublicProjectData → PublicStatus → PublicStatus
after_page (answered fresh) p = record p {
  payload = fresh;
  authenticated = fresh.page.access_mode == "login";
  loading = false;
}
after_page (failed (api_error message status)) p =
    if nat_eq status 401
    then record p { auth_required = true; loading = false }
    else page_failed (api_error message status) p
after_page (failed (error message)) p = page_failed (error message) p
after_page (failed thrown_value) p = page_failed thrown_value p

-- whether the form is rendered, and whether the project is
abbrev pub shows_form : PublicStatus → Bool
shows_form p = not p.loading && p.auth_required

abbrev pub no_error : Option String → Bool
no_error none = true
no_error (some message) = message == ""

abbrev pub shows_project : PublicStatus → Bool
shows_project p = not p.loading && (not p.auth_required && no_error p.error_message)

-- A form that was not there before is mounted anew.
unfoldable pub mount_form : PublicStatus → PublicStatus → PublicStatus
mount_form before after =
    if shows_form after && not (shows_form before)
    then record after { form = fresh_form (suc after.form.number) }
    else after

-- a change of the state of the form, if it is still the same one
abbrev pub in_form : ℕ → (AccessForm → AccessForm) → PublicStatus → PublicStatus
in_form number change p = record p {
  form = if nat_eq p.form.number number then change p.form else p.form;
}

-- `submit` of the form up to its first `await`
unfoldable pub start_login : PublicStatus → PublicStatus
start_login p =
    ask (login_job p.form.number p.slug p.form.email p.form.password)
      (record p { form = record (p.form) { error_message = none; loading = true } })

abbrev login_failed : ℕ → Cause → PublicStatus → PublicStatus
login_failed number c =
    in_form number
      (λ f. record f { error_message = some (message_of "public.notAvailable" c); loading = false })

unfoldable pub after_login : ℕ → String → Ended Session → PublicStatus → PublicStatus
after_login number slug (answered session) p = ask (granted_job number slug session.user) p
after_login number slug (failed c) p = login_failed number c p

-- behind the second `await`: `onAuthenticated` and `finally`
unfoldable pub after_granted : ℕ → User → Ended PublicProjectData → PublicStatus → PublicStatus
after_granted number user (answered fresh) p =
    in_form number (λ f. record f { loading = false })
      (record p {
        payload = fresh;
        auth_required = false;
        authenticated = true;
        customer = some user;
      })
after_granted number user (failed c) p = login_failed number c p
