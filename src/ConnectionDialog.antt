-- ===== src/ConnectionDialog.antt =====
-- The dialog of services/frontend/components/git-connection-dialog.tsx that adds a Git connection:
-- `reset`, `handleOpenChange`, `selectProvider`, `goBack`, `goForward` and `submit` of
-- `GitConnectionDialog`, the last cut at its `await`. Whether it is open is the state of
-- `IntegrationsView` in services/frontend/components/project-workspace.tsx, which `onOpenChange` sets
-- and which is the `key` of the dialog: each opening and each closing mounts a new instance.
pub mod Instances
pub mod Secrets
mod Tests
use justprojects.Base.{
  ℕ, String, ◌≡◌, Bool, true, false, Option, none, some, List, [], ◌∷◌, ◌++◌, codes, trim,
  if◌then◌else◌, ◌+◌, nat_eq,
}
use justprojects.Types.{GitConnection}
use justprojects.Answers.{Cause, Ended, answered, failed, message_of}

pub data GitProvider : Type 0 where
  github gitlab : GitProvider

pub data ConnectionStep : Type 0 where
  choose instruct credentials : ConnectionStep

-- The body of `createGitHubTokenConnection` and of `createGitLabConnection`: a field that is none is
-- not sent.
pub record ConnectionBody : Type 0 where
  pub provider : GitProvider
  pub name : Option (List ℕ)
  pub base_url : Option (List ℕ)
  pub access_token : List ℕ
  pub webhook_secret : Option (List ℕ)

-- The parent's state, the state of the mounted instance and its number, the bodies sent, the instances
-- whose request is in flight, and the connections handed to `onCreated`.
pub record ConnectionDialog : Type 0 where
  pub is_open : Bool
  pub instance_number : ℕ
  pub step : ConnectionStep
  pub provider : GitProvider
  pub name : String
  pub base_url : String
  pub access_token : String
  pub webhook_secret : String
  pub saving : Bool
  pub error_message : Option String
  pub bodies : List ConnectionBody
  pub pending : List ℕ
  pub created : List GitConnection

abbrev pub closed_dialog : ConnectionDialog
closed_dialog = record {
  is_open = false;
  instance_number = 0;
  step = choose;
  provider = github;
  name = "";
  base_url = "https://gitlab.com";
  access_token = "";
  webhook_secret = "";
  saving = false;
  error_message = none;
  bodies = [];
  pending = [];
  created = [];
}

unfoldable pub reset : ConnectionDialog → ConnectionDialog
reset d = record d {
  step = choose;
  provider = github;
  name = "";
  base_url = "https://gitlab.com";
  access_token = "";
  webhook_secret = "";
  saving = false;
  error_message = none;
}

-- another key: the next instance, with the first values of its state
abbrev pub remount : Bool → ConnectionDialog → ConnectionDialog
remount open_now d = record closed_dialog {
  is_open = open_now;
  instance_number = d.instance_number + 1;
  bodies = d.bodies;
  pending = d.pending;
  created = d.created;
}

-- `setConnectionDialogOpen`
unfoldable pub set_open : Bool → ConnectionDialog → ConnectionDialog
set_open true d = if d.is_open then d else remount true d
set_open false d = if d.is_open then remount false d else d

-- `handleOpenChange`
unfoldable pub change_open : Bool → ConnectionDialog → ConnectionDialog
change_open true d = set_open true d
change_open false d = set_open false (reset d)

abbrev pub same_provider : GitProvider → GitProvider → Bool
same_provider github github = true
same_provider gitlab gitlab = true
same_provider _ _ = false

unfoldable pub select_provider : GitProvider → ConnectionDialog → ConnectionDialog
select_provider next d =
    if same_provider next d.provider
    then d
    else record d { provider = next; access_token = ""; error_message = none }

abbrev pub back_from : ConnectionStep → ConnectionDialog → ConnectionDialog
back_from choose d = change_open false d
back_from instruct d = record d { step = choose }
back_from credentials d = record d { step = instruct }

unfoldable pub go_back : ConnectionDialog → ConnectionDialog
go_back d = back_from d.step (record d { error_message = none })

abbrev pub forward_from : ConnectionStep → ConnectionDialog → ConnectionDialog
forward_from choose d = record d { step = instruct }
forward_from instruct d = record d { step = credentials }
forward_from credentials d = d

unfoldable pub go_forward : ConnectionDialog → ConnectionDialog
go_forward d = forward_from d.step (record d { error_message = none })

-- `text.trim() || undefined`
abbrev pub filled : List ℕ → Option (List ℕ)
filled [] = none
filled (c ∷ s) = some (c ∷ s)

abbrev pub connection_body : ConnectionDialog → ConnectionBody
connection_body d = record {
  provider = d.provider;
  name = filled (trim (codes d.name));
  base_url = elim (d.provider) [ github ↦ none | gitlab ↦ filled (trim (codes d.base_url)) ];
  access_token = trim (codes d.access_token);
  webhook_secret = filled (trim (codes d.webhook_secret));
}

unfoldable pub submit : ConnectionDialog → ConnectionDialog
submit d = record d {
  saving = true;
  error_message = none;
  bodies = d.bodies ++ connection_body d ∷ [];
  pending = d.pending ++ d.instance_number ∷ [];
}

-- What the code of an instance sets reaches only that instance: setting the state of an unmounted
-- component does nothing.
abbrev pub within : ℕ → (ConnectionDialog → ConnectionDialog) → ConnectionDialog → ConnectionDialog
within i set d = if nat_eq i d.instance_number then set d else d

abbrev pub stop_saving : ConnectionDialog → ConnectionDialog
stop_saving d = record d { saving = false }

abbrev pub show_error : Cause → ConnectionDialog → ConnectionDialog
show_error c d = record d { error_message = some (message_of "integrations.connectionError" c) }

-- The request of the instance has ended. The callbacks of the parent work even if the instance is no
-- longer mounted.
unfoldable pub after_submit : ℕ → Ended GitConnection → ConnectionDialog → ConnectionDialog
after_submit i (answered connection) d =
    within i stop_saving
      (set_open false (within i reset (record d { created = d.created ++ connection ∷ [] })))
after_submit i (failed c) d = within i stop_saving (within i (show_error c) d)

-- what the user does in the open dialog
pub data DialogAction : Type 0 where
  close back forward send : DialogAction
  pick : GitProvider → DialogAction
  set_name set_base_url set_access_token set_webhook_secret : String → DialogAction

unfoldable pub dialog_action : DialogAction → ConnectionDialog → ConnectionDialog
dialog_action close d = change_open false d
dialog_action back d = go_back d
dialog_action forward d = go_forward d
dialog_action send d = submit d
dialog_action (pick provider) d = select_provider provider d
dialog_action (set_name text) d = record d { name = text }
dialog_action (set_base_url text) d = record d { base_url = text }
dialog_action (set_access_token text) d = record d { access_token = text }
dialog_action (set_webhook_secret text) d = record d { webhook_secret = text }

-- One step: the parent opens the dialog, the user does something in the open dialog, or a request in
-- flight ends, which may be long after its instance was unmounted.
pub data DialogStep : ConnectionDialog → ConnectionDialog → Type 0 where
  opens : (d : ConnectionDialog) → DialogStep d (set_open true d)
  acts :
      (a : DialogAction) (d : ConnectionDialog)
      → d.is_open ≡ true
      → DialogStep d (dialog_action a d)
  ends :
      (before after : List ℕ) (i : ℕ) (o : Ended GitConnection) (d : ConnectionDialog)
      → d.pending ≡ before ++ i ∷ after
      → DialogStep d (after_submit i o (record d { pending = before ++ after }))

pub data DialogReach : ConnectionDialog → Type 0 where
  start : DialogReach closed_dialog
  then_step : {d e : ConnectionDialog} → DialogReach d → DialogStep d e → DialogReach e
