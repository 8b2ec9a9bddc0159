-- ===== src/ConnectionDialog/Tests.antt =====
-- The connection dialog at concrete inputs.
use justprojects.Base.{◌≡◌, refl, true, false, none, some, [], ◌∷◌}
use justprojects.Types.{GitConnection, null}
use justprojects.Answers.{answered, failed, thrown_value}
use justprojects.ConnectionDialog.{
  ConnectionDialog, closed_dialog, dialog_action, after_submit, set_open, change_open, reset,
  submit, close, send, set_access_token, DialogReach, start, then_step, opens, acts, ends,
}
use justprojects.ConnectionDialog.Instances.{IsBlank}
use justprojects.ConnectionDialog.Secrets.{closed-IsBlank}

-- opens what the dialog computes with
dialog : Unit {0}
unfolding dialog_action submit set_open change_open reset after_submit
dialog = tt

abbrev open_dialog : ConnectionDialog
open_dialog = set_open true closed_dialog

abbrev typed_dialog : ConnectionDialog
typed_dialog = dialog_action (set_access_token "ghp_1") open_dialog

abbrev sent_dialog : ConnectionDialog
sent_dialog = dialog_action send typed_dialog

abbrev left_dialog : ConnectionDialog
left_dialog = dialog_action close sent_dialog

-- closed while its request is in flight, which then fails
abbrev late : ConnectionDialog
late = after_submit 1 (failed thrown_value) (record left_dialog { pending = [] })

late_reached : DialogReach late
unfolding dialog
late_reached =
    then_step
      (then_step
        (then_step
          (then_step (then_step start (opens closed_dialog))
            (acts (set_access_token "ghp_1") open_dialog refl))
          (acts send typed_dialog refl))
        (acts close sent_dialog refl))
      (ends [] [] 1 (failed thrown_value) left_dialog refl)

abbrev connection : GitConnection
connection = record {
  id = "c1";
  provider = "github";
  name = none;
  api_base_url = none;
  auth_method = "token";
  external_account_id = none;
  external_account_login = none;
  installation_id = null;
  scopes = [];
  active = true;
}

-- the dialog opened again and filled before the request of its first opening succeeds
abbrev reopened : ConnectionDialog
reopened =
    after_submit 1 (answered connection) (
      dialog_action (set_access_token "ghp_2")
        (set_open true (record left_dialog { pending = [] })))

-- A late failure does not reach the next instance, but a late success closes it.
late_tests :
    (sent_dialog.pending ≡ 1 ∷ [])
    × (sent_dialog.saving ≡ true)
    × (late.error_message ≡ none)
    × (late.instance_number ≡ 2)
    × (reopened.is_open ≡ false)
    × (reopened.access_token ≡ "")
    × (reopened.created ≡ connection ∷ [])
unfolding dialog
late_tests = (refl, refl, refl, refl, refl, refl, refl)

failed_while_open :
    (after_submit 1 (failed thrown_value) sent_dialog).error_message
    ≡ some "integrations.connectionError"
unfolding dialog
failed_while_open = refl

closed-IsBlank_example : IsBlank late
unfolding dialog
closed-IsBlank_example = closed-IsBlank late late_reached refl
