-- ===== src/Dialogs/Tests.antt =====
-- The dialogs at concrete inputs.
use justprojects.Base.{◌≡◌, refl, true, false, none, some, [], ◌∷◌, codes}
use justprojects.Types.{Task, TenantMember, todo, value}
use justprojects.Workspace.{fulfilled}
use justprojects.Workspace.Samples.{build, open_status, done_status}
use justprojects.Base.{trim_text}
use justprojects.Dialogs.{date_text}
use justprojects.Dialogs.Decimal.{show_nat, read_nat}
use justprojects.Dialogs.Tasks.{
  TaskDialog, blank_form, populate, start_submit, after_submit, choose_status,
}
use justprojects.Dialogs.Milestones.{populate_milestone, start_submit_milestone}

abbrev teammate : TenantMember
teammate = record {
  membership = record { id = some "m2"; role = "member" };
  tenant_id = "t1";
  user_id = "u1";
  user = record {
    id = "u1";
    name = "Ada";
    email = "ada@example.org";
    email_verified = none;
    platform_admin = none;
    suspended = none;
  };
}

abbrev planned : Task
planned = record build {
  status_name = some "Open";
  status_category = some todo;
  assignee_name = some "Ada";
  milestone_id = value "m1";
  assignee_id = value "u1";
  estimate_minutes = value 105;
  due_date = value "2024-05-01";
}

abbrev dialog : TaskDialog
dialog = record {
  statuses = done_status ∷ open_status ∷ [];
  task = some planned;
  can_create = false;
  can_update = true;
  form = blank_form (done_status ∷ open_status ∷ []);
  submitting = false;
  calls = [];
  closings = 0;
}

-- opens what the dialogs compute with
forms : Unit {0}
unfolding populate start_submit after_submit choose_status populate_milestone start_submit_milestone
forms = tt

text_tests :
    (trim_text "  a b " ≡ "a b")
    × (trim_text "   " ≡ "")
    × (date_text (value "2024-05-01T10:00:00Z") ≡ "2024-05-01")
    × (show_nat 1050 ≡ codes "1050")
    × (read_nat (codes "0075") ≡ 75)
text_tests = (refl, refl, refl, refl, refl)

dialog_tests :
    ((blank_form dialog.statuses).status_id ≡ "s1")
    × ((start_submit (record dialog { form = record (dialog.form) { title = "  " } })).calls ≡ [])
    × ((after_submit (fulfilled tt) (start_submit (populate true dialog))).closings ≡ 1)
unfolding forms
dialog_tests = (refl, refl, refl)
