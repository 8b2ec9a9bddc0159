-- ===== src/Dialogs/Milestones.antt =====
-- `MilestoneDialog`.
use justprojects.Base.{
  ℕ, suc, Bool, true, false, Option, none, some, get_or, List, ◌∷◌, ◌++◌, truthy, ◌==◌, [],
  if◌then◌else◌,
}
use justprojects.Types.{Milestone}
use justprojects.Workspace.{MilestoneInput, Outcome, fulfilled, rejected}
use justprojects.Base.{trim_text}
use justprojects.Dialogs.{date_text}

-- what the dialog calls with its input: `onCreate` and `onUpdate`
pub data MilestoneCall : Type 0 where
  create : MilestoneInput → MilestoneCall
  update : MilestoneInput → ℕ → MilestoneCall

-- The fields are those of the input. `closings` counts the calls of `onOpenChange(false)`.
pub record MilestoneDialog : Type 0 where
  pub milestone : Option Milestone
  pub can_create : Bool
  pub can_update : Bool
  pub form : MilestoneInput
  pub submitting : Bool
  pub calls : List MilestoneCall
  pub closings : ℕ

-- the first values, and those that `reset` sets
abbrev pub blank_milestone : MilestoneInput
blank_milestone = record {
  name = "";
  description = "";
  start_date = "";
  due_date = "";
  status = "open";
  visibility = "internal";
}

-- the form of the editor when it is opened on a milestone
abbrev pub milestone_form : Milestone → MilestoneInput
milestone_form m = record {
  name = m.name;
  description = get_or m.description "";
  start_date = date_text m.start_date;
  due_date = date_text m.due_date;
  status = if m.status == "closed" then "closed" else "open";
  visibility = m.visibility;
}

abbrev fill_milestone : Bool → Option Milestone → MilestoneDialog → MilestoneDialog
fill_milestone is_open none d = d
fill_milestone is_open (some m) d = if is_open then record d { form = milestone_form m } else d

-- the effect that fills the editor
unfoldable pub populate_milestone : Bool → MilestoneDialog → MilestoneDialog
populate_milestone is_open d = fill_milestone is_open d.milestone d

abbrev pub milestone_input : MilestoneInput → MilestoneInput
milestone_input f = record f { name = trim_text f.name; description = trim_text f.description }

abbrev call : MilestoneCall → MilestoneDialog → MilestoneDialog
call c d = record d { submitting = true; calls = d.calls ++ c ∷ [] }

abbrev send_form : MilestoneInput → Option Milestone → MilestoneDialog → MilestoneDialog
send_form input none d = if d.can_create then call (create input) d else d
send_form input (some m) d = if d.can_update then call (update input m.version) d else d

-- `submit` up to its `await`
unfoldable pub start_submit_milestone : MilestoneDialog → MilestoneDialog
start_submit_milestone d =
    if truthy (trim_text d.form.name) then send_form (milestone_input d.form) d.milestone d else d

unfoldable pub after_submit_milestone : Outcome (Unit {0}) → MilestoneDialog → MilestoneDialog
after_submit_milestone (fulfilled done) d = record d {
  form = blank_milestone;
  closings = suc d.closings;
  submitting = false;
}
after_submit_milestone (rejected f) d = record d { submitting = false }
