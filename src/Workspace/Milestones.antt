-- ===== src/Workspace/Milestones.antt =====
-- The milestone handlers of services/frontend/components/project-workspace.tsx.
use justprojects.Base.{
  ℕ, String, Option, none, some, get_or, List, [], ◌∷◌, ◌++◌, ◌==◌, Bool, find, truthy,
  if◌then◌else◌,
}
use justprojects.Toast.{success}
use justprojects.Types.{Milestone, text_or_null}
use justprojects.Workspace.{
  text, Outcome, fulfilled, rejected, MilestoneInput, MilestoneBody, post_milestone,
  patch_milestone, toast, thrown, create_milestone, update_milestone, World, emit, await,
  set_milestones, set_error, replace_milestone,
}
use justprojects.Workspace.Refresh.{start_refresh_milestones}

-- `s || undefined`
abbrev pub text_or_none : String → Option String
text_or_none s = if truthy s then some s else none

unfoldable pub open_milestone_editor : Milestone → World → World
open_milestone_editor milestone w = record w { editing_milestone = some milestone }

-- `handleCreateMilestone` up to its `await`
unfoldable pub start_create_milestone : MilestoneInput → World → World
start_create_milestone input w =
    let id = w.workspace_data.project.id in
    let body : MilestoneBody = record {
      name = input.name;
      description = input.description;
      start_date = text_or_none input.start_date;
      due_date = text_or_none input.due_date;
      status = input.status;
      visibility = input.visibility;
    } in
    await (post_milestone id body) (create_milestone id) w

unfoldable pub after_create_milestone : String → Outcome Milestone → World → World
after_create_milestone project_id (fulfilled created) w = start_refresh_milestones project_id (
    emit (toast success (text "workspace.milestoneCreated"))
      (set_milestones (w.workspace_data.milestones ++ created ∷ []) w))
after_create_milestone project_id (rejected f) w = emit (thrown f) w

unfoldable pub optimistic_milestone : MilestoneInput → Milestone → Milestone
optimistic_milestone input milestone = record milestone {
  name = input.name;
  description = some input.description;
  start_date = text_or_null input.start_date;
  due_date = text_or_null input.due_date;
  status = input.status;
  visibility = input.visibility;
}

abbrev pub has_milestone_id : String → Milestone → Bool
has_milestone_id id item = item.id == id

-- `editingMilestone ? (data.milestones.find(...) ?? editingMilestone) : undefined`
abbrev pub edited_milestone : World → Option Milestone
edited_milestone w = elim (w.editing_milestone) [
  | none ↦ none
  | some editing ↦
      some (get_or (find (has_milestone_id editing.id) w.workspace_data.milestones) editing)
]

abbrev pub send_milestone : MilestoneInput → ℕ → World → Option Milestone → World
send_milestone input version w none = w
send_milestone input version w (some milestone) =
    let d = w.workspace_data in
    await (patch_milestone d.project.id milestone.id input version)
      (update_milestone d.project.id d.milestones)
      (set_milestones
        (replace_milestone milestone.id (optimistic_milestone input milestone) d.milestones) w)

-- `handleUpdateMilestone` up to its `await`
unfoldable pub start_update_milestone : MilestoneInput → ℕ → World → World
start_update_milestone input version w = send_milestone input version w (edited_milestone w)

unfoldable pub after_update_milestone : String → List Milestone → Outcome Milestone → World → World
after_update_milestone project_id previous (fulfilled updated) w =
    start_refresh_milestones project_id (
      emit (toast success (text "workspace.milestoneUpdated"))
        (set_milestones (replace_milestone updated.id updated w.workspace_data.milestones) w))
after_update_milestone project_id previous (rejected f) w =
    emit (thrown f)
      (set_error (some (text "workspace.saveMilestoneError")) (set_milestones previous w))
