-- ===== src/Workspace/Projects.antt =====
-- The project handlers, the navigation and the logout of
-- services/frontend/components/project-workspace.tsx.
use justprojects.Base.{String, none, some, List, ◌∷◌, ◌==◌, find, lower, codes}
use justprojects.Toast.{success}
use justprojects.Types.{Slot, Project, GitConnection, WorkspaceView, overview}
use justprojects.Workspace.{
  text, named, Outcome, fulfilled, rejected, ProjectInput, ProjectBody, post_project, patch_project,
  post_logout, toast, thrown, login, project_page, push_route, replace_route, logging_out,
  change_connection, create_project, World, emit, await, set_data, set_project, set_error,
}
use justprojects.Workspace.Milestones.{text_or_none}

abbrev pub page_of : Project → WorkspaceView → World → World
page_of project view w = emit (push_route (project_page (lower (codes project.key)) view)) w

-- `onProjectChange`
unfoldable pub on_project_change : String → World → World
on_project_change project_id w =
    elim (find (λ item. item.id == project_id) w.workspace_data.projects) [
      | none ↦ w
      | some next ↦ page_of next overview w
    ]

-- `onViewChange`
unfoldable pub on_view_change : WorkspaceView → World → World
on_view_change view w = page_of w.workspace_data.project view w

-- `handleLogout`; `finally` leads to the login page, and a rejection is handed on.
unfoldable pub start_logout : World → World
start_logout w = await post_logout logging_out w

unfoldable pub after_logout : Outcome (Unit {0}) → World → World
after_logout (fulfilled answer) w = emit (replace_route login) w
after_logout (rejected f) w = emit (thrown f) (emit (replace_route login) w)

-- `handleProjectConnectionChange` up to its `await`
unfoldable pub start_change_connection : Slot String → World → World
start_change_connection connection_id w =
    let previous = w.workspace_data.project in
    await (patch_project previous.id connection_id previous.version) (change_connection previous)
      (set_project (record previous { connection_id = connection_id }) w)

unfoldable pub after_change_connection : Project → Outcome Project → World → World
after_change_connection previous (fulfilled updated) w =
    emit (toast success (text "integrations.connectionSaved")) (set_project updated w)
after_change_connection previous (rejected f) w =
    set_error (some (text "integrations.connectionError")) (set_project previous w)

-- `handleGitConnectionsChange`
unfoldable pub on_git_connections : List GitConnection → World → World
on_git_connections connections w =
    set_data (record (w.workspace_data) { git_connections = connections }) w

-- `handleCreateProject` up to its `await`
unfoldable pub start_create_project : ProjectInput → World → World
start_create_project input w =
    let body : ProjectBody = record {
      name = input.name;
      key = text_or_none input.key;
      description = input.description;
      start_date = text_or_none input.start_date;
      target_date = text_or_none input.target_date;
    } in
    await (post_project body) create_project w

unfoldable pub after_create_project : Outcome Project → World → World
after_create_project (fulfilled created) w = page_of created overview (
    emit (toast success (named created.name "workspace.projectCreated"))
      (set_data (record (w.workspace_data) { projects = created ∷ w.workspace_data.projects }) w))
after_create_project (rejected f) w = emit (thrown f) w
