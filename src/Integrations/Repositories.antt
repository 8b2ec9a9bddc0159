-- ===== src/Integrations/Repositories.antt =====
-- `loadRepositories`, `attachAndImport` and `detachRepository`.
use justprojects.Base.{
  String, Bool, true, false, not, none, some, List, [], ◌∷◌, ◌++◌, any, filter, take, codes, nat_eq,
  ◌==◌, if◌then◌else◌,
}
use justprojects.Toast.{success}
use justprojects.Types.{GitRepository, ProjectRepository}
use justprojects.Workspace.{Failure, api_error, other_error, Outcome, fulfilled, rejected}
use justprojects.Integrations.{
  import_queued, repository_detached, toast, refresh_sync_runs, load_repositories, attach_job,
  import_job, detach_job, Integrations, await, emit, fail,
}

unfoldable pub start_load_repositories : Integrations → Integrations
start_load_repositories v =
    if v.configured then await load_repositories (record v { loading_repositories = true }) else v

-- behind `await Promise.all(...)`: the repositories of the connection that was selected when the
-- requests were sent, none where it was none, and those of the project
unfoldable pub after_load_repositories :
    Outcome (List GitRepository × List ProjectRepository) → Integrations → Integrations
after_load_repositories (fulfilled (available, attached)) v = record v {
  repositories = available;
  attached = attached;
  loading_repositories = false;
}
after_load_repositories (rejected f) v = record (fail "integrations.repositoryLoadError" v) {
  loading_repositories = false;
}

abbrev pub links_to : String → ProjectRepository → Bool
links_to id item = item.link.repository_id == id

-- `attachAndImport` up to its first `await`, which is the import if the repository is attached
unfoldable pub start_import : GitRepository → Integrations → Integrations
start_import repository v =
    let id = v.project.id in
    await
      (if any (links_to repository.id) v.attached
        then import_job id repository
        else attach_job id repository)
      (record v { importing_id = some repository.id; error = none })

-- `catch` and `finally`
abbrev pub import_message : Failure → String
import_message (api_error message status) =
    if nat_eq status 409
    then "integrations.importAlreadyRunning"
    else "integrations.repositoryLoadError"
import_message other_error = "integrations.repositoryLoadError"

abbrev pub import_failed : Failure → Integrations → Integrations
import_failed f v = record (fail (import_message f) v) { importing_id = none }

unfoldable pub after_attach :
    String → GitRepository → Outcome ProjectRepository → Integrations → Integrations
after_attach project_id repository (fulfilled linked) v =
    await (import_job project_id repository) (record v { attached = v.attached ++ linked ∷ [] })
after_attach project_id repository (rejected f) v = import_failed f v

-- behind `await importGitProject(...)`, which answers with the identifier of the run
unfoldable pub after_import : GitRepository → Outcome String → Integrations → Integrations
after_import repository (fulfilled run_id) v =
    record (emit (refresh_sync_runs true)
      (emit (toast success (import_queued repository.full_name (take 8 (codes run_id)))) v)) {
        importing_id = none;
      }
after_import repository (rejected f) v = import_failed f v

unfoldable pub start_detach : GitRepository → Integrations → Integrations
start_detach repository v =
    await (detach_job repository) (record v { detaching_id = some repository.id; error = none })

unfoldable pub after_detach : GitRepository → Outcome (Unit {0}) → Integrations → Integrations
after_detach repository (fulfilled done) v =
    record (emit (toast success (repository_detached repository.full_name))
      (record v { attached = filter (λ item. not (links_to repository.id item)) v.attached })) {
        detaching_id = none;
      }
after_detach repository (rejected f) v = record (fail "integrations.repositoryDetachError" v) {
  detaching_id = none;
}
