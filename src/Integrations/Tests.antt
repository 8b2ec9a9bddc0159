-- ===== src/Integrations/Tests.antt =====
-- The integrations view at concrete inputs.
use justprojects.Base.{String, ◌≡◌, refl, true, false, none, some, [], ◌∷◌, any, arith, eq_iff}
use justprojects.Types.{GitConnection, GitRepository, ProjectRepository, null}
use justprojects.Workspace.{fulfilled, rejected, api_error}
use justprojects.Workspace.Samples.{rocket}
use justprojects.Integrations.{Integrations, Job, disconnect_job, text}
use justprojects.Integrations.Repositories.{
  start_import, after_attach, after_import, start_load_repositories,
}
use justprojects.Integrations.Conflicts.{start_load_conflicts, ask_conflicts}
use justprojects.Integrations.Providers.{start_disconnect, has_connection_id}
use justprojects.Integrations.Events.{
  mounted, settle, unmounted, here, next, act, gesture, import_one, run_effects,
}
use justprojects.Integrations.Causes.{imports, HasCause}
use justprojects.Integrations.Signs.{signs-HasCause}
use justprojects.Integrations.Races.{late_disconnect_restores}

abbrev connection : String → GitConnection
connection id = record {
  id = id;
  provider = "github";
  name = none;
  api_base_url = none;
  auth_method = "token";
  external_account_id = none;
  external_account_login = none;
  installation_id = null;
  scopes = [];
  active = true;
}

abbrev engine : GitRepository
engine = record {
  id = "r1";
  connection_id = "c1";
  external_id = 7;
  owner = "acme";
  name = "engine";
  full_name = "acme/engine";
  is_private = false;
}

abbrev view : Integrations
view = mounted true rocket (connection "c1" ∷ connection "c2" ∷ [])

abbrev linked : ProjectRepository
linked = record {
  link = record { id = "l1"; project_id = "p1"; repository_id = "r1" };
  repository = engine;
}

-- An import that is already running leaves the repository attached.
running : Integrations
running =
    after_import engine (rejected (api_error "busy" 409))
      (after_attach "p1" engine (fulfilled linked) (start_import engine view))

running_attached : running.attached ≡ linked ∷ []
unfolding running after_attach after_import start_import mounted start_load_conflicts ask_conflicts
    start_load_repositories
running_attached = refl

running_message : running.error ≡ some (text "integrations.importAlreadyRunning")
unfolding running after_attach after_import start_import mounted start_load_conflicts ask_conflicts
    start_load_repositories
running_message = refl

abbrev importing : Integrations
importing = run_effects view (gesture (import_one engine) view)

signs-HasCause_example : HasCause imports importing
signs-HasCause_example =
    signs-HasCause imports true rocket (connection "c1" ∷ connection "c2" ∷ []) importing
      (next here (act (import_one engine) view))

abbrev plain : Integrations
plain = unmounted true rocket (connection "c1" ∷ connection "c2" ∷ [])

abbrev both_asked : Integrations
both_asked = start_disconnect (connection "c2") (start_disconnect (connection "c1") plain)

abbrev first_job : Job
first_job = disconnect_job (connection "c1") plain.available ""

abbrev second_job : Job
second_job = disconnect_job (connection "c2") plain.available ""

abbrev once : Integrations
once = settle first_job (fulfilled tt) (record both_asked { pending = second_job ∷ [] })

late_disconnect_restores_example :
    (both_asked.pending ≡ first_job ∷ second_job ∷ [])
    × (any (has_connection_id "c1") once.available ≡ false)
    × (any (has_connection_id "c1") (settle second_job (fulfilled tt) once).available ≡ true)
late_disconnect_restores_example =
    late_disconnect_restores (connection "c1") (connection "c2") plain refl refl
      (ground (arith, eq_iff "c1" "c2"))
