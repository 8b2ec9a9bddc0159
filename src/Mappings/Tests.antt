-- ===== src/Mappings/Tests.antt =====
-- The mappings at concrete inputs.
use justprojects.Base.{String, ◌≡◌, refl, Bool, true, false, none, some, List, [], ◌∷◌}
use justprojects.Types.{Task, RemoteAssignee, undefined}
use justprojects.Workspace.{fulfilled, rejected, api_error}
use justprojects.Workspace.Samples.{build, launch}
use justprojects.Mappings.{
  GitUserMapping, Mappings, unmapped_logins, after_load_mappings, start_save_mapping,
  after_save_mapping, after_remove_mapping,
}
use justprojects.Mappings.Proposals.{times, times-unmapped_logins}

abbrev assignee : String → Bool → RemoteAssignee
assignee login mapped = record { provider = "github"; login = login; mapped = mapped }

abbrev mapping : String → GitUserMapping
mapping login = record {
  id = login;
  tenant_id = "t1";
  provider = "github";
  remote_login = login;
  remote_id = undefined;
  user_id = "u1";
}

abbrev tasks : List Task
tasks =
    record build { remote_assignees = some (assignee "ann" false ∷ assignee "BOB" false ∷ []) }
    ∷ record launch { remote_assignees = some (assignee "ann" false ∷ assignee "cid" true ∷ []) }
    ∷ []

times-unmapped_logins_example :
    times "ann" (unmapped_logins (λ xs. xs) (mapping "bob" ∷ []) tasks) ≡ 1
times-unmapped_logins_example =
    times-unmapped_logins (λ xs. xs) (λ login xs. refl) (mapping "bob" ∷ []) tasks "ann"

abbrev panel : Mappings
panel = record {
  configured = true;
  mappings = mapping "bob" ∷ [];
  remote_login = " Ann ";
  user_id = "u1";
  loading = false;
  saving = false;
  removing_id = none;
  error_message = none;
  unavailable = false;
  pending = [];
  toasts = [];
}

mapping_tests :
    (unmapped_logins (λ xs. xs) panel.mappings tasks ≡ "ann" ∷ [])
    × (unmapped_logins
          (λ xs. xs)
          (after_save_mapping "Ann" (fulfilled (mapping "Ann")) panel).mappings
          tasks
        ≡ [])
    × ((after_load_mappings (rejected (api_error "no" 403)) panel).unavailable ≡ true)
    × ((after_remove_mapping (mapping "bob") (fulfilled tt) panel).mappings ≡ [])
    × ((start_save_mapping panel).saving ≡ true)
unfolding unmapped_logins start_save_mapping after_save_mapping after_load_mappings
    after_remove_mapping
mapping_tests = (refl, refl, refl, refl, refl)
