-- ===== src/Mappings.antt =====
-- `GitAssigneeMappings` of services/frontend/components/git-assignee-mappings.tsx: the handlers, each
-- cut at its `await`, and the logins that are proposed. A message is its translation key or the
-- server's; `localeCompare` is in the argument `sort`.
pub mod Proposals
mod Tests
use justprojects.Base.{
  ℕ, String, Bool, true, false, not, ◌&&◌, ◌||◌, Option, none, some, get_or, List, [], ◌∷◌, ◌++◌,
  map, filter, any, truthy, trim_text, codes, codes_eq, lower, nat_eq, ◌==◌, if◌then◌else◌,
}
use justprojects.Types.{Slot, Task, RemoteAssignee}
use justprojects.Workspace.{Failure, api_error, other_error, Outcome, fulfilled, rejected}

pub record GitUserMapping : Type 0 where
  pub id : String
  pub tenant_id : String
  pub provider : String
  pub remote_login : String
  pub remote_id : Slot ℕ
  pub user_id : String

pub data MappingJob : Type 0 where
  list_job parent_told : MappingJob
  save_job : (login user_id : String) → MappingJob
  remove_job : GitUserMapping → MappingJob

-- The state, the requests in flight, and the toasts with their kind: true is a success.
pub record Mappings : Type 0 where
  pub configured : Bool
  pub mappings : List GitUserMapping
  pub remote_login : String
  pub user_id : String
  pub loading : Bool
  pub saving : Bool
  pub removing_id : Option String
  pub error_message : Option String
  pub unavailable : Bool
  pub pending : List MappingJob
  pub toasts : List (Bool × String)

abbrev ask : MappingJob → Mappings → Mappings
ask j v = record v { pending = v.pending ++ j ∷ [] }

abbrev toast : Bool → String → Mappings → Mappings
toast success message v = record v { toasts = v.toasts ++ (success, message) ∷ [] }

-- `cause instanceof ApiError && cause.message ? cause.message : t("integrations.mappingError")`
abbrev pub mapping_error : Failure → String
mapping_error (api_error message status) =
    if truthy message then message else "integrations.mappingError"
mapping_error other_error = "integrations.mappingError"

unfoldable pub start_load_mappings : Mappings → Mappings
start_load_mappings v =
    if v.configured
    then ask list_job (record v { loading = true })
    else record v { loading = false }

abbrev load_error : Failure → Mappings → Mappings
load_error f v = record v { error_message = some (mapping_error f); loading = false }

unfoldable pub after_load_mappings : Outcome (Option (List GitUserMapping)) → Mappings → Mappings
after_load_mappings (fulfilled items) v = record v {
  mappings = get_or items [];
  unavailable = false;
  error_message = none;
  loading = false;
}
after_load_mappings (rejected (api_error message status)) v =
    if nat_eq status 403
    then record v { unavailable = true; loading = false }
    else load_error (api_error message status) v
after_load_mappings (rejected other_error) v = load_error other_error v

-- `a.toLowerCase() === b.toLowerCase()`
abbrev pub same_login : String → String → Bool
same_login a b = codes_eq (lower (codes a)) (lower (codes b))

-- `saveMapping` up to its `await`
unfoldable pub start_save_mapping : Mappings → Mappings
start_save_mapping v =
    let login = trim_text v.remote_login in
    if truthy login && truthy v.user_id
    then ask (save_job login v.user_id) (record v { saving = true; error_message = none })
    else v

unfoldable pub after_save_mapping : String → Outcome GitUserMapping → Mappings → Mappings
after_save_mapping login (fulfilled mapping) v =
    let saved = record v {
      mappings =
          filter (λ item. not (same_login item.remote_login login)) v.mappings ++ mapping ∷ [];
      remote_login = "";
      user_id = "";
      saving = false;
    } in
    ask parent_told (toast true "integrations.mappingSaved" saved)
after_save_mapping login (rejected f) v =
    toast false (mapping_error f)
      (record v { error_message = some (mapping_error f); saving = false })

-- `removeMapping` up to its `await`
unfoldable pub start_remove_mapping : GitUserMapping → Mappings → Mappings
start_remove_mapping mapping v =
    ask (remove_job mapping) (record v { removing_id = some mapping.id })

unfoldable pub after_remove_mapping : GitUserMapping → Outcome (Unit {0}) → Mappings → Mappings
after_remove_mapping mapping (fulfilled done) v = ask parent_told (
    toast true "integrations.mappingDeleted" (record v {
      mappings = filter (λ item. not (item.id == mapping.id)) v.mappings;
      removing_id = none;
    }))
after_remove_mapping mapping (rejected f) v =
    toast false (mapping_error f) (record v { removing_id = none })

-- `mapped.has(login.toLowerCase())`
abbrev pub is_mapped : List GitUserMapping → String → Bool
is_mapped mappings login =
    any (λ m. m.provider == "github" && same_login m.remote_login login) mappings

abbrev pub is_open : List GitUserMapping → RemoteAssignee → Bool
is_open mappings a = a.provider == "github" && (not a.mapped && not (is_mapped mappings a.login))

-- the logins of `flatMap`
abbrev pub open_logins : List GitUserMapping → List Task → List String
open_logins mappings [] = []
open_logins mappings (task ∷ tasks) =
    map (λ a. a.login) (filter (is_open mappings) (get_or task.remote_assignees []))
    ++ open_logins mappings tasks

-- `Array.from(new Set(xs))`
abbrev pub distinct : List String → List String
distinct [] = []
distinct (x ∷ xs) = x ∷ filter (λ y. not (y == x)) (distinct xs)

-- `unmappedLogins`
pub unmapped_logins : (List String → List String) → List GitUserMapping → List Task → List String
unmapped_logins sort mappings tasks = sort (distinct (open_logins mappings tasks))
