-- ===== src/Integrations/Conflicts.antt =====
-- `loadConflicts`, its timer, `resolveConflict`, and what `SyncActivity` refreshes.
use justprojects.Base.{
  String, Bool, true, false, not, ◌||◌, Option, none, some, get_or, List, [], filter, nat_eq, ◌==◌,
  if◌then◌else◌,
}
use justprojects.Toast.{success, error}
use justprojects.Workspace.{Failure, api_error, other_error, Outcome, fulfilled, rejected}
use justprojects.Integrations.{
  Note, text, server_text, toast, refresh_sync_runs, refresh_tasks, load_conflicts, resolve_job,
  runs_told, Integrations, await, emit,
}

-- `loadConflicts`, for the value of `conflictsUnavailable` that it was made with
unfoldable pub ask_conflicts : Bool → Integrations → Integrations
ask_conflicts unavailable v = if not v.configured || unavailable then v else await load_conflicts v

unfoldable pub start_load_conflicts : Integrations → Integrations
unfolding ask_conflicts
start_load_conflicts v = ask_conflicts v.conflicts_unavailable v

abbrev conflicts_failed : Integrations → Integrations
conflicts_failed v = record v { conflict_error = some (text "sync.conflictLoadError") }

unfoldable pub after_load_conflicts : Outcome (Option (List String)) → Integrations → Integrations
after_load_conflicts (fulfilled items) v = record v {
  conflicts = get_or items [];
  conflict_error = none;
}
after_load_conflicts (rejected (api_error message status)) v =
    if nat_eq status 403 then record v { conflicts_unavailable = true } else conflicts_failed v
after_load_conflicts (rejected other_error) v = conflicts_failed v

-- `resolveConflict` up to its `await`
unfoldable pub start_resolve : String → Integrations → Integrations
start_resolve id v =
    await (resolve_job id v.project.id v.conflicts_unavailable)
      (record v { resolving_id = some id })

abbrev pub resolve_message : Failure → Note
resolve_message (api_error message status) =
    if nat_eq status 409 then server_text message else text "sync.conflictResolveError"
resolve_message other_error = text "sync.conflictResolveError"

unfoldable pub after_resolve :
    String → String → Bool → Outcome (Unit {0}) → Integrations → Integrations
unfolding ask_conflicts
after_resolve id project_id unavailable (fulfilled done) v =
    let removed = record v { conflicts = filter (λ item. not (item == id)) v.conflicts } in
    let told = emit (refresh_tasks project_id true) (
      emit (refresh_sync_runs true)
        (emit (toast success (text "sync.conflictResolveQueued")) removed)) in
    record (ask_conflicts unavailable told) { resolving_id = none }
after_resolve id project_id unavailable (rejected f) v =
    record (emit (toast error (resolve_message f)) v) { resolving_id = none }

-- `onRefresh` of `SyncActivity` up to its first `await`, and behind it, which is never rejected
unfoldable pub start_refresh_activity : Integrations → Integrations
start_refresh_activity v =
    await (runs_told v.conflicts_unavailable) (emit (refresh_sync_runs false) v)

unfoldable pub after_runs_told : Bool → Outcome (Unit {0}) → Integrations → Integrations
unfolding ask_conflicts
after_runs_told unavailable (fulfilled done) v = ask_conflicts unavailable v
after_runs_told unavailable (rejected f) v = v
