-- ===== src/Integrations/Causes.antt =====
-- The signs of the view and their causes, and what the user and the effects do to them.
use justprojects.Base.{
  String, ◌≡◌, refl, Bool, true, false, not, ◌||◌, ◌&&◌, Option, none, some, any, any-snoc, arith,
  ◌==◌, if◌then◌else◌,
}
use justprojects.Types.{GitConnection, GitRepository}
use justprojects.Integrations.{
  Job, load_repositories, load_conflicts, github_url, install_url, attach_job, import_job,
  detach_job, disconnect_job, resolve_job, runs_told, Integrations, await,
}
use justprojects.Integrations.Repositories.{start_load_repositories, start_import, start_detach}
use justprojects.Integrations.Providers.{
  start_connect, start_install, select_connection, connection_created, start_disconnect,
  follow_parent, is_unconnected,
}
use justprojects.Integrations.Conflicts.{
  ask_conflicts, start_load_conflicts, start_resolve, start_refresh_activity,
}
use justprojects.Integrations.Events.{
  Gesture, gesture, timer, retry_repositories, press_refresh, retry_conflicts, refresh_activity,
  mappings_changed, connect, install, pick_connection, created, disconnect, import_one, detach_one,
  resolve, parent_changed, run_effects,
}

-- the signs of the view
pub data Sign : Type 0 where
  loads connects installs imports detaches resolves : Sign

abbrev shows : Option String → Bool
shows none = false
shows (some id) = true

abbrev pub shown : Sign → Integrations → Bool
shown loads v = v.loading_repositories
shown connects v = v.connecting
shown installs v = v.installing
shown imports v = shows v.importing_id
shown detaches v = shows v.detaching_id
shown resolves v = shows v.resolving_id

-- the requests that a sign stands for; an import is two of them
abbrev pub causes : Sign → Job → Bool
causes loads load_repositories = true
causes connects github_url = true
causes installs install_url = true
causes imports (attach_job p r) = true
causes imports (import_job p r) = true
causes detaches (detach_job r) = true
causes resolves (resolve_job c p u) = true
causes _ _ = false

-- If the sign is shown, a request that it stands for is in flight.
abbrev pub HasCause : Sign → Integrations → Type 0
HasCause k v = shown k v ≡ true → any (causes k) v.pending ≡ true

-- A new request takes no cause away.
pub await-HasCause : (k : Sign) (j : Job) (v : Integrations) → HasCause k v → HasCause k (await j v)
await-HasCause k j v h e = ground (arith, h, any-snoc (causes k) v.pending j)

pub if-HasCause :
    (k : Sign) (test : Bool) (v w : Integrations)
    → HasCause k v
    → HasCause k w
    → HasCause k (if test then v else w)
if-HasCause k true v w h g = h
if-HasCause k false v w h g = g

pub load_repositories-HasCause :
    (k : Sign) (v : Integrations) → HasCause k v → HasCause k (start_load_repositories v)
unfolding start_load_repositories
load_repositories-HasCause k v h =
    if-HasCause k v.configured _ v
      (λ e. ground (arith, h, any-snoc (causes k) v.pending load_repositories)) h

pub ask_conflicts-HasCause :
    (k : Sign) (unavailable : Bool) (v : Integrations)
    → HasCause k v
    → HasCause k (ask_conflicts unavailable v)
unfolding ask_conflicts
ask_conflicts-HasCause k unavailable v h =
    if-HasCause k (not v.configured || unavailable) v _ h (await-HasCause k load_conflicts v h)

pub put_out_after :
    (test : Bool) (v : Integrations)
    → record (if test then v else await load_conflicts v) { resolving_id = none } ≡ (
        if test
        then record v { resolving_id = none }
        else await load_conflicts (record v { resolving_id = none }))
put_out_after true v = refl
put_out_after false v = refl

pub run_effects-HasCause :
    (k : Sign) (before after : Integrations)
    → HasCause k after
    → HasCause k (run_effects before after)
unfolding run_effects start_load_conflicts
run_effects-HasCause k before after h =
    let same = before.project.id == after.project.id in
    let loaded =
      if same && before.selected_id == after.selected_id
      then after
      else start_load_repositories after in
    let kept : HasCause k loaded =
      if-HasCause k _ after _ h (load_repositories-HasCause k after h) in
    if-HasCause k same loaded _ kept
      (ask_conflicts-HasCause k loaded.conflicts_unavailable loaded kept)

start_import-HasCause :
    (k : Sign) (r : GitRepository) (v : Integrations) → HasCause k v → HasCause k (start_import r v)
unfolding start_import
start_import-HasCause k r v h e = ground (
  arith,
  h,
  any-snoc (causes k) v.pending (import_job v.project.id r),
  any-snoc (causes k) v.pending (attach_job v.project.id r),
)

start_connect-HasCause : (k : Sign) (v : Integrations) → HasCause k v → HasCause k (start_connect v)
unfolding start_connect
start_connect-HasCause k v h =
    if-HasCause k v.configured _ _
      (λ e. ground (arith, h, any-snoc (causes k) v.pending github_url)) (λ e. ground (arith, h))

start_install-HasCause : (k : Sign) (v : Integrations) → HasCause k v → HasCause k (start_install v)
unfolding start_install
start_install-HasCause k v h =
    if-HasCause k v.configured _ _
      (λ e. ground (arith, h, any-snoc (causes k) v.pending install_url)) (λ e. ground (arith, h))

connection_created-HasCause :
    (k : Sign) (c : GitConnection) (v : Integrations)
    → HasCause k v
    → HasCause k (connection_created c v)
unfolding connection_created
connection_created-HasCause k c v h =
    if-HasCause k (is_unconnected v.project) _ _ (λ e. ground (arith, h)) (λ e. ground (arith, h))

start_disconnect-HasCause :
    (k : Sign) (c : GitConnection) (v : Integrations)
    → HasCause k v
    → HasCause k (start_disconnect c v)
unfolding start_disconnect
start_disconnect-HasCause k c v h =
    if-HasCause k v.configured _ v
      (λ e.
        ground
          (arith, h, any-snoc (causes k) v.pending (disconnect_job c v.available v.selected_id)))
      h

pub gesture-HasCause :
    (k : Sign) (g : Gesture) (v : Integrations) → HasCause k v → HasCause k (gesture g v)
unfolding gesture start_load_conflicts select_connection start_detach start_resolve follow_parent
    start_refresh_activity
gesture-HasCause k timer v h = ask_conflicts-HasCause k v.conflicts_unavailable v h
gesture-HasCause k retry_repositories v h = load_repositories-HasCause k v h
gesture-HasCause k press_refresh v h =
    if-HasCause k v.loading_repositories v _ h (load_repositories-HasCause k v h)
gesture-HasCause k retry_conflicts v h = ask_conflicts-HasCause k v.conflicts_unavailable v h
gesture-HasCause k refresh_activity v h =
    λ e. ground (arith, h, any-snoc (causes k) v.pending (runs_told v.conflicts_unavailable))
gesture-HasCause k mappings_changed v h = λ e. ground (arith, h)
gesture-HasCause k connect v h = start_connect-HasCause k v h
gesture-HasCause k install v h = start_install-HasCause k v h
gesture-HasCause k (pick_connection value) v h = λ e. ground (arith, h)
gesture-HasCause k (created connection) v h = connection_created-HasCause k connection v h
gesture-HasCause k (disconnect connection) v h = start_disconnect-HasCause k connection v h
gesture-HasCause k (import_one r) v h = start_import-HasCause k r v h
gesture-HasCause k (detach_one r) v h =
    λ e. ground (arith, h, any-snoc (causes k) v.pending (detach_job r))
gesture-HasCause k (resolve id) v h = λ e.
    ground (
      arith,
      h,
      any-snoc (causes k) v.pending (resolve_job id v.project.id v.conflicts_unavailable),
    )
gesture-HasCause k (parent_changed project connections) v h = λ e. ground (arith, h)
