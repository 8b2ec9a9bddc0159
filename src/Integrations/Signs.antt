-- ===== src/Integrations/Signs.antt =====
-- The signs that something is going on, over every run of the view.
use justprojects.Base.{
  ◌≡◌, refl, ap, ◌∙◌, sym, Bool, true, false, not, ◌||◌, List, ◌∷◌, ◌++◌, any, any-insert, any-snoc,
  arith, ◌==◌, Bool-cases, inl, inr, nat_eq,
}
use mathlib.Core.Path.{subst}
use justprojects.Types.{Project, GitConnection}
use justprojects.Workspace.{Outcome, fulfilled, rejected, api_error, other_error}
use justprojects.Integrations.{
  Job, load_repositories, load_conflicts, github_url, install_url, told_parent, attach_job,
  import_job, detach_job, disconnect_job, resolve_job, runs_told, Integrations,
}
use justprojects.Integrations.Repositories.{
  start_load_repositories, after_load_repositories, after_attach, after_import, after_detach,
}
use justprojects.Integrations.Providers.{
  after_connect, after_install, after_disconnect, after_told_parent,
}
use justprojects.Integrations.Conflicts.{
  ask_conflicts, start_load_conflicts, after_load_conflicts, after_resolve, after_runs_told,
}
use justprojects.Integrations.Events.{
  Answer, settle, gesture, unmounted, mounted, act, reply, Reach, here, next,
}
use justprojects.Integrations.Causes.{
  Sign, shown, causes, HasCause, await-HasCause, if-HasCause, load_repositories-HasCause,
  ask_conflicts-HasCause, put_out_after, run_effects-HasCause, gesture-HasCause,
}

module _ (k : Sign) (before after : List Job) (v : Integrations) where
  abbrev taken : Integrations
  taken = record v { pending = before ++ after }

  any_left :
      (j : Job)
      → v.pending ≡ before ++ j ∷ after
      → any (causes k) v.pending ≡ (causes k j || any (causes k) (before ++ after))
  any_left j e = ap (any (causes k)) e ∙ any-insert (causes k) before after j

  -- A request that ends puts its own sign out, and takes no other sign's cause.
  puts_out :
      (j : Job) (w : Integrations)
      → v.pending ≡ before ++ j ∷ after
      → HasCause k v
      → w.pending ≡ before ++ after
      → (causes k j ≡ true → shown k w ≡ false)
      → (causes k j ≡ false → shown k w ≡ shown k v)
      → HasCause k w
  puts_out j w left h same off kept e = rw same (elim (Bool-cases (causes k j)) [
    | inl own ↦ cc (off own)
    | inr other ↦ ground (arith, kept other, h, any_left j left, other)
  ])

  -- A request without a sign of its own takes no cause.
  quiet_end :
      (j : Job) (w : Integrations)
      → v.pending ≡ before ++ j ∷ after
      → HasCause k v
      → w.pending ≡ before ++ after
      → causes k j ≡ false
      → shown k w ≡ shown k v
      → HasCause k w
  quiet_end j w left h same quiet kept = puts_out j w left h same (λ e. cc) (λ e. kept)

  settle-HasCause :
      (j : Job) (o : Outcome (Answer j))
      → v.pending ≡ before ++ j ∷ after
      → HasCause k v
      → HasCause k (settle j o taken)
  unfolding settle after_load_repositories after_load_conflicts after_connect after_install
      after_told_parent after_attach after_import after_detach after_disconnect after_resolve
      after_runs_told ask_conflicts
  settle-HasCause load_repositories (fulfilled lists) left h =
      puts_out _ _ left h refl (λ e. ground (arith, e)) (λ e. ground (arith, e))
  settle-HasCause load_repositories (rejected f) left h =
      puts_out _ _ left h refl (λ e. ground (arith, e)) (λ e. ground (arith, e))
  settle-HasCause load_conflicts (fulfilled items) left h =
      quiet_end _ _ left h refl (ground arith) (ground arith)
  settle-HasCause load_conflicts (rejected (api_error m s)) left h =
      if-HasCause k (nat_eq s 403) _ _
        (quiet_end load_conflicts _ left h refl (ground arith) (ground arith))
        (quiet_end load_conflicts _ left h refl (ground arith) (ground arith))
  settle-HasCause load_conflicts (rejected other_error) left h =
      quiet_end _ _ left h refl (ground arith) (ground arith)
  settle-HasCause github_url (fulfilled url) left h =
      puts_out _ _ left h refl (λ e. ground (arith, e)) (λ e. ground (arith, e))
  settle-HasCause github_url (rejected f) left h =
      puts_out _ _ left h refl (λ e. ground (arith, e)) (λ e. ground (arith, e))
  settle-HasCause install_url (fulfilled url) left h =
      puts_out _ _ left h refl (λ e. ground (arith, e)) (λ e. ground (arith, e))
  settle-HasCause install_url (rejected f) left h =
      puts_out _ _ left h refl (λ e. ground (arith, e)) (λ e. ground (arith, e))
  settle-HasCause told_parent (fulfilled done) left h =
      quiet_end _ _ left h refl (ground arith) (ground arith)
  settle-HasCause told_parent (rejected f) left h =
      quiet_end _ _ left h refl (ground arith) (ground arith)
  settle-HasCause (attach_job p r) (fulfilled linked) left h = λ e. ground (
    arith,
    h,
    any_left (attach_job p r) left,
    any-snoc (causes k) (before ++ after) (import_job p r),
  )
  settle-HasCause (attach_job p r) (rejected f) left h =
      puts_out _ _ left h refl (λ e. ground (arith, e)) (λ e. ground (arith, e))
  settle-HasCause (import_job p r) (fulfilled run) left h =
      puts_out _ _ left h refl (λ e. ground (arith, e)) (λ e. ground (arith, e))
  settle-HasCause (import_job p r) (rejected f) left h =
      puts_out _ _ left h refl (λ e. ground (arith, e)) (λ e. ground (arith, e))
  settle-HasCause (detach_job r) (fulfilled done) left h =
      puts_out _ _ left h refl (λ e. ground (arith, e)) (λ e. ground (arith, e))
  settle-HasCause (detach_job r) (rejected f) left h =
      puts_out _ _ left h refl (λ e. ground (arith, e)) (λ e. ground (arith, e))
  settle-HasCause (disconnect_job c av s) (fulfilled done) left h =
      if-HasCause k (s == c.id) _ _
        (await-HasCause k told_parent _
          (quiet_end (disconnect_job c av s) _ left h refl (ground arith) (ground arith)))
        (quiet_end (disconnect_job c av s) _ left h refl (ground arith) (ground arith))
  settle-HasCause (disconnect_job c av s) (rejected f) left h =
      quiet_end _ _ left h refl (ground arith) (ground arith)
  settle-HasCause (resolve_job c p u) (fulfilled done) left h =
      subst (HasCause k) (sym (put_out_after (not v.configured || u) _)) (
        ask_conflicts-HasCause k u _ (
          puts_out (resolve_job c p u) _ left h refl (λ e. ground (arith, e))
            (λ e. ground (arith, e))))
  settle-HasCause (resolve_job c p u) (rejected f) left h =
      puts_out _ _ left h refl (λ e. ground (arith, e)) (λ e. ground (arith, e))
  settle-HasCause (runs_told u) (fulfilled done) left h =
      ask_conflicts-HasCause k u taken
        (quiet_end (runs_told u) taken left h refl (ground arith) (ground arith))
  settle-HasCause (runs_told u) (rejected f) left h =
      quiet_end (runs_told u) taken left h refl (ground arith) (ground arith)

Reach-HasCause : (k : Sign) (u v : Integrations) → HasCause k u → Reach u v → HasCause k v
Reach-HasCause k u v h here = h
Reach-HasCause k u v h (next r (act g w)) =
    run_effects-HasCause k w (gesture g w) (gesture-HasCause k g w (Reach-HasCause k u w h r))
Reach-HasCause k u v h (next r (reply before after j o w left)) =
    run_effects-HasCause k (record w { pending = before ++ after }) _
      (settle-HasCause k before after w j o left (Reach-HasCause k u w h r))

mounted-HasCause :
    (k : Sign) (configured : Bool) (project : Project) (connections : List GitConnection)
    → HasCause k (mounted configured project connections)
unfolding mounted start_load_conflicts
mounted-HasCause k configured project connections =
    let v = unmounted configured project connections in
    ask_conflicts-HasCause k (start_load_repositories v).conflicts_unavailable
      (start_load_repositories v) (load_repositories-HasCause k v (λ e. ground (arith, e)))

-- Over every run of the view, with the effects that React runs and whatever the order of the answers:
-- each of its six signs (repositories loading, connecting, installing, importing, detaching, resolving
-- a conflict) is shown only while a request that it stands for is in flight.
pub signs-HasCause :
    (k : Sign) (configured : Bool) (project : Project) (connections : List GitConnection)
    (v : Integrations)
    → Reach (mounted configured project connections) v
    → HasCause k v
signs-HasCause k configured project connections v r =
    Reach-HasCause k (mounted configured project connections) v
      (mounted-HasCause k configured project connections) r
