-- ===== src/Platform/Signs.antt =====
-- The signs of loading and saving over every run of the page.
use justprojects.Base.{
  ◌≡◌, refl, ap, ◌∙◌, Bool, true, false, not, ◌&&◌, List, ◌∷◌, ◌++◌, any, any-insert, any-snoc,
  arith, nat_eq, Bool-cases, inl, inr,
}
use justprojects.Types.{Session}
use justprojects.Answers.{Cause, api_error, error, thrown_value, Ended, answered, failed}
use justprojects.Platform.{
  PlatformJob, session_job, lists_job, setting_job, logout_job, user_job, sessions_job, project_job,
  Platform, mounted_platform,
}
use justprojects.Platform.Load.{start_load, load_failed, after_session, after_lists, after_logout}
use justprojects.Platform.Users.{after_save_user, after_revoke}
use justprojects.Platform.Settings.{after_save_setting, after_save_project}
use justprojects.Platform.Events.{
  PlatformReply, settle, saving_some, act, reply, PlatformReach, opened, next,
}
use justprojects.Platform.Causes.{
  PlatformSign, shown, causes, HasCause, if-HasCause, do_action-HasCause, loads, saves,
}

abbrev is_load : PlatformJob → Bool
is_load j = causes loads j && not (causes saves j)

load-puts_out :
    (k : PlatformSign) (j : PlatformJob) (q : Platform)
    → is_load j ≡ true
    → q.loading ≡ false
    → causes k j ≡ true
    → shown k q ≡ false
load-puts_out loads j q load off own = off
load-puts_out saves j q load off own = absurd (ground (arith, load, own))

load-keeps :
    (k : PlatformSign) (j : PlatformJob) (p q : Platform)
    → is_load j ≡ true
    → q.saving ≡ p.saving
    → causes k j ≡ false
    → shown k q ≡ shown k p
load-keeps loads j p q load kept other = absurd (ground (arith, load, other))
load-keeps saves j p q load kept other = ap saving_some kept

module _ (k : PlatformSign) (before after : List PlatformJob) (p : Platform) where
  abbrev taken : Platform
  taken = record p { pending = before ++ after }

  -- A request that ends puts its own sign out, and takes no other sign's cause.
  puts_out :
      (j : PlatformJob) (q : Platform)
      → p.pending ≡ before ++ j ∷ after
      → HasCause k p
      → q.pending ≡ before ++ after
      → (causes k j ≡ true → shown k q ≡ false)
      → (causes k j ≡ false → shown k q ≡ shown k p)
      → HasCause k q
  puts_out j q left h same off kept =
      let counted = ap (any (causes k)) left ∙ any-insert (causes k) before after j in
      rw same (elim (Bool-cases (causes k j)) [
        | inl own ↦ cc (off own)
        | inr other ↦ ground (arith, kept other, h, counted, other)
      ])

  load_ends :
      (j : PlatformJob) (q : Platform)
      → p.pending ≡ before ++ j ∷ after
      → HasCause k p
      → is_load j ≡ true
      → q.pending ≡ before ++ after
      → q.loading ≡ false
      → q.saving ≡ p.saving
      → HasCause k q
  load_ends j q left h load same off kept =
      puts_out j q left h same (load-puts_out k j q load off) (load-keeps k j p q load kept)

  load_failed-HasCause :
      (j : PlatformJob) (c : Cause)
      → p.pending ≡ before ++ j ∷ after
      → HasCause k p
      → is_load j ≡ true
      → HasCause k (load_failed c taken)
  unfolding load_failed
  load_failed-HasCause j (api_error message status) left h load =
      if-HasCause k (nat_eq status 401) _ _ (load_ends j _ left h load refl refl refl) (
        if-HasCause k (nat_eq status 403) _ _ (load_ends j _ left h load refl refl refl)
          (load_ends j _ left h load refl refl refl))
  load_failed-HasCause j (error message) left h load = load_ends j _ left h load refl refl refl
  load_failed-HasCause j thrown_value left h load = load_ends j _ left h load refl refl refl

  -- The session leads on to the lists.
  session-HasCause :
      (session : Session)
      → p.pending ≡ before ++ session_job ∷ after
      → HasCause k p
      → HasCause k (settle session_job (answered session) taken)
  unfolding settle after_session
  session-HasCause session left h e = ground (
    arith,
    h,
    ap (any (causes k)) left ∙ any-insert (causes k) before after session_job,
    any-snoc (causes k) (before ++ after) lists_job,
  )

  settle-HasCause :
      (j : PlatformJob) (o : Ended (PlatformReply j))
      → p.pending ≡ before ++ j ∷ after
      → HasCause k p
      → HasCause k (settle j o taken)
  unfolding settle after_session after_lists after_save_setting after_logout after_save_user
      after_revoke after_save_project
  settle-HasCause session_job (answered session) left h = session-HasCause session left h
  settle-HasCause session_job (failed c) left h = load_failed-HasCause session_job c left h refl
  settle-HasCause lists_job (answered lists) left h =
      load_ends lists_job _ left h refl refl refl refl
  settle-HasCause lists_job (failed c) left h = load_failed-HasCause lists_job c left h refl
  settle-HasCause setting_job (answered s) left h =
      puts_out _ _ left h refl (λ e. ground (arith, e)) (λ e. ground (arith, e))
  settle-HasCause setting_job (failed c) left h =
      puts_out _ _ left h refl (λ e. ground (arith, e)) (λ e. ground (arith, e))
  settle-HasCause logout_job o left h =
      puts_out _ _ left h refl (λ e. ground (arith, e)) (λ e. ground (arith, e))
  settle-HasCause (user_job user input) (answered updated) left h =
      puts_out _ _ left h refl (λ e. ground (arith, e)) (λ e. ground (arith, e))
  settle-HasCause (user_job user input) (failed c) left h =
      puts_out _ _ left h refl (λ e. ground (arith, e)) (λ e. ground (arith, e))
  settle-HasCause (sessions_job user) (answered n) left h =
      puts_out _ _ left h refl (λ e. ground (arith, e)) (λ e. ground (arith, e))
  settle-HasCause (sessions_job user) (failed c) left h =
      puts_out _ _ left h refl (λ e. ground (arith, e)) (λ e. ground (arith, e))
  settle-HasCause (project_job project status) (answered id) left h =
      puts_out _ _ left h refl (λ e. ground (arith, e)) (λ e. ground (arith, e))
  settle-HasCause (project_job project status) (failed c) left h =
      puts_out _ _ left h refl (λ e. ground (arith, e)) (λ e. ground (arith, e))

mounted-HasCause :
    (k : PlatformSign) (configured : Bool) → HasCause k (start_load (mounted_platform configured))
unfolding start_load
mounted-HasCause loads true e = refl
mounted-HasCause loads false e = cc
mounted-HasCause saves true e = cc
mounted-HasCause saves false e = cc

pub PlatformReach-HasCause :
    (k : PlatformSign) (configured : Bool) (p : Platform)
    → PlatformReach configured p
    → HasCause k p
PlatformReach-HasCause k configured p opened = mounted-HasCause k configured
PlatformReach-HasCause k configured p (next r (act a q)) =
    do_action-HasCause k a q (PlatformReach-HasCause k configured q r)
PlatformReach-HasCause k configured p (next r (reply before after j o q left)) =
    settle-HasCause k before after q j o left (PlatformReach-HasCause k configured q r)
