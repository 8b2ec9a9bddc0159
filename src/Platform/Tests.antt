-- ===== src/Platform/Tests.antt =====
-- The page at concrete inputs.
use justprojects.Base.{ℕ, arith, String, Bool, ◌≡◌, refl, true, false, none, some, [], ◌∷◌, map}
use justprojects.Types.{User}
use justprojects.Answers.{Ended, answered, failed, error}
use justprojects.Workspace.Samples.{ann, signed_in, rocket}
use justprojects.Platform.{
  PlatformSettings, PlatformUserSummary, UserPatch, PlatformJob, Platform, mounted_platform,
  filtered_users, session_job, lists_job, setting_job, logout_job, user_job, sessions_job,
  project_job,
}
use justprojects.Platform.Load.{PlatformLists, start_load, after_session, after_lists}
use justprojects.Platform.Users.{start_save_user, after_save_user}
use justprojects.Platform.Events.{
  PlatformReply, settle, press_suspend, refresh, do_action, PlatformReach, opened, next, act, reply,
}
use justprojects.Platform.Counts.{Agree, after_save_user-Agree}
use justprojects.Platform.Calm.{drain, drain_calms}

abbrev person : String → String → Bool → ℕ → PlatformUserSummary
person id name suspended active_sessions = record {
  id = id;
  name = name;
  email = "x@example.org";
  email_verified = true;
  platform_admin = false;
  suspended = suspended;
  created_at = "2024-01-01";
  updated_at = "2024-01-01";
  tenant_count = 1;
  project_count = 1;
  active_sessions = active_sessions;
  last_active_at = none;
}

abbrev bob : PlatformUserSummary
bob = person "u2" "Bob" false 3

abbrev settings : PlatformSettings
settings = record { login_enabled = true; signup_enabled = true; oidc_enabled = false }

abbrev three : PlatformLists
three = record {
  stats = record {
    users = 3;
    active_users = 2;
    suspended_users = 1;
    workspaces = 1;
    projects = 1;
    tasks = 4;
    active_sessions = 4;
    recent_signups = 0;
    recent_projects = 0;
  };
  settings = settings;
  users = some (person "u1" "Ann" false 1 ∷ bob ∷ person "u3" "Cid" true 0 ∷ []);
  projects = none;
  shell_projects = some (rocket ∷ []);
}

abbrev bob_suspended : User
bob_suspended = record ann { id = "u2"; name = "Bob"; suspended = some true }

abbrev answer : (j : PlatformJob) → Ended (PlatformReply j)
answer session_job = answered signed_in
answer lists_job = answered three
answer setting_job = answered settings
answer logout_job = answered tt
answer (user_job user input) = answered bob_suspended
answer (sessions_job user) = answered 3
answer (project_job project status) = failed (error "gone")

abbrev started : Platform
started = start_load (mounted_platform true)

abbrev known : Platform
known = settle session_job (answered signed_in) (record started { pending = [] })

abbrev loaded : Platform
loaded = settle lists_job (answered three) (record known { pending = [] })

-- opens what the page computes with
page : Unit {0}
unfolding settle do_action start_load after_session after_lists start_save_user after_save_user
    filtered_users
page = tt

abbrev suspend : UserPatch
suspend = record { platform_admin = none; suspended = some true }

loaded-Agree : Agree loaded
unfolding page
loaded-Agree s e = ground (arith, e)

after_save_user-Agree_example : Agree (after_save_user bob suspend (answered bob_suspended) loaded)
unfolding page
after_save_user-Agree_example =
    after_save_user-Agree bob suspend bob_suspended true loaded loaded-Agree
      (record {
        before = person "u1" "Ann" false 1 ∷ [];
        after = person "u3" "Cid" true 0 ∷ [];
        split = refl;
        first = refl;
        last = refl;
      })
      (λ e. absurd cc) refl refl

-- a suspension and a refresh are in flight
abbrev busy : Platform
busy = do_action refresh (do_action (press_suspend bob) loaded)

busy-Reach : PlatformReach true busy
unfolding page
busy-Reach =
    next
      (next
        (next (next opened (reply [] [] session_job (answered signed_in) started refl))
          (reply [] [] lists_job (answered three) known refl))
        (act (press_suspend bob) loaded))
      (act refresh (do_action (press_suspend bob) loaded))

drain_calms_example :
    (let end = drain (λ n. answer) 3 busy in
      (end.pending ≡ []) × (end.loading ≡ false) × (end.saving ≡ none))
unfolding page
drain_calms_example = drain_calms true (λ n. answer) 3 busy busy-Reach (omega arith)

counters_tests :
    (after_save_user bob suspend (answered bob_suspended) loaded).stats
    ≡ some (record three.stats { active_users = 1; suspended_users = 2; active_sessions = 1 })
unfolding page
counters_tests = refl

search_tests : map (λ u. u.id) (filtered_users (record loaded { user_query = " bO " })) ≡ "u2" ∷ []
unfolding page
search_tests = refl
