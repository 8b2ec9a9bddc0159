-- ===== src/Auth/Tests.antt =====
-- The page at concrete inputs.
use justprojects.Base.{◌≡◌, refl, true, false, some, [], ◌∷◌}
use justprojects.Answers.{answered, failed, api_error}
use justprojects.Workspace.Samples.{signed_in}
use justprojects.Auth.{
  AuthConfig, Auth, config_job, session_job, login_job, unmounted, start_config, start_submit,
  submit_failed, after_login, after_entry, after_config,
}
use justprojects.Auth.Events.{AuthReach, opened, act, reply, settle, do_action, submit}
use justprojects.Auth.Entry.{lets_in, entry-lets_in}

-- opens what the page computes with
page : Unit {0}
unfolding start_config start_submit submit_failed after_login after_entry after_config settle
    do_action
page = tt

abbrev tried : Auth
tried = do_action submit (start_config (unmounted true true))

abbrev known : Auth
known = settle (login_job "" "") (answered signed_in) (record tried { pending = config_job ∷ [] })

abbrev inside : Auth
inside = settle session_job (answered signed_in) (record known { pending = config_job ∷ [] })

inside-Reach : AuthReach true true (session_job ∷ login_job "" "" ∷ []) inside
unfolding page
inside-Reach =
    reply (config_job ∷ []) [] session_job (answered signed_in) known
      (reply (config_job ∷ []) [] (login_job "" "") (answered signed_in) tried (act submit _ opened)
        refl)
      refl

entry-lets_in_example : lets_in (session_job ∷ login_job "" "" ∷ []) ≡ true
unfolding page
entry-lets_in_example =
    entry-lets_in true true (session_job ∷ login_job "" "" ∷ []) inside inside-Reach refl

abbrev closed : AuthConfig
closed = record { login_enabled = true; signup_enabled = false; oidc_enabled = false }

-- A wrong password is reported like a lost session.
submit_tests :
    ((after_login (failed (api_error "invalid credentials" 401)) tried).error_message
      ≡ some "auth.sessionUnavailable")
    × ((start_submit (after_config (answered closed) (unmounted false true))).pending ≡ [])
    × ((do_action submit tried).pending ≡ tried.pending)
unfolding page
submit_tests = (refl, refl, refl)
