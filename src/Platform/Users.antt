-- ===== src/Platform/Users.antt =====
-- `saveUser` and `revokeSessions`. `Math.max(0, n - k)` is the subtraction of ℕ.
use justprojects.Base.{
  ℕ, ◌+◌, ◌-◌, ltb, String, Bool, not, ◌&&◌, ◌||◌, Option, none, some, get_or, or_else, List, ◌∷◌,
  ◌++◌, map, codes, ◌==◌, if◌then◌else◌,
}
use Prim.Native.Nat.{min}
use justprojects.Types.{User}
use justprojects.Answers.{Cause, Ended, answered, failed, message_of}
use justprojects.Platform.{
  PlatformStats, PlatformUserSummary, UserPatch, text, counted, user_job, sessions_job, Platform,
  ask,
}

-- `a !== b`
abbrev pub differ : Bool → Bool → Bool
differ a b = (a && not b) || (b && not a)

-- `user:${user.id}:${action}`
abbrev pub user_key : String → String → List ℕ
user_key id action = codes "user:" ++ codes id ++ b':' ∷ codes action

-- `saveUser` up to its `await`
unfoldable pub start_save_user : PlatformUserSummary → UserPatch → String → Platform → Platform
start_save_user user input action p =
    ask (user_job user input)
      (record p { saving = some (user_key user.id action); error_message = none })

-- `updated.suspended ?? input.suspended ?? user.suspended`
abbrev pub next_suspended : PlatformUserSummary → UserPatch → User → Bool
next_suspended user input updated =
    get_or (or_else updated.suspended input.suspended) user.suspended

abbrev pub sessions_revoked : PlatformUserSummary → Bool → ℕ
sessions_revoked user next = if next && not user.suspended then user.active_sessions else 0

-- `{ ...item, ...updated, ...(nextSuspended ? { activeSessions: 0 } : {}) }`
abbrev pub merge_user : User → Bool → PlatformUserSummary → PlatformUserSummary
merge_user updated next item = record item {
  id = updated.id;
  name = updated.name;
  email = updated.email;
  email_verified = get_or updated.email_verified item.email_verified;
  platform_admin = get_or updated.platform_admin item.platform_admin;
  suspended = get_or updated.suspended item.suspended;
  active_sessions = if next then 0 else item.active_sessions;
}

abbrev pub replace_user : User → Bool → List PlatformUserSummary → List PlatformUserSummary
replace_user updated next =
    map (λ item. if item.id == updated.id then merge_user updated next item else item)

abbrev pub recount : Bool → ℕ → PlatformStats → PlatformStats
recount next revoked s = record s {
  active_users = if next then s.active_users - 1 else s.active_users + 1;
  suspended_users = if next then s.suspended_users + 1 else s.suspended_users - 1;
  active_sessions = s.active_sessions - revoked;
}

-- `setStats((current) => current ? f(current) : current)`
abbrev pub with_stats :
    (PlatformStats → PlatformStats) → Option PlatformStats → Option PlatformStats
with_stats f none = none
with_stats f (some s) = some (f s)

abbrev pub action_failed : Cause → Platform → Platform
action_failed c p = record p {
  error_message = some (message_of "admin.actionError" c);
  saving = none;
}

unfoldable pub after_save_user : PlatformUserSummary → UserPatch → Ended User → Platform → Platform
after_save_user user input (answered updated) p =
    let next = next_suspended user input updated in
    let revoked = sessions_revoked user next in
    record p {
      users = replace_user updated next p.users;
      stats =
          if differ next user.suspended || ltb 0 revoked
          then with_stats (recount next revoked) p.stats
          else p.stats;
      notice = some (text "admin.actionSaved");
      saving = none;
    }
after_save_user user input (failed c) p = action_failed c p

-- `revokeSessions` up to its `await`
unfoldable pub start_revoke : PlatformUserSummary → Platform → Platform
start_revoke user p =
    ask (sessions_job user)
      (record p { saving = some (codes "sessions:" ++ codes user.id); error_message = none })

abbrev pub without_sessions : String → List PlatformUserSummary → List PlatformUserSummary
without_sessions id =
    map (λ item. if item.id == id then record item { active_sessions = 0 } else item)

abbrev pub fewer_sessions : ℕ → PlatformStats → PlatformStats
fewer_sessions n s = record s { active_sessions = s.active_sessions - n }

unfoldable pub after_revoke : PlatformUserSummary → Ended ℕ → Platform → Platform
after_revoke user (answered revoked) p = record p {
  users = without_sessions user.id p.users;
  stats = with_stats (fewer_sessions (min revoked user.active_sessions)) p.stats;
  notice = some (counted "admin.sessionsRevoked" revoked);
  saving = none;
}
after_revoke user (failed c) p = action_failed c p
