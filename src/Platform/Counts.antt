-- ===== src/Platform/Counts.antt =====
-- The counters of the page and the list of users that it shows.
use justprojects.Base.{
  ℕ, ◌+◌, ◌≤◌, ltb, ◌≡◌, refl, sym, ap, ◌∙◌, Bool, true, false, ◌||◌, Option, none, some, List, [],
  ◌∷◌, ◌++◌, map, any, arith, ◌==◌, eq_refl, if◌then◌else◌,
}
use mathlib.Core.Path.{subst}
use Prim.Native.Nat.{min}
use justprojects.Types.{User}
use justprojects.Answers.{answered}
use justprojects.Platform.{PlatformStats, PlatformUserSummary, UserPatch, Platform}
use justprojects.Platform.Users.{
  differ, next_suspended, sessions_revoked, merge_user, replace_user, recount, with_stats,
  after_save_user, without_sessions, fewer_sessions, after_revoke,
}

module _ {ℓ} {A : Type ℓ} where
  abbrev pub total : (A → ℕ) → List A → ℕ
  total f [] = 0
  total f (x ∷ xs) = f x + total f xs

  total-insert :
      (f : A → ℕ) (before after : List A) (x : A)
      → total f (before ++ x ∷ after) ≡ f x + (total f before + total f after)
  total-insert f [] after x = omega arith
  total-insert f (y ∷ before) after x = omega (arith, total-insert f before after x)

  map_absent :
      (p : A → Bool) (f : A → A) (xs : List A)
      → any p xs ≡ false
      → map (λ x. if p x then f x else x) xs ≡ xs
  map_absent p f [] h = refl
  map_absent p f (x ∷ xs) h = ground (arith, map_absent p f xs)

  -- The one item that passes the test is changed, and no other.
  map_single :
      (p : A → Bool) (f : A → A) (before after : List A) (x : A)
      → p x ≡ true
      → any p before ≡ false
      → any p after ≡ false
      → map (λ y. if p y then f y else y) (before ++ x ∷ after) ≡ before ++ f x ∷ after
  map_single p f [] after x here b a = ground (arith, here, map_absent p f after a)
  map_single p f (y ∷ before) after x here b a =
      ground (arith, map_single p f before after x here, a)

abbrev pub active : PlatformUserSummary → ℕ
active u = if u.suspended then 0 else 1

abbrev pub inactive : PlatformUserSummary → ℕ
inactive u = if u.suspended then 1 else 0

abbrev pub sessions : PlatformUserSummary → ℕ
sessions u = u.active_sessions

-- the three counters that the page changes itself
abbrev pub AreCounted : PlatformStats → List PlatformUserSummary → Type 0
AreCounted s us =
    (s.active_users ≡ total active us)
    × (s.suspended_users ≡ total inactive us)
    × (s.active_sessions ≡ total sessions us)

-- If there are counters, they count the users listed.
abbrev pub Agree : Platform → Type 0
Agree p = (s : PlatformStats) → p.stats ≡ some s → AreCounted s p.users

-- The user is listed, once.
pub record IsListed (u : PlatformUserSummary) (us : List PlatformUserSummary) : Type 0 where
  pub before : List PlatformUserSummary
  pub after : List PlatformUserSummary
  pub split : us ≡ before ++ u ∷ after
  pub first : any (λ item. item.id == u.id) before ≡ false
  pub last : any (λ item. item.id == u.id) after ≡ false

AreCounted-step :
    (user : PlatformUserSummary) (updated : User) (next : Bool) (s : PlatformStats)
    (before after : List PlatformUserSummary)
    → (user.suspended ≡ true → user.active_sessions ≡ 0)
    → updated.suspended ≡ some next
    → AreCounted s (before ++ user ∷ after)
    → AreCounted
        (if differ next user.suspended || ltb 0 (sessions_revoked user next)
          then recount next (sessions_revoked user next) s
          else s)
        (before ++ merge_user updated next user ∷ after)
AreCounted-step user updated next s before after quiet said h =
    let merged = merge_user updated next user in
    (
      ground (
        arith,
        h.0,
        quiet,
        said,
        total-insert active before after user,
        total-insert active before after merged,
      ),
      ground (
        arith,
        h.1,
        quiet,
        said,
        total-insert inactive before after user,
        total-insert inactive before after merged,
      ),
      ground (
        arith,
        h.2,
        quiet,
        said,
        total-insert sessions before after user,
        total-insert sessions before after merged,
      ),
    )

-- where counters that were perhaps changed come from
stats_before :
    (test : Bool) (f : PlatformStats → PlatformStats) (o : Option PlatformStats) (s : PlatformStats)
    → (if test then with_stats f o else o) ≡ some s
    → (t : PlatformStats) × (o ≡ some t) × ((if test then f t else t) ≡ s)
stats_before test f none s e = absurd (ground arith)
stats_before test f (some t) s e = (t, refl, ground arith)

-- If the counters of active users, of suspended users and of sessions count the users listed, a
-- listed user's change is accepted, the answer has that user's identifier and says whether the
-- user is suspended, and a suspended user has no sessions, then they count the users listed
-- again.
pub after_save_user-Agree :
    (user : PlatformUserSummary) (input : UserPatch) (updated : User) (next : Bool) (p : Platform)
    → Agree p
    → IsListed user p.users
    → (user.suspended ≡ true → user.active_sessions ≡ 0)
    → updated.id ≡ user.id
    → updated.suspended ≡ some next
    → Agree (after_save_user user input (answered updated) p)
unfolding after_save_user
after_save_user-Agree user input updated next p h listed quiet same said s e =
    let now = next_suspended user input updated in
    let answer : updated.suspended ≡ some now = ground (arith, said) in
    let old = stats_before _ _ p.stats s e in
    let counted : AreCounted old.0 (listed.before ++ user ∷ listed.after) =
      rw (sym listed.split) (h old.0 old.1) in
    let users : replace_user updated now p.users
        ≡ listed.before ++ merge_user updated now user ∷ listed.after =
      ap (replace_user updated now) listed.split
      ∙ map_single (λ item. item.id == updated.id) (merge_user updated now) listed.before
          listed.after user (rw same (eq_refl user.id)) (rw same listed.first)
          (rw same listed.last) in
    rw users (
      subst (λ t. AreCounted t (listed.before ++ merge_user updated now user ∷ listed.after)) old.2
        (AreCounted-step user updated now old.0 listed.before listed.after quiet answer counted))

fewer_sessions-AreCounted :
    (user : PlatformUserSummary) (revoked : ℕ) (s : PlatformStats)
    (before after : List PlatformUserSummary)
    → user.active_sessions ≤ revoked
    → AreCounted s (before ++ user ∷ after)
    → AreCounted
        (fewer_sessions (min revoked user.active_sessions) s)
        (before ++ record user { active_sessions = 0 } ∷ after)
fewer_sessions-AreCounted user revoked s before after enough h =
    let signed_out = record user { active_sessions = 0 } in
    (
      ground (
        arith,
        h.0,
        total-insert active before after user,
        total-insert active before after signed_out,
      ),
      ground (
        arith,
        h.1,
        total-insert inactive before after user,
        total-insert inactive before after signed_out,
      ),
      ground (
        arith,
        h.2,
        enough,
        total-insert sessions before after user,
        total-insert sessions before after signed_out,
      ),
    )

-- If the counters count the users listed, and the sessions of a listed user were revoked, at
-- least as many as are listed, they count the users listed again.
pub after_revoke-Agree :
    (user : PlatformUserSummary) (revoked : ℕ) (p : Platform)
    → Agree p
    → IsListed user p.users
    → user.active_sessions ≤ revoked
    → Agree (after_revoke user (answered revoked) p)
unfolding after_revoke
after_revoke-Agree user revoked p h listed enough s e =
    let old = stats_before true _ p.stats s e in
    let counted : AreCounted old.0 (listed.before ++ user ∷ listed.after) =
      rw (sym listed.split) (h old.0 old.1) in
    let signed_out = record user { active_sessions = 0 } in
    let users : without_sessions user.id p.users ≡ listed.before ++ signed_out ∷ listed.after =
      ap (without_sessions user.id) listed.split
      ∙ map_single (λ item. item.id == user.id) (λ item. record item { active_sessions = 0 })
          listed.before listed.after user (eq_refl user.id) listed.first listed.last in
    rw users (
      subst (λ t. AreCounted t (listed.before ++ signed_out ∷ listed.after)) old.2
        (fewer_sessions-AreCounted user revoked old.0 listed.before listed.after enough counted))
