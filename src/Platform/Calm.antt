-- ===== src/Platform/Calm.antt =====
-- The answers to all requests in flight, oldest first, and what the page shows then.
use justprojects.Base.{
  ℕ, zero, suc, ◌+◌, ◌≤◌, ◌≡◌, refl, ap, Bool, false, Option, none, some, List, [], ◌∷◌, ◌++◌, any,
  arith,
}
use justprojects.Answers.{Cause, api_error, error, thrown_value, Ended, answered, failed}
use justprojects.Platform.{
  PlatformJob, session_job, lists_job, setting_job, logout_job, user_job, sessions_job, project_job,
  Platform,
}
use justprojects.Platform.Load.{load_failed, after_session, after_lists, after_logout}
use justprojects.Platform.Users.{after_save_user, after_revoke}
use justprojects.Platform.Settings.{after_save_setting, after_save_project}
use justprojects.Platform.Events.{PlatformReply, settle, saving_some, reply, PlatformReach, next}
use justprojects.Platform.Causes.{PlatformSign, loads, saves, shown, causes, HasCause}
use justprojects.Platform.Signs.{PlatformReach-HasCause}

-- the answers that a request can still lead to: the session leads on to the lists
abbrev pub weight : PlatformJob → ℕ
weight session_job = 2
weight _ = 1

abbrev pub work : List PlatformJob → ℕ
work [] = 0
work (j ∷ js) = weight j + work js

-- The oldest request is answered.
abbrev pub answer_oldest :
    ((j : PlatformJob) → Ended (PlatformReply j)) → List PlatformJob → Platform → Platform
answer_oldest answer [] p = p
answer_oldest answer (j ∷ js) p = settle j (answer j) (record p { pending = js })

-- `n` answers in a row
pub drain : (ℕ → (j : PlatformJob) → Ended (PlatformReply j)) → ℕ → Platform → Platform
drain answers zero p = p
drain answers (suc n) p = drain answers n (answer_oldest (answers n) p.pending p)

work-snoc : (js : List PlatformJob) (j : PlatformJob) → work (js ++ j ∷ []) ≡ work js + weight j
work-snoc [] j = omega arith
work-snoc (i ∷ js) j = omega (arith, work-snoc js j)

load_failed-work : (c : Cause) (p : Platform) → work (load_failed c p).pending ≡ work p.pending
unfolding load_failed
load_failed-work (api_error message status) p = ground arith
load_failed-work (error message) p = refl
load_failed-work thrown_value p = refl

settle-work :
    (j : PlatformJob) (o : Ended (PlatformReply j)) (p : Platform)
    → work (settle j o p).pending + 1 ≤ weight j + work p.pending
unfolding settle after_session after_lists after_save_setting after_logout after_save_user
    after_revoke after_save_project
settle-work session_job (answered session) p = omega (arith, work-snoc p.pending lists_job)
settle-work session_job (failed c) p = omega (arith, load_failed-work c p)
settle-work lists_job (answered lists) p = omega arith
settle-work lists_job (failed c) p = omega (arith, load_failed-work c p)
settle-work setting_job (answered s) p = omega arith
settle-work setting_job (failed c) p = omega arith
settle-work logout_job o p = omega arith
settle-work (user_job user input) (answered updated) p = omega arith
settle-work (user_job user input) (failed c) p = omega arith
settle-work (sessions_job user) (answered n) p = omega arith
settle-work (sessions_job user) (failed c) p = omega arith
settle-work (project_job project status) (answered id) p = omega arith
settle-work (project_job project status) (failed c) p = omega arith

answer_oldest-work :
    (answer : (j : PlatformJob) → Ended (PlatformReply j)) (n : ℕ) (js : List PlatformJob)
    (p : Platform)
    → p.pending ≡ js
    → work p.pending ≤ suc n
    → work (answer_oldest answer js p).pending ≤ n
answer_oldest-work answer n [] p e h = omega (arith, ap work e)
answer_oldest-work answer n (j ∷ js) p e h =
    omega (arith, ap work e, h, settle-work j (answer j) (record p { pending = js }))

weight_some : (j : PlatformJob) → 1 ≤ weight j
weight_some session_job = omega arith
weight_some _ = omega arith

work_none : (js : List PlatformJob) → work js ≤ 0 → js ≡ []
work_none [] h = refl
work_none (j ∷ js) h = absurd (omega (arith, h, weight_some j))

drain_empties :
    (answers : ℕ → (j : PlatformJob) → Ended (PlatformReply j)) (n : ℕ) (p : Platform)
    → work p.pending ≤ n
    → (drain answers n p).pending ≡ []
unfolding drain
drain_empties answers zero p h = work_none p.pending h
drain_empties answers (suc n) p h =
    drain_empties answers n (answer_oldest (answers n) p.pending p)
      (answer_oldest-work (answers n) n p.pending p refl h)

answer_oldest-Reach :
    (configured : Bool) (answer : (j : PlatformJob) → Ended (PlatformReply j))
    (js : List PlatformJob) (p : Platform)
    → p.pending ≡ js
    → PlatformReach configured p
    → PlatformReach configured (answer_oldest answer js p)
answer_oldest-Reach configured answer [] p e r = r
answer_oldest-Reach configured answer (j ∷ js) p e r = next r (reply [] js j (answer j) p e)

drain-Reach :
    (configured : Bool) (answers : ℕ → (j : PlatformJob) → Ended (PlatformReply j)) (n : ℕ)
    (p : Platform)
    → PlatformReach configured p
    → PlatformReach configured (drain answers n p)
unfolding drain
drain-Reach configured answers zero p r = r
drain-Reach configured answers (suc n) p r =
    drain-Reach configured answers n (answer_oldest (answers n) p.pending p)
      (answer_oldest-Reach configured (answers n) p.pending p refl r)

-- A sign that has its cause is not shown when nothing is in flight.
sign_out : (k : PlatformSign) (p : Platform) → HasCause k p → p.pending ≡ [] → shown k p ≡ false
sign_out k p h e = ground (arith, h, ap (any (causes k)) e)

saving_out : (o : Option (List ℕ)) → saving_some o ≡ false → o ≡ none
saving_out none e = refl
saving_out (some key) e = cc

-- From every state that the page can reach, if each request in flight is answered, oldest first
-- and whatever the answers, then nothing is in flight after at least as many answers as the
-- requests can lead to (two for the session, one for any other), and no sign of loading or
-- saving is shown.
pub drain_calms :
    (configured : Bool) (answers : ℕ → (j : PlatformJob) → Ended (PlatformReply j)) (n : ℕ)
    (p : Platform)
    → PlatformReach configured p
    → work p.pending ≤ n
    → (let end = drain answers n p in
        (end.pending ≡ []) × (end.loading ≡ false) × (end.saving ≡ none))
drain_calms configured answers n p r h =
    let end = drain answers n p in
    let reached = drain-Reach configured answers n p r in
    let empty = drain_empties answers n p h in
    (
      empty,
      sign_out loads end (PlatformReach-HasCause loads configured end reached) empty,
      saving_out end.saving
          (sign_out saves end (PlatformReach-HasCause saves configured end reached) empty),
    )
