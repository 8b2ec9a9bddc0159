-- ===== src/Platform/Causes.antt =====
-- The signs of the page and their causes, and what the buttons do to them.
use justprojects.Base.{
  ℕ, String, ◌≡◌, refl, Bool, true, false, Option, none, some, List, any, any-snoc, find, arith,
  ◌==◌, if◌then◌else◌,
}
use justprojects.Types.{Project}
use justprojects.Platform.{
  PlatformSettings, PlatformJob, session_job, lists_job, setting_job, logout_job, Platform, ask,
}
use justprojects.Platform.Load.{start_load, open_project}
use justprojects.Platform.Users.{start_save_user, start_revoke}
use justprojects.Platform.Settings.{SettingField, start_save_setting, start_save_project}
use justprojects.Platform.Events.{
  toggle_shown, saving_some, PlatformAction, retry, refresh, dismiss, log_out, toggle, press_admin,
  press_suspend, press_revoke, pick_status, set_user_query, set_project_query, pick_project,
  do_action,
}

pub data PlatformSign : Type 0 where
  loads saves : PlatformSign

abbrev pub shown : PlatformSign → Platform → Bool
shown loads p = p.loading
shown saves p = saving_some p.saving

abbrev pub causes : PlatformSign → PlatformJob → Bool
causes loads session_job = true
causes loads lists_job = true
causes loads _ = false
causes saves session_job = false
causes saves lists_job = false
causes saves logout_job = false
causes saves _ = true

-- If the sign is shown, a request that it stands for is in flight.
abbrev pub HasCause : PlatformSign → Platform → Type 0
HasCause k p = shown k p ≡ true → any (causes k) p.pending ≡ true

pub if-HasCause :
    (k : PlatformSign) (test : Bool) (p q : Platform)
    → HasCause k p
    → HasCause k q
    → HasCause k (if test then p else q)
if-HasCause k true p q h g = h
if-HasCause k false p q h g = g

start_load-HasCause : (k : PlatformSign) (p : Platform) → HasCause k p → HasCause k (start_load p)
unfolding start_load
start_load-HasCause k p h e = ground (arith, h, any-snoc (causes k) p.pending session_job)

ask_saving-HasCause :
    (k : PlatformSign) (j : PlatformJob) (key : List ℕ) (p : Platform)
    → causes saves j ≡ true
    → HasCause k p
    → HasCause k (ask j (record p { saving = some key; error_message = none }))
ask_saving-HasCause loads j key p c h e = ground (arith, h, any-snoc (causes loads) p.pending j)
ask_saving-HasCause saves j key p c h e = ground (arith, c, any-snoc (causes saves) p.pending j)

toggle-HasCause :
    (k : PlatformSign) (field : SettingField) (o : Option PlatformSettings) (p : Platform)
    → HasCause k p
    → HasCause k (toggle_shown field o p)
unfolding start_save_setting
toggle-HasCause k field none p h = h
toggle-HasCause k field (some s) p h =
    if-HasCause k _ p _ h (ask_saving-HasCause k setting_job _ p refl h)

open_project-HasCause :
    (k : PlatformSign) (id : String) (p : Platform) (o : Option Project)
    → find (λ q. q.id == id) p.shell_projects ≡ o
    → HasCause k p
    → HasCause k (open_project id p)
unfolding open_project
open_project-HasCause k id p none e h = rw e h
open_project-HasCause k id p (some q) e h = simp e (λ l. ground (arith, h))

pub do_action-HasCause :
    (k : PlatformSign) (a : PlatformAction) (p : Platform)
    → HasCause k p
    → HasCause k (do_action a p)
unfolding do_action start_save_user start_revoke start_save_project
do_action-HasCause k retry p h = start_load-HasCause k p h
do_action-HasCause k refresh p h = if-HasCause k p.loading p _ h (start_load-HasCause k p h)
do_action-HasCause k dismiss p h = λ e. ground (arith, h)
do_action-HasCause k log_out p h = λ e. ground (arith, h, any-snoc (causes k) p.pending logout_job)
do_action-HasCause k (toggle field) p h = toggle-HasCause k field p.settings p h
do_action-HasCause k (press_admin user) p h =
    if-HasCause k _ p _ h (ask_saving-HasCause k _ _ p refl h)
do_action-HasCause k (press_suspend user) p h =
    if-HasCause k _ p _ h (ask_saving-HasCause k _ _ p refl h)
do_action-HasCause k (press_revoke user) p h =
    if-HasCause k _ p _ h (ask_saving-HasCause k _ _ p refl h)
do_action-HasCause k (pick_status project status) p h =
    if-HasCause k _ _ p (ask_saving-HasCause k _ _ p refl h) h
do_action-HasCause k (set_user_query text) p h = λ e. ground (arith, h)
do_action-HasCause k (set_project_query text) p h = λ e. ground (arith, h)
do_action-HasCause k (pick_project id) p h = open_project-HasCause k id p _ refl h
