-- ===== src/Inbox/Spinners.antt =====
-- The signs of loading and of saving over every run of the inbox.
use justprojects.Base.{
  String, ◌≡◌, refl, ap, ◌∙◌, Bool, true, false, ◌||◌, Option, none, some, List, ◌∷◌, ◌++◌, any,
  any-insert, any-snoc, find, arith, nat_eq, Bool-cases, inl, inr, ◌==◌,
}
use justprojects.Types.{Project, ProjectRequest}
use justprojects.Answers.{Ended, answered, failed, Cause, api_error, error, thrown_value}
use justprojects.Inbox.{
  InboxJob, session_job, lists_job, logout_job, save_job, convert_job, Inbox, ask, start_load,
  load_failed, after_session, after_lists, select_request, start_save, after_save, start_convert,
  after_convert, open_project, after_logout,
}
use justprojects.Inbox.Events.{
  InboxReply, continue, InboxAction, do_action, retry, save, convert, log_out, pick_project, act,
  reply, mounted_inbox, InboxReach, opened, next,
}

abbrev pub is_load : InboxJob → Bool
is_load session_job = true
is_load lists_job = true
is_load logout_job = false
is_load (save_job id) = false
is_load (convert_job id) = false

abbrev pub is_save : InboxJob → Bool
is_save session_job = false
is_save lists_job = false
is_save logout_job = false
is_save (save_job id) = true
is_save (convert_job id) = true

-- Each sign is shown only while a request of its kind is in flight.
pub record HasCause (w : Inbox) : Type 0 where
  pub loads : w.loading ≡ true → any is_load w.pending ≡ true
  pub saves : w.saving ≡ true → any is_save w.pending ≡ true

-- Asking for one more request takes no cause away.
ask-HasCause : (j : InboxJob) (w : Inbox) → HasCause w → HasCause (ask j w)
ask-HasCause j w h = record {
  loads = λ e. ground (arith, h.loads, any-snoc is_load w.pending j);
  saves = λ e. ground (arith, h.saves, any-snoc is_save w.pending j);
}

start_load-HasCause : (w : Inbox) → HasCause w → HasCause (start_load w)
unfolding start_load
start_load-HasCause w h = elim (Bool-cases (w.configured)) [
  | inl on ↦ simp on (record {
    loads = λ e. ground (arith, any-snoc is_load w.pending session_job);
    saves = λ e. ground (arith, h.saves, any-snoc is_save w.pending session_job);
  })
  | inr off ↦ simp off h
]

load_failed-HasCause :
    (c : Cause) (w : Inbox)
    → (w.saving ≡ true → any is_save w.pending ≡ true)
    → HasCause (load_failed c w)
unfolding load_failed
load_failed-HasCause (api_error message code) w h = elim (Bool-cases (nat_eq code 401)) [
  | inl out ↦ rw out (record { loads = λ e. cc; saves = h })
  | inr other ↦ rw other (record { loads = λ e. cc; saves = h })
]
load_failed-HasCause (error message) w h = record { loads = λ e. cc; saves = h }
load_failed-HasCause thrown_value w h = record { loads = λ e. cc; saves = h }

start_save-HasCause :
    (w : Inbox) (r : Option ProjectRequest) → w.selected ≡ r → HasCause w → HasCause (start_save w)
unfolding start_save
start_save-HasCause w none e h = simp e h
start_save-HasCause w (some r) e h = simp e (record {
  loads = λ l. ground (arith, h.loads, any-snoc is_load w.pending (save_job r.id));
  saves = λ l. ground (arith, any-snoc is_save w.pending (save_job r.id));
})

start_convert-HasCause :
    (w : Inbox) (r : Option ProjectRequest)
    → w.selected ≡ r
    → HasCause w
    → HasCause (start_convert w)
unfolding start_convert
start_convert-HasCause w none e h = simp e h
start_convert-HasCause w (some r) e h = simp e (record {
  loads = λ l. ground (arith, h.loads, any-snoc is_load w.pending (convert_job r.id));
  saves = λ l. ground (arith, any-snoc is_save w.pending (convert_job r.id));
})

open_project-HasCause :
    (id : String) (w : Inbox) (p : Option Project)
    → find (λ q. q.id == id) w.projects ≡ p
    → HasCause w
    → HasCause (open_project id w)
unfolding open_project
open_project-HasCause id w none e h = rw e h
open_project-HasCause id w (some p) e h = simp e (record { loads = h.loads; saves = h.saves })

do_action-HasCause : (a : InboxAction) (w : Inbox) → HasCause w → HasCause (do_action a w)
unfolding do_action select_request
do_action-HasCause retry w h = start_load-HasCause w h
do_action-HasCause save w h = start_save-HasCause w w.selected refl h
do_action-HasCause convert w h = start_convert-HasCause w w.selected refl h
do_action-HasCause log_out w h = ask-HasCause logout_job w h
do_action-HasCause (pick_project id) w h = open_project-HasCause id w _ refl h
do_action-HasCause _ w h = record { loads = h.loads; saves = h.saves }

module _ (before after : List InboxJob) (w : Inbox) where
  abbrev taken : Inbox
  taken = record w { pending = before ++ after }

  any_left :
      (p : InboxJob → Bool) (j : InboxJob)
      → w.pending ≡ before ++ j ∷ after
      → any p w.pending ≡ (p j || any p (before ++ after))
  any_left p j e = ap (any p) e ∙ any-insert p before after j

  still_saves :
      (j : InboxJob)
      → w.pending ≡ before ++ j ∷ after
      → is_save j ≡ false
      → HasCause w
      → w.saving ≡ true
      → any is_save (before ++ after) ≡ true
  still_saves j e quiet h on = ground (arith, h.saves, any_left is_save j e)

  still_loads :
      (j : InboxJob)
      → w.pending ≡ before ++ j ∷ after
      → is_load j ≡ false
      → HasCause w
      → w.loading ≡ true
      → any is_load (before ++ after) ≡ true
  still_loads j e quiet h on = ground (arith, h.loads, any_left is_load j e)

  continue-HasCause :
      (j : InboxJob) (o : Ended (InboxReply j))
      → w.pending ≡ before ++ j ∷ after
      → HasCause w
      → HasCause (continue j o taken)
  unfolding continue after_session after_lists after_save after_convert after_logout
  continue-HasCause session_job (answered session) e h = record {
    loads = λ l. ground (arith, any-snoc is_load (before ++ after) lists_job);
    saves = λ s.
        ground
          (arith, still_saves session_job e refl h s, any-snoc is_save (before ++ after) lists_job);
  }
  continue-HasCause session_job (failed c) e h =
      load_failed-HasCause c taken (still_saves session_job e refl h)
  continue-HasCause lists_job (answered lists) e h = record {
    loads = λ l. cc;
    saves = still_saves lists_job e refl h;
  }
  continue-HasCause lists_job (failed c) e h =
      load_failed-HasCause c taken (still_saves lists_job e refl h)
  continue-HasCause logout_job o e h = record {
    loads = still_loads logout_job e refl h;
    saves = still_saves logout_job e refl h;
  }
  continue-HasCause (save_job id) (answered r) e h = record {
    loads = still_loads (save_job id) e refl h;
    saves = λ s. cc;
  }
  continue-HasCause (save_job id) (failed c) e h = record {
    loads = still_loads (save_job id) e refl h;
    saves = λ s. cc;
  }
  continue-HasCause (convert_job id) (answered (r, project)) e h = record {
    loads = still_loads (convert_job id) e refl h;
    saves = λ s. cc;
  }
  continue-HasCause (convert_job id) (failed c) e h = record {
    loads = still_loads (convert_job id) e refl h;
    saves = λ s. cc;
  }

opened-HasCause : HasCause (start_load (mounted_inbox true))
unfolding start_load
opened-HasCause = record { loads = λ e. refl; saves = λ e. cc }

-- Over every run of an inbox with a backend, whatever the order of the answers: it shows that it
-- loads only while the session or the lists are asked for, and that it saves only while a saving or a
-- conversion is in flight.
pub InboxReach-HasCause : (w : Inbox) → InboxReach true w → HasCause w
InboxReach-HasCause w opened = opened-HasCause
InboxReach-HasCause w (next r (act a v)) = do_action-HasCause a v (InboxReach-HasCause v r)
InboxReach-HasCause w (next r (reply before after j o v e)) =
    continue-HasCause before after v j o e (InboxReach-HasCause v r)
