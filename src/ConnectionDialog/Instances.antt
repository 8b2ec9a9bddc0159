-- ===== src/ConnectionDialog/Instances.antt =====
-- What holds of the mounted instance of the dialog, and what the user does in it.
use justprojects.Base.{
  ℕ, List, Bool, ◌≡◌, refl, true, false, none, [], ◌∷◌, arith, any, any-snoc, not, ◌||◌, ◌&&◌,
  nat_eq, ltb, if◌then◌else◌, ◌+◌,
}
use justprojects.ConnectionDialog.{
  ConnectionDialog, ConnectionStep, choose, instruct, credentials, github, reset, remount, set_open,
  change_open, select_provider, back_from, forward_from, go_back, go_forward, submit, DialogAction,
  close, back, forward, send, pick, dialog_action, same_provider,
}

-- The dialog is at its first step with an empty form.
pub record IsBlank (d : ConnectionDialog) : Type 0 where
  pub token : d.access_token ≡ ""
  pub secret : d.webhook_secret ≡ ""
  pub named : d.name ≡ ""
  pub first_step : d.step ≡ choose
  pub provided : d.provider ≡ github
  pub idle : d.saving ≡ false
  pub fine : d.error_message ≡ none

-- An instance whose request is in flight is unmounted, or it is the open one.
abbrev pub is_foreign : ConnectionDialog → ℕ → Bool
is_foreign d i = not (ltb i d.instance_number || (d.is_open && nat_eq i d.instance_number))

pub record IsSound (d : ConnectionDialog) : Type 0 where
  pub past : any (is_foreign d) d.pending ≡ false
  pub blank : d.is_open ≡ false → IsBlank d

-- A state of the open dialog with the same requests.
pub still_open :
    {d e : ConnectionDialog}
    → d.is_open ≡ true
    → IsSound d
    → e.is_open ≡ d.is_open
    → e.instance_number ≡ d.instance_number
    → e.pending ≡ d.pending
    → IsSound e
still_open {d} {e} on h o i p = record { past = rw (p, i, o) h.past; blank = λ off. cc }

pub reset-IsSound : (d : ConnectionDialog) → IsSound d → IsSound (reset d)
unfolding reset
reset-IsSound d h = record {
  past = h.past;
  blank = λ off. record {
    token = refl;
    secret = refl;
    named = refl;
    first_step = refl;
    provided = refl;
    idle = refl;
    fine = refl;
  };
}

past_remount :
    (is_open open_now : Bool) (n : ℕ) (js : List ℕ)
    → any (λ i. not (ltb i n || (is_open && nat_eq i n))) js ≡ false
    → any (λ i. not (ltb i (n + 1) || (open_now && nat_eq i (n + 1)))) js ≡ false
past_remount is_open open_now n [] h = refl
past_remount is_open open_now n (j ∷ js) h = ground (arith, past_remount is_open open_now n js)

remount-IsSound :
    (open_now : Bool) (d : ConnectionDialog) → IsSound d → IsSound (remount open_now d)
remount-IsSound open_now d h = record {
  past = past_remount d.is_open open_now d.instance_number d.pending h.past;
  blank = λ off. record {
    token = refl;
    secret = refl;
    named = refl;
    first_step = refl;
    provided = refl;
    idle = refl;
    fine = refl;
  };
}

pub if-IsSound :
    (test : Bool) (d e : ConnectionDialog) → IsSound d → IsSound e → IsSound (if test then d else e)
if-IsSound true d e h g = h
if-IsSound false d e h g = g

pub set_open-IsSound : (next : Bool) (d : ConnectionDialog) → IsSound d → IsSound (set_open next d)
unfolding set_open
set_open-IsSound true d h = if-IsSound d.is_open _ _ h (remount-IsSound true d h)
set_open-IsSound false d h = if-IsSound d.is_open _ _ (remount-IsSound false d h) h

closing-IsSound : (d : ConnectionDialog) → IsSound d → IsSound (change_open false d)
unfolding change_open
closing-IsSound d h = set_open-IsSound false (reset d) (reset-IsSound d h)

back_from-IsSound :
    (s : ConnectionStep) (d : ConnectionDialog)
    → d.is_open ≡ true
    → IsSound d
    → IsSound (back_from s d)
back_from-IsSound choose d on h = closing-IsSound d h
back_from-IsSound instruct d on h = still_open on h refl refl refl
back_from-IsSound credentials d on h = still_open on h refl refl refl

forward_from-IsSound :
    (s : ConnectionStep) (d : ConnectionDialog)
    → d.is_open ≡ true
    → IsSound d
    → IsSound (forward_from s d)
forward_from-IsSound choose d on h = still_open on h refl refl refl
forward_from-IsSound instruct d on h = still_open on h refl refl refl
forward_from-IsSound credentials d on h = h

submit-IsSound : (d : ConnectionDialog) → d.is_open ≡ true → IsSound d → IsSound (submit d)
unfolding submit
submit-IsSound d on h = record {
  past = ground (arith, any-snoc (is_foreign d) d.pending d.instance_number, h.past, on);
  blank = λ off. cc;
}

pub dialog_action-IsSound :
    (a : DialogAction) (d : ConnectionDialog)
    → d.is_open ≡ true
    → IsSound d
    → IsSound (dialog_action a d)
unfolding dialog_action select_provider go_back go_forward
dialog_action-IsSound close d on h = closing-IsSound d h
dialog_action-IsSound back d on h =
    back_from-IsSound d.step (record d { error_message = none }) on (still_open on h refl refl refl)
dialog_action-IsSound forward d on h =
    forward_from-IsSound d.step (record d { error_message = none }) on
      (still_open on h refl refl refl)
dialog_action-IsSound send d on h = submit-IsSound d on h
dialog_action-IsSound (pick provider) d on h =
    if-IsSound (same_provider provider d.provider) d _ h (still_open on h refl refl refl)
dialog_action-IsSound _ d on h = still_open on h refl refl refl
