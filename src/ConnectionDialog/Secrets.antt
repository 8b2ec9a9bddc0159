-- ===== src/ConnectionDialog/Secrets.antt =====
-- A closed dialog keeps no credentials and shows no error.
use justprojects.Base.{
  ℕ, List, ◌++◌, inl, inr, Bool-cases, ◌≡◌, refl, true, false, [], ◌∷◌, arith, any, any-insert,
  ◌||◌, nat_eq, if◌then◌else◌, ◌∙◌, sym, ap,
}
use justprojects.Types.{GitConnection}
use justprojects.Answers.{Cause, Ended, answered, failed}
use justprojects.ConnectionDialog.{
  ConnectionDialog, after_submit, stop_saving, show_error, opens, acts, ends, DialogReach, start,
  then_step,
}
use justprojects.ConnectionDialog.Instances.{
  IsBlank, is_foreign, IsSound, still_open, reset-IsSound, if-IsSound, set_open-IsSound,
  dialog_action-IsSound,
}

stop_saving-IsSound : (d : ConnectionDialog) → IsSound d → IsSound (stop_saving d)
stop_saving-IsSound d h = record {
  past = h.past;
  blank = λ off. record {
    token = (h.blank off).token;
    secret = (h.blank off).secret;
    named = (h.blank off).named;
    first_step = (h.blank off).first_step;
    provided = (h.blank off).provided;
    idle = refl;
    fine = (h.blank off).fine;
  };
}

created-IsSound :
    (c : GitConnection) (d : ConnectionDialog)
    → IsSound d
    → IsSound (record d { created = d.created ++ c ∷ [] })
created-IsSound c d h = record {
  past = h.past;
  blank = λ off. record {
    token = (h.blank off).token;
    secret = (h.blank off).secret;
    named = (h.blank off).named;
    first_step = (h.blank off).first_step;
    provided = (h.blank off).provided;
    idle = (h.blank off).idle;
    fine = (h.blank off).fine;
  };
}

-- An instance that may still set its state is the open one.
own_open :
    (i : ℕ) (d : ConnectionDialog)
    → is_foreign d i ≡ false
    → nat_eq i d.instance_number ≡ true
    → d.is_open ≡ true
own_open i d own same = ground arith

show_error-IsSound :
    (i : ℕ) (c : Cause) (d : ConnectionDialog)
    → is_foreign d i ≡ false
    → IsSound d
    → IsSound (if nat_eq i d.instance_number then show_error c d else d)
show_error-IsSound i c d own h = elim (Bool-cases (nat_eq i d.instance_number)) [
  | inl same ↦ rw same (still_open (own_open i d own same) h refl refl refl)
  | inr other ↦ rw other h
]

after_submit-IsSound :
    (i : ℕ) (o : Ended GitConnection) (d : ConnectionDialog)
    → is_foreign d i ≡ false
    → IsSound d
    → IsSound (after_submit i o d)
unfolding after_submit
after_submit-IsSound i (answered c) d own h =
    let listed = record d { created = d.created ++ c ∷ [] } in
    let listed_sound : IsSound listed = created-IsSound c d h in
    let closed_sound = set_open-IsSound false _ (
      if-IsSound (nat_eq i d.instance_number) _ _ (reset-IsSound listed listed_sound)
        listed_sound) in
    if-IsSound _ _ _ (stop_saving-IsSound _ closed_sound) closed_sound
after_submit-IsSound i (failed c) d own h =
    let told = show_error-IsSound i c d own h in if-IsSound _ _ _ (stop_saving-IsSound _ told) told

-- A request that ends leaves the others.
taken-IsSound :
    (before after : List ℕ) (i : ℕ) (d : ConnectionDialog)
    → d.pending ≡ before ++ i ∷ after
    → IsSound d
    → (is_foreign d i ≡ false) × IsSound (record d { pending = before ++ after })
taken-IsSound before after i d e h =
    let split : (is_foreign d i || any (is_foreign d) (before ++ after)) ≡ false =
      sym (ap (any (is_foreign d)) e ∙ any-insert (is_foreign d) before after i) ∙ h.past in
    (
      ground (arith, split),
      record {
        past = ground (arith, split);
        blank = λ off. record {
          token = (h.blank off).token;
          secret = (h.blank off).secret;
          named = (h.blank off).named;
          first_step = (h.blank off).first_step;
          provided = (h.blank off).provided;
          idle = (h.blank off).idle;
          fine = (h.blank off).fine;
        };
      },
    )

reached-IsSound : (d : ConnectionDialog) → DialogReach d → IsSound d
reached-IsSound d start = record {
  past = refl;
  blank = λ off. record {
    token = refl;
    secret = refl;
    named = refl;
    first_step = refl;
    provided = refl;
    idle = refl;
    fine = refl;
  };
}
reached-IsSound d (then_step r (opens e)) = set_open-IsSound true e (reached-IsSound e r)
reached-IsSound d (then_step r (acts a e on)) = dialog_action-IsSound a e on (reached-IsSound e r)
reached-IsSound d (then_step r (ends before after i o e taken)) =
    let left = taken-IsSound before after i e taken (reached-IsSound e r) in
    after_submit-IsSound i o (record e { pending = before ++ after }) left.0 left.1

-- Whatever is done with the dialog, which is mounted anew whenever it is opened or closed, and
-- whenever its requests end, also those of earlier openings: while it is closed it holds no access
-- token, no webhook secret and no name, stands at its first step with the first provider, is not
-- saving and shows no error.
pub closed-IsBlank : (d : ConnectionDialog) → DialogReach d → d.is_open ≡ false → IsBlank d
closed-IsBlank d r off = (reached-IsSound d r).blank off
