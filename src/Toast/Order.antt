-- ===== src/Toast/Order.antt =====
-- How many toasts are shown, and in which order.
use justprojects.Base.{
  ℕ, suc, zero, ◌+◌, ◌-◌, ◌≤◌, ◌<◌, ◌≡◌, refl, Bool, not, List, [], ◌∷◌, ◌++◌, nat_eq, arith,
  length, drop, filter, All, length-append, length-drop, length-filter, Bool-cases, inl, inr,
  All-append, All-filter,
}
use justprojects.Toast.{
  ToastInput, Toast, Toasts, no_toasts, max_toasts, make_toast, show_toast, dismiss_toast,
  ToastEvent, show, dismiss, toast_event, toast_run,
}

-- Older toasts stand first, and every identifier was given out before `bound`.
abbrev pub IsAscending : ℕ → List Toast → Type 0
IsAscending bound [] = Unit
IsAscending bound (t ∷ ts) = (t.id < bound) × All (λ u. t.id < u.id) ts × IsAscending bound ts

pub record IsTidy (s : Toasts) : Type 0 where
  pub few : length s.shown ≤ max_toasts
  pub ascending : IsAscending s.next_id s.shown

above : (bound : ℕ) (ts : List Toast) → IsAscending bound ts → All (λ u. u.id < bound) ts
above bound [] h = tt
above bound (t ∷ ts) h = (h.0, above bound ts h.2)

All-snoc :
    (k : ℕ) (ts : List Toast) (t : Toast)
    → All (λ u. k < u.id) ts
    → k < t.id
    → All (λ u. k < u.id) (ts ++ t ∷ [])
All-snoc k ts t h lt = All-append (λ u. k < u.id) ts (t ∷ []) h (lt, tt)

IsAscending-snoc :
    (bound : ℕ) (ts : List Toast) (t : Toast)
    → IsAscending bound ts
    → t.id ≡ bound
    → IsAscending (bound + 1) (ts ++ t ∷ [])
IsAscending-snoc bound [] t h e = (omega arith, tt, tt)
IsAscending-snoc bound (u ∷ ts) t h e =
    (omega arith, All-snoc u.id ts t h.1 (omega (arith, h.0)), IsAscending-snoc bound ts t h.2 e)

IsAscending-drop :
    (n bound : ℕ) (ts : List Toast) → IsAscending bound ts → IsAscending bound (drop n ts)
IsAscending-drop zero bound ts h = h
IsAscending-drop (suc n) bound [] h = tt
IsAscending-drop (suc n) bound (t ∷ ts) h = IsAscending-drop n bound ts h.2

IsAscending-filter :
    (p : Toast → Bool) (bound : ℕ) (ts : List Toast)
    → IsAscending bound ts
    → IsAscending bound (filter p ts)
IsAscending-filter p bound [] h = tt
IsAscending-filter p bound (t ∷ ts) h = elim (Bool-cases (p t)) [
  | inl e ↦ rw e (h.0, All-filter (λ u. t.id < u.id) p ts h.1, IsAscending-filter p bound ts h.2)
  | inr e ↦ rw e (IsAscending-filter p bound ts h.2)
]

show_toast-IsTidy : (input : ToastInput) (s : Toasts) → IsTidy s → IsTidy (show_toast input s)
unfolding show_toast
show_toast-IsTidy input s h =
    let t = make_toast input s.next_id in
    record {
      few =
          omega (arith, length-drop (length (s.shown ++ t ∷ []) - max_toasts) (s.shown ++ t ∷ []));
      ascending =
          IsAscending-drop (length (s.shown ++ t ∷ []) - max_toasts) (s.next_id + 1)
            (s.shown ++ t ∷ []) (IsAscending-snoc s.next_id s.shown t h.ascending refl);
    }

dismiss_toast-IsTidy : (id : ℕ) (s : Toasts) → IsTidy s → IsTidy (dismiss_toast id s)
unfolding dismiss_toast
dismiss_toast-IsTidy id s h = record {
  few = omega (arith, h.few, length-filter (λ (t : Toast). not (nat_eq t.id id)) s.shown);
  ascending = IsAscending-filter (λ t. not (nat_eq t.id id)) s.next_id s.shown h.ascending;
}

toast_event-IsTidy : (e : ToastEvent) (s : Toasts) → IsTidy s → IsTidy (toast_event e s)
unfolding toast_event
toast_event-IsTidy (show input) s h = show_toast-IsTidy input s h
toast_event-IsTidy (dismiss id) s h = dismiss_toast-IsTidy id s h

run-IsTidy : (es : List ToastEvent) (s : Toasts) → IsTidy s → IsTidy (toast_run es s)
unfolding toast_run
run-IsTidy [] s h = h
run-IsTidy (e ∷ es) s h = run-IsTidy es (toast_event e s) (toast_event-IsTidy e s h)

-- Whatever is shown and dismissed, at most four toasts are shown, the older ones first, each with
-- an identifier of its own that was given out before.
pub toast_run-IsTidy : (es : List ToastEvent) → IsTidy (toast_run es no_toasts)
toast_run-IsTidy es = run-IsTidy es no_toasts (record { few = omega arith; ascending = tt })

drop-append : (n : ℕ) (xs ys : List Toast) → n ≤ length xs → drop n (xs ++ ys) ≡ drop n xs ++ ys
drop-append zero xs ys h = refl
drop-append (suc n) [] ys h = absurd (omega arith)
drop-append (suc n) (x ∷ xs) ys h = drop-append n xs ys (omega arith)

-- A new toast stands last, behind the three newest of those before it; with fewer than four shown
-- before, none is dropped.
pub show_toast_keeps :
    (input : ToastInput) (s : Toasts)
    → (show_toast input s).shown
      ≡ drop (length s.shown - 3) s.shown ++ make_toast input s.next_id ∷ []
unfolding show_toast
show_toast_keeps input s =
    let t = make_toast input s.next_id in
    let same : length (s.shown ++ t ∷ []) - max_toasts ≡ length s.shown - 3 =
      omega (arith, length-append s.shown (t ∷ [])) in
    rw same (drop-append (length s.shown - 3) s.shown (t ∷ []) (omega arith))
