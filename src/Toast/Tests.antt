-- ===== src/Toast/Tests.antt =====
-- Toasts at concrete inputs.
use justprojects.Base.{◌≡◌, refl, none, some, List, [], ◌∷◌, map, String}
use justprojects.Toast.{
  ToastInput, Toasts, no_toasts, make_toast, show_toast, dismiss_toast, show, dismiss, ToastEvent,
  toast_run, toast_event, timeout_of, error,
}
use justprojects.Toast.Order.{IsTidy, toast_run-IsTidy}

abbrev input : String → ToastInput
input message = record { kind = none; title = none; message = message; duration = none }

abbrev events : List ToastEvent
events =
    show (input "a")
    ∷ show (input "b")
    ∷ show (input "c")
    ∷ show (input "d")
    ∷ dismiss 1
    ∷ show (input "e")
    ∷ show (input "f")
    ∷ []

run_keeps_newest :
    map (λ t. t.message) (toast_run events no_toasts).shown ≡ "c" ∷ "d" ∷ "e" ∷ "f" ∷ []
unfolding toast_run toast_event show_toast dismiss_toast
run_keeps_newest = refl

timeouts :
    (timeout_of (make_toast (input "a") 0) ≡ some 4500)
    × (timeout_of (
          make_toast
            (record { kind = some error; title = none; message = "a"; duration = some 0 })
            0)
        ≡ none)
unfolding timeout_of
timeouts = (refl, refl)

toast_run-IsTidy_example : IsTidy (toast_run events no_toasts)
toast_run-IsTidy_example = toast_run-IsTidy events

abbrev two : Toasts
two = record { shown = make_toast (input "a") 0 ∷ make_toast (input "b") 1 ∷ []; next_id = 2 }
