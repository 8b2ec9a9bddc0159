-- ===== src/Toast.antt =====
-- The toasts of services/frontend/components/toast-provider.tsx: `showToast`, `dismissToast` and the
-- timer of a shown toast.
pub mod Order
mod Tests
use justprojects.Base.{
  ℕ, String, Bool, Option, none, some, get_or, List, [], ◌∷◌, ◌++◌, ◌+◌, ◌-◌, not, nat_eq, length,
  drop, filter, if◌then◌else◌,
}

pub data ToastKind : Type 0 where
  success error info : ToastKind

pub record ToastInput : Type 0 where
  pub kind : Option ToastKind
  pub title : Option String
  pub message : String
  pub duration : Option ℕ

-- `ToastInput & { id }`
pub record Toast : Type 0 where
  pub kind : Option ToastKind
  pub title : Option String
  pub message : String
  pub duration : Option ℕ
  pub id : ℕ

-- the state `toasts` and the reference `nextId` of `ToastProvider`
pub record Toasts : Type 0 where
  pub shown : List Toast
  pub next_id : ℕ

abbrev pub no_toasts : Toasts
no_toasts = record { shown = []; next_id = 0 }

abbrev pub max_toasts : ℕ
max_toasts = 4

-- `xs.slice(-n)` for a positive `n`
abbrev pub slice_last {ℓ} : {A : Type ℓ} → ℕ → List A → List A
slice_last n xs = drop (length xs - n) xs

-- `{ ...input, id, kind: input.kind ?? "success" }`
abbrev pub make_toast : ToastInput → ℕ → Toast
make_toast input id = record {
  kind = some (get_or input.kind success);
  title = input.title;
  message = input.message;
  duration = input.duration;
  id = id;
}

pub show_toast : ToastInput → Toasts → Toasts
show_toast input s = record {
  shown = slice_last max_toasts (s.shown ++ make_toast input s.next_id ∷ []);
  next_id = s.next_id + 1;
}

pub dismiss_toast : ℕ → Toasts → Toasts
dismiss_toast id s = record s { shown = filter (λ toast. not (nat_eq toast.id id)) s.shown }

-- When `ToastItem` dismisses its toast by itself, in milliseconds; zero means never.
pub timeout_of : Toast → Option ℕ
timeout_of toast =
    let delay = get_or toast.duration 4500 in if nat_eq delay 0 then none else some delay

pub data ToastEvent : Type 0 where
  show : ToastInput → ToastEvent
  dismiss : ℕ → ToastEvent

pub toast_event : ToastEvent → Toasts → Toasts
toast_event (show input) = show_toast input
toast_event (dismiss id) = dismiss_toast id

-- what a sequence of events leaves
pub toast_run : List ToastEvent → Toasts → Toasts
toast_run [] s = s
toast_run (e ∷ es) s = toast_run es (toast_event e s)
