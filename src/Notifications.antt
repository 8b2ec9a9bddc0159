-- ===== src/Notifications.antt =====
-- The bell of services/frontend/components/notification-bell.tsx: `NotificationBell` with `load`,
-- `remove`, `clearAll` and `read`, each cut at its `await`. The field `kind` of a notification is the
-- source's `type`.
pub mod Settled
pub mod Listing
mod Tests
use justprojects.Base.{
  ℕ, String, ◌≡◌, Bool, true, false, not, ◌||◌, ◌==◌, Option, none, some, get_or, List, [], ◌∷◌,
  ◌++◌, map, any, filter, if◌then◌else◌,
}
use justprojects.Types.{Slot, reference, Notification}
use justprojects.Workspace.{Outcome, fulfilled, rejected}

-- a request in flight, with what the code behind its `await` keeps
pub data Request : Type 0 where
  listing : Request
  deleting : String → Request
  emptying : Request
  marking : Notification → Request

-- The state of the component, the requests in flight, and the pages that it has opened.
pub record Bell : Type 0 where
  pub enabled : Bool
  pub notifications : List Notification
  pub loading : Bool
  pub is_open : Bool
  pub removing_ids : List String
  pub clearing : Bool
  pub pending : List Request
  pub pages : List String

abbrev pub mounted_bell : Bool → Bell
mounted_bell enabled = record {
  enabled = enabled;
  notifications = [];
  loading = false;
  is_open = false;
  removing_ids = [];
  clearing = false;
  pending = [];
  pages = [];
}

abbrev pub ask : Request → Bell → Bell
ask q b = record b { pending = b.pending ++ q ∷ [] }

abbrev pub has_notification_id : String → Notification → Bool
has_notification_id id item = item.id == id

-- `new Set(current).add(id)` and `next.delete(id)`
abbrev pub add_id : String → List String → List String
add_id id ids = if any (λ other. other == id) ids then ids else ids ++ id ∷ []

abbrev pub delete_id : String → List String → List String
delete_id id = filter (λ other. not (other == id))

-- `!readAt`
abbrev pub is_unread : Notification → Bool
is_unread n = elim (reference n.read_at) [ none ↦ true | some time ↦ false ]

-- `unread`
abbrev pub unread : Bell → List Notification
unread b = filter is_unread b.notifications

unfoldable pub start_load : Bool → Bell → Bell
start_load silent b =
    if b.enabled then ask listing (if silent then b else record b { loading = true }) else b

unfoldable pub after_load : Outcome (Option (List Notification)) → Bell → Bell
after_load (fulfilled items) b = record b { notifications = get_or items []; loading = false }
after_load (rejected f) b = record b { loading = false }

-- the timer, every five seconds
unfoldable pub tick : Bool → Bell → Bell
tick hidden b = if hidden then b else start_load true b

unfoldable pub start_remove : Notification → Bell → Bell
start_remove n b = ask (deleting n.id) (record b { removing_ids = add_id n.id b.removing_ids })

unfoldable pub after_remove : String → Outcome (Unit {0}) → Bell → Bell
after_remove id (fulfilled done) b = record b {
  notifications = filter (λ item. not (has_notification_id id item)) b.notifications;
  removing_ids = delete_id id b.removing_ids;
}
after_remove id (rejected f) b = record b { removing_ids = delete_id id b.removing_ids }

abbrev pub is_empty : List Notification → Bool
is_empty [] = true
is_empty (n ∷ ns) = false

unfoldable pub start_clear : Bell → Bell
start_clear b =
    if is_empty b.notifications || b.clearing
    then b
    else ask emptying (record b { clearing = true })

unfoldable pub after_clear : Outcome (Unit {0}) → Bell → Bell
after_clear (fulfilled done) b = record b { notifications = []; clearing = false }
after_clear (rejected f) b = record b { clearing = false }

-- the end of `read`
abbrev pub follow : Option String → Bell → Bell
follow none b = b
follow (some link) b = record b { is_open = false; pages = b.pages ++ link ∷ [] }

unfoldable pub start_read : Notification → Bell → Bell
start_read n b = if is_unread n then ask (marking n) b else follow (reference n.link) b

abbrev pub replace_notification : String → Notification → List Notification → List Notification
replace_notification id updated =
    map (λ item. if has_notification_id id item then updated else item)

unfoldable pub after_read : Notification → Outcome Notification → Bell → Bell
after_read n (fulfilled updated) b =
    follow (reference n.link)
      (record b { notifications = replace_notification n.id updated b.notifications })
after_read n (rejected f) b = b

-- what the server answers to each request, and the code behind its `await`
abbrev pub Reply : Request → Type 0
Reply listing = Option (List Notification)
Reply (deleting id) = Unit {0}
Reply emptying = Unit {0}
Reply (marking n) = Notification

unfoldable pub settle : (q : Request) → Outcome (Reply q) → Bell → Bell
settle listing = after_load
settle (deleting id) = after_remove id
settle emptying = after_clear
settle (marking n) = after_read n

pub data Gesture : Type 0 where
  load_now clear_now : Gesture
  timer : Bool → Gesture
  remove_one read_one : Notification → Gesture
  set_open : Bool → Gesture

unfoldable pub gesture : Gesture → Bell → Bell
gesture load_now b = start_load false b
gesture clear_now b = start_clear b
gesture (timer hidden) b = tick hidden b
gesture (remove_one n) b = start_remove n b
gesture (read_one n) b = start_read n b
gesture (set_open shown) b = record b { is_open = shown }

-- One step: what the user or the timer does, or the answer to any request in flight.
pub data BellStep : Bell → Bell → Type 0 where
  act : (g : Gesture) (b : Bell) → BellStep b (gesture g b)
  reply :
      (before after : List Request) (q : Request) (o : Outcome (Reply q)) (b : Bell)
      → b.pending ≡ before ++ q ∷ after
      → BellStep b (settle q o (record b { pending = before ++ after }))

pub data BellReach (start : Bell) : Bell → Type 0 where
  here : BellReach start start
  next : {a b : Bell} → BellReach start a → BellStep a b → BellReach start b
