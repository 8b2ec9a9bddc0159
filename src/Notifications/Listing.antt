-- ===== src/Notifications/Listing.antt =====
-- What reading a notification does to the list.
use justprojects.Base.{
  String, ◌≡◌, refl, ap, ◌∙◌, Bool, true, false, Option, none, some, List, [], ◌∷◌, ◌++◌, any,
  filter, arith, eq_refl,
}
use justprojects.Types.{Notification, reference}
use justprojects.Workspace.{fulfilled}
use justprojects.Notifications.{
  Bell, has_notification_id, is_unread, unread, replace_notification, after_read, follow,
}

filter-append :
    (p : Notification → Bool) (xs ys : List Notification)
    → filter p (xs ++ ys) ≡ filter p xs ++ filter p ys
filter-append p [] ys = refl
filter-append p (x ∷ xs) ys = ground (arith, filter-append p xs ys)

replace_none :
    (id : String) (updated : Notification) (xs : List Notification)
    → any (has_notification_id id) xs ≡ false
    → replace_notification id updated xs ≡ xs
replace_none id updated [] h = refl
replace_none id updated (x ∷ xs) h = ground (arith, replace_none id updated xs)

replace_in :
    (n updated : Notification) (before after : List Notification)
    → any (has_notification_id n.id) before ≡ false
    → any (has_notification_id n.id) after ≡ false
    → replace_notification n.id updated (before ++ n ∷ after) ≡ before ++ updated ∷ after
replace_in n updated [] after h k = ground (arith, eq_refl n.id, replace_none n.id updated after k)
replace_in n updated (x ∷ xs) after h k = ground (arith, replace_in n updated xs after)

follow_list : (link : Option String) (b : Bell) → (follow link b).notifications ≡ b.notifications
follow_list none b = refl
follow_list (some page) b = refl

-- Reading an unread notification that is listed once takes exactly it off the unread ones, if the
-- server answers with a read one.
pub unread-after_read :
    (n updated : Notification) (before after : List Notification) (b : Bell)
    → b.notifications ≡ before ++ n ∷ after
    → any (has_notification_id n.id) before ≡ false
    → any (has_notification_id n.id) after ≡ false
    → is_unread n ≡ true
    → is_unread updated ≡ false
    → (unread b ≡ filter is_unread before ++ n ∷ filter is_unread after)
      × (unread (after_read n (fulfilled updated) b)
          ≡ filter is_unread before ++ filter is_unread after)
unfolding after_read
unread-after_read n updated before after b shown early late new old = (
  rw (shown, filter-append is_unread before (n ∷ after))
      (ap (λ r. filter is_unread before ++ r) (rw new refl)),
  ap (filter is_unread) (
        follow_list (reference n.link) _
        ∙ ap (replace_notification n.id updated) shown
        ∙ replace_in n updated before after early late)
      ∙ filter-append is_unread before (updated ∷ after)
      ∙ ap (λ r. filter is_unread before ++ r) (rw old refl),
)
