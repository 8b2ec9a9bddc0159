-- ===== src/Notifications/Tests.antt =====
-- The bell at concrete inputs.
use justprojects.Base.{String, refl, true, some, [], ◌∷◌}
use justprojects.Types.{Notification, null, value}
use justprojects.Workspace.{fulfilled}
use justprojects.Notifications.{
  start_load, Bell, mounted_bell, BellReach, act, reply, here, next, load_now, clear_now,
  remove_one, gesture, settle, listing,
}
use justprojects.Notifications.Settled.{IsHonest, signs-IsHonest}

abbrev note : String → Notification
note id = record {
  id = id;
  kind = "request";
  title = "A request";
  body = "";
  link = value "/projects/rkt";
  read_at = null;
  created_at = "2024-05-01";
}

abbrev seen : Notification
seen = record (note "n1") { read_at = value "2024-05-02" }

-- loaded, then one removed and all cleared, with both requests in flight
abbrev loaded : Bell
loaded =
    settle listing (fulfilled (some (note "n1" ∷ note "n2" ∷ [])))
      (record (gesture load_now (mounted_bell true)) { pending = [] })

abbrev busy : Bell
busy = gesture clear_now (gesture (remove_one (note "n1")) loaded)

busy_reached : BellReach (mounted_bell true) busy
unfolding gesture settle start_load
busy_reached =
    next
      (next
        (next (next here (act load_now (mounted_bell true))) (
          reply [] [] listing (fulfilled (some (note "n1" ∷ note "n2" ∷ [])))
            (gesture load_now (mounted_bell true)) refl))
        (act (remove_one (note "n1")) loaded))
      (act clear_now (gesture (remove_one (note "n1")) loaded))

signs-IsHonest_example : IsHonest busy
signs-IsHonest_example = signs-IsHonest true busy busy_reached

abbrev two_notes : Bell
two_notes = record (mounted_bell true) { notifications = note "n0" ∷ note "n1" ∷ [] }
