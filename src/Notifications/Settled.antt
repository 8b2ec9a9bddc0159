-- ===== src/Notifications/Settled.antt =====
-- The three signs that something is going on (the loading sign, the sign on a notification that is
-- being removed, and the one of "clear all") over every run.
use justprojects.Base.{
  ap, get_or, ℕ, ◌+◌, String, ◌≡◌, refl, ◌∙◌, Bool, true, false, not, ◌||◌, ◌&&◌, ◌==◌, Option,
  none, some, List, [], ◌∷◌, ◌++◌, any, any-append, any-insert, arith, eq_iff, Bool-cases, inl, inr,
  if◌then◌else◌,
}
use justprojects.Types.{Notification, reference}
use justprojects.Workspace.{Outcome, fulfilled, rejected}
use justprojects.Notifications.{
  Request, listing, deleting, emptying, marking, Bell, mounted_bell, ask, add_id, delete_id,
  start_load, replace_notification, is_empty, after_load, tick, start_remove, after_remove,
  start_clear, after_clear, start_read, after_read, follow, is_unread, Reply, settle, Gesture,
  gesture, act, reply, BellReach, here, next, load_now, clear_now, timer, remove_one, read_one,
  set_open,
}

abbrev pub is_listing : Request → Bool
is_listing q = elim q [
  | listing ↦ true
  | deleting id ↦ false
  | emptying ↦ false
  | marking n ↦ false
]

abbrev pub is_emptying : Request → Bool
is_emptying q = elim q [
  | listing ↦ false
  | deleting id ↦ false
  | emptying ↦ true
  | marking n ↦ false
]

abbrev pub is_deleting : String → Request → Bool
is_deleting id q = elim q [
  | listing ↦ false
  | deleting other ↦ other == id
  | emptying ↦ false
  | marking n ↦ false
]

abbrev one : Bool → ℕ
one true = 1
one false = 0

abbrev pub count : (Request → Bool) → List Request → ℕ
count p [] = 0
count p (q ∷ qs) = one (p q) + count p qs

abbrev pub contains : String → List String → Bool
contains id = any (λ other. other == id)

count-ask :
    (p : Request → Bool) (qs : List Request) (q : Request)
    → count p (qs ++ q ∷ []) ≡ count p qs + one (p q)
count-ask p [] q = omega arith
count-ask p (r ∷ rs) q = omega (arith, count-ask p rs q)

count-reply :
    (p : Request → Bool) (before after : List Request) (q : Request)
    → count p (before ++ q ∷ after) ≡ one (p q) + count p (before ++ after)
count-reply p [] after q = refl
count-reply p (r ∷ rs) after q = omega (arith, count-reply p rs after q)

contains-add_id :
    (id j : String) (ids : List String) → contains j (add_id id ids) ≡ (id == j || contains j ids)
contains-add_id id j ids = ground (arith, any-append (λ o. o == j) ids (id ∷ []), eq_iff id j)

contains-delete_id :
    (id j : String) (ids : List String)
    → contains j (delete_id id ids) ≡ (not (id == j) && contains j ids)
contains-delete_id id j [] = ground arith
contains-delete_id id j (k ∷ ks) =
    ground (arith, contains-delete_id id j ks, eq_iff k id, eq_iff k j, eq_iff id j)

-- Every sign that is shown has its request in flight.
pub record IsHonest (b : Bell) : Type 0 where
  pub loads : b.loading ≡ true → any is_listing b.pending ≡ true
  pub clears : count is_emptying b.pending ≡ (if b.clearing then 1 else 0)
  pub removes :
      (id : String) → contains id b.removing_ids ≡ true → any (is_deleting id) b.pending ≡ true

-- A request that has no sign of its own.
ask-IsHonest : (q : Request) (b : Bell) → is_emptying q ≡ false → IsHonest b → IsHonest (ask q b)
ask-IsHonest q b quiet h = record {
  loads = λ e. ground (arith, h.loads, any-append is_listing b.pending (q ∷ []));
  clears = rw (count-ask is_emptying b.pending q, quiet) (omega (arith, h.clears));
  removes = λ id e. ground (arith, h.removes id, any-append (is_deleting id) b.pending (q ∷ []));
}

loud-IsHonest : (b : Bell) → IsHonest b → IsHonest (ask listing (record b { loading = true }))
loud-IsHonest b h = record {
  loads = λ e. ground (arith, any-append is_listing b.pending (listing ∷ []));
  clears = omega (arith, h.clears, count-ask is_emptying b.pending listing);
  removes =
      λ id e. ground (arith, h.removes id, any-append (is_deleting id) b.pending (listing ∷ []));
}

if-IsHonest :
    (test : Bool) (b c : Bell) → IsHonest b → IsHonest c → IsHonest (if test then b else c)
if-IsHonest true b c h k = h
if-IsHonest false b c h k = k

asked-IsHonest :
    (silent : Bool) (b : Bell)
    → IsHonest b
    → IsHonest (ask listing (if silent then b else record b { loading = true }))
asked-IsHonest true b h = ask-IsHonest listing b refl h
asked-IsHonest false b h = loud-IsHonest b h

start_load-IsHonest : (silent : Bool) (b : Bell) → IsHonest b → IsHonest (start_load silent b)
unfolding start_load
start_load-IsHonest silent b h = if-IsHonest b.enabled _ b (asked-IsHonest silent b h) h

start_remove-IsHonest : (n : Notification) (b : Bell) → IsHonest b → IsHonest (start_remove n b)
unfolding start_remove
start_remove-IsHonest n b h = record {
  loads = λ e. ground (arith, h.loads, any-append is_listing b.pending (deleting n.id ∷ []));
  clears = omega (arith, h.clears, count-ask is_emptying b.pending (deleting n.id));
  removes = λ id e. ground (
    arith,
    h.removes id,
    contains-add_id n.id id b.removing_ids,
    any-append (is_deleting id) b.pending (deleting n.id ∷ []),
  );
}

start_clear-IsHonest : (b : Bell) → IsHonest b → IsHonest (start_clear b)
unfolding start_clear
start_clear-IsHonest b h = elim (Bool-cases (is_empty b.notifications || b.clearing)) [
  | inl idle ↦ rw idle h
  | inr free ↦
      let idle : b.clearing ≡ false = ground arith in
      rw free (record {
        loads = λ e. ground (arith, h.loads, any-append is_listing b.pending (emptying ∷ []));
        clears = rw (count-ask is_emptying b.pending emptying, h.clears, idle) refl;
        removes = λ id e.
            ground (arith, h.removes id, any-append (is_deleting id) b.pending (emptying ∷ []));
      })
]

follow-IsHonest : (link : Option String) (b : Bell) → IsHonest b → IsHonest (follow link b)
follow-IsHonest none b h = h
follow-IsHonest (some page) b h = record { loads = h.loads; clears = h.clears; removes = h.removes }

start_read-IsHonest : (n : Notification) (b : Bell) → IsHonest b → IsHonest (start_read n b)
unfolding start_read
start_read-IsHonest n b h = elim (Bool-cases (is_unread n)) [
  | inl new ↦ rw new (ask-IsHonest (marking n) b refl h)
  | inr old ↦ rw old (follow-IsHonest (reference n.link) b h)
]

gesture-IsHonest : (g : Gesture) (b : Bell) → IsHonest b → IsHonest (gesture g b)
unfolding gesture tick
gesture-IsHonest load_now b h = start_load-IsHonest false b h
gesture-IsHonest clear_now b h = start_clear-IsHonest b h
gesture-IsHonest (timer true) b h = h
gesture-IsHonest (timer false) b h = start_load-IsHonest true b h
gesture-IsHonest (remove_one n) b h = start_remove-IsHonest n b h
gesture-IsHonest (read_one n) b h = start_read-IsHonest n b h
gesture-IsHonest (set_open shown) b h = record {
  loads = h.loads;
  clears = h.clears;
  removes = h.removes;
}

module _ (before after : List Request) (b : Bell) where
  abbrev taken : Bell
  taken = record b { pending = before ++ after }

  any_left :
      (p : Request → Bool) (q : Request)
      → b.pending ≡ before ++ q ∷ after
      → any p b.pending ≡ (p q || any p (before ++ after))
  any_left p q e = ap (any p) e ∙ any-insert p before after q

  count_left :
      (p : Request → Bool) (q : Request)
      → b.pending ≡ before ++ q ∷ after
      → count p b.pending ≡ one (p q) + count p (before ++ after)
  count_left p q e = ap (count p) e ∙ count-reply p before after q

  -- The sign of a load goes off with any answer to a load.
  after_load-IsHonest :
      (shown : List Notification)
      → b.pending ≡ before ++ listing ∷ after
      → IsHonest b
      → IsHonest (record taken { notifications = shown; loading = false })
  after_load-IsHonest shown left h = record {
    loads = λ e. cc;
    clears = omega (arith, h.clears, count_left is_emptying listing left);
    removes = λ id e. ground (arith, h.removes id, any_left (is_deleting id) listing left);
  }

  after_remove-IsHonest :
      (id : String) (shown : List Notification)
      → b.pending ≡ before ++ deleting id ∷ after
      → IsHonest b
      → IsHonest
          (record taken { notifications = shown; removing_ids = delete_id id b.removing_ids })
  after_remove-IsHonest id shown left h = record {
    loads = λ e. ground (arith, h.loads, any_left is_listing (deleting id) left);
    clears = omega (arith, h.clears, count_left is_emptying (deleting id) left);
    removes = λ j e. ground (
      arith,
      h.removes j,
      any_left (is_deleting j) (deleting id) left,
      contains-delete_id id j b.removing_ids,
    );
  }

  after_clear-IsHonest :
      (shown : List Notification)
      → b.pending ≡ before ++ emptying ∷ after
      → IsHonest b
      → IsHonest (record taken { notifications = shown; clearing = false })
  after_clear-IsHonest shown left h = record {
    loads = λ e. ground (arith, h.loads, any_left is_listing emptying left);
    clears = ground (arith, h.clears, count_left is_emptying emptying left);
    removes = λ j e. ground (arith, h.removes j, any_left (is_deleting j) emptying left);
  }

  after_read-IsHonest :
      (n : Notification) (shown : List Notification)
      → b.pending ≡ before ++ marking n ∷ after
      → IsHonest b
      → IsHonest (record taken { notifications = shown })
  after_read-IsHonest n shown left h = record {
    loads = λ e. ground (arith, h.loads, any_left is_listing (marking n) left);
    clears = omega (arith, h.clears, count_left is_emptying (marking n) left);
    removes = λ j e. ground (arith, h.removes j, any_left (is_deleting j) (marking n) left);
  }

  settle-IsHonest :
      (q : Request) (o : Outcome (Reply q))
      → b.pending ≡ before ++ q ∷ after
      → IsHonest b
      → IsHonest (settle q o taken)
  unfolding settle after_load after_remove after_clear after_read
  settle-IsHonest listing (fulfilled items) e h = after_load-IsHonest (get_or items []) e h
  settle-IsHonest listing (rejected f) e h = after_load-IsHonest b.notifications e h
  settle-IsHonest (deleting id) (fulfilled done) e h = after_remove-IsHonest id _ e h
  settle-IsHonest (deleting id) (rejected f) e h = after_remove-IsHonest id b.notifications e h
  settle-IsHonest emptying (fulfilled done) e h = after_clear-IsHonest [] e h
  settle-IsHonest emptying (rejected f) e h = after_clear-IsHonest b.notifications e h
  settle-IsHonest (marking n) (fulfilled updated) e h =
      follow-IsHonest (reference n.link) _
        (after_read-IsHonest n (replace_notification n.id updated b.notifications) e h)
  settle-IsHonest (marking n) (rejected f) e h = after_read-IsHonest n b.notifications e h

BellReach-IsHonest : (a b : Bell) → IsHonest a → BellReach a b → IsHonest b
BellReach-IsHonest a b h here = h
BellReach-IsHonest a b h (next r (act g c)) = gesture-IsHonest g c (BellReach-IsHonest a c h r)
BellReach-IsHonest a b h (next r (reply before after q o c left)) =
    settle-IsHonest before after c q o left (BellReach-IsHonest a c h r)

-- Whatever is done with the bell, and in whatever order the answers come: the loading sign is shown
-- only while a load is in flight, the sign on a notification only while its removal is, and the sign
-- of "clear all" exactly while its request is in flight, which is never there twice.
pub signs-IsHonest : (enabled : Bool) (b : Bell) → BellReach (mounted_bell enabled) b → IsHonest b
signs-IsHonest enabled b r =
    BellReach-IsHonest (mounted_bell enabled) b
      (record { loads = λ e. cc; clears = refl; removes = λ id e. cc }) r
