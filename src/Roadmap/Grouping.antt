-- ===== src/Roadmap/Grouping.antt =====
-- The tasks of each milestone.
use justprojects.Base.{
  String, ◌≡◌, refl, ◌≢◌, Bool, false, Option, none, some, List, [], ◌∷◌, ◌++◌, ◌==◌, filter, arith,
  eq_iff, if◌then◌else◌,
}
use mathlib.Core.List.{append_assoc, append-nil}
use justprojects.Types.{Slot, undefined, null, value, reference, Task}
use justprojects.Roadmap.{
  Groups, group, set_group, add_to_group, group_tasks, tasks_by_milestone, in_milestone,
}

-- the milestone that a task names, as a group
abbrev names : String → Option String → Bool
names id none = false
names id (some m) = m == id

abbrev belongs : String → Task → Bool
belongs id t = names id (reference t.milestone_id)

group-set_group :
    (key id : String) (items : List Task) (groups : Groups)
    → group id (set_group key items groups) ≡ (if key == id then items else group id groups)
unfolding group set_group
group-set_group key id items [] = refl
group-set_group key id items ((k, old) ∷ rest) =
    ground (arith, eq_iff k key, eq_iff k id, eq_iff key id, group-set_group key id items rest)

group-add_to_group :
    (id : String) (t : Task) (name : Option String) (groups : Groups)
    → group id (add_to_group t name groups)
      ≡ (if names id name then group id groups ++ t ∷ [] else group id groups)
group-add_to_group id t none groups = refl
group-add_to_group id t (some m) groups =
    ground (arith, eq_iff m id, group-set_group m id (group m groups ++ t ∷ []) groups)

group-group_tasks :
    (id : String) (ts : List Task) (groups : Groups)
    → group id (group_tasks ts groups) ≡ group id groups ++ filter (belongs id) ts
unfolding group_tasks
group-group_tasks id [] groups = rw append-nil
group-group_tasks id (t ∷ ts) groups =
    let next = add_to_group t (reference t.milestone_id) groups in
    ground (
      arith,
      group-group_tasks id ts next,
      group-add_to_group id t (reference t.milestone_id) groups,
      append_assoc (group id groups) (t ∷ []) (filter (belongs id) ts),
    )

belongs-in_milestone :
    (id : String) (s : Slot String)
    → id ≢ ""
    → names id (reference s) ≡ elim s [ undefined ↦ false | null ↦ false | value m ↦ m == id ]
belongs-in_milestone id undefined n = refl
belongs-in_milestone id null n = refl
belongs-in_milestone id (value m) n = ground (arith, eq_iff m "", eq_iff m id)

filter-belongs :
    (id : String) (ts : List Task) → id ≢ "" → filter (belongs id) ts ≡ filter (in_milestone id) ts
filter-belongs id [] n = refl
filter-belongs id (t ∷ ts) n =
    ground (arith, belongs-in_milestone id t.milestone_id n, filter-belongs id ts n)

-- The group of a milestone holds exactly the tasks that name it, in the order of the task list; the
-- empty text names no milestone.
pub group-tasks_by_milestone :
    (id : String) (tasks : List Task)
    → id ≢ ""
    → group id (tasks_by_milestone tasks) ≡ filter (in_milestone id) tasks
unfolding tasks_by_milestone group
group-tasks_by_milestone id tasks n = rw (group-group_tasks id tasks [], filter-belongs id tasks n)
