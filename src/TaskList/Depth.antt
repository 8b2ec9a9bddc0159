-- ===== src/TaskList/Depth.antt =====
-- The nested list always comes to an end: `walk` with as much fuel as `visibleTasks` gives it has a
-- result.
use justprojects.Base.{
  ℕ, suc, zero, String, ◌+◌, ◌<◌, ◌≡◌, refl, Bool, Option, none, some, List, [], ◌∷◌, ◌++◌, filter,
  length, All, arith, Bool-cases, inl, inr, same_text_iff, if◌then◌else◌,
}
use mathlib.Core.List.{Memᴰ}
use justprojects.Types.{present, Task}
use justprojects.TaskList.{Rows, both, has_parent, walk_loop, walk, visible_tasks}
use justprojects.TaskList.Path.{IsPath, IsDistinct, end_of, HaveOneParent, longer, length-distinct}

abbrev IsSome : Option Rows → Type 0
IsSome o = (rows : Rows) × (o ≡ some rows)

both-IsSome : (a b : Option Rows) → IsSome a → IsSome b → IsSome (both a b)
both-IsSome none b (rows, e) h = cc
both-IsSome (some xs) none h (rows, e) = cc
both-IsSome (some xs) (some ys) h k = (xs ++ ys, refl)

-- The children that `walk` visits are tasks of the list, and have the parent.
abbrev pub Children : List Task → Option String → List Task → Type 0
Children tasks parent = All (λ t. Memᴰ t tasks × (present t.parent_id ≡ parent))

Children-more :
    (parent : Option String) (t : Task) (tasks ts : List Task)
    → Children tasks parent ts
    → Children (t ∷ tasks) parent ts
Children-more parent t tasks [] h = tt
Children-more parent t tasks (u ∷ us) h =
    ((Memᴰ.tail h.0.0, h.0.1), Children-more parent t tasks us h.1)

pub filter-Children :
    (parent : Option String) (tasks : List Task)
    → Children tasks parent (filter (has_parent parent) tasks)
filter-Children parent [] = tt
filter-Children parent (t ∷ ts) =
    let rest =
      Children-more parent t ts (filter (has_parent parent) ts) (filter-Children parent ts) in
    elim (Bool-cases (has_parent parent t)) [
      | inl own ↦
          rw own ((Memᴰ.head refl, (same_text_iff (present t.parent_id) parent).0 own), rest)
      | inr other ↦ rw other rest
    ]

walk_loop-IsSome :
    (expanded : String → Bool) (inner : Option String → ℕ → Option Rows) (depth : ℕ)
    (ts : List Task)
    → All (λ t. IsSome (inner (some t.id) (depth + 1))) ts
    → IsSome (walk_loop expanded inner depth ts)
walk_loop-IsSome expanded inner depth [] h = ([], refl)
walk_loop-IsSome expanded inner depth (t ∷ ts) h =
    let below : IsSome (if expanded t.id then inner (some t.id) (depth + 1) else some []) =
      elim (Bool-cases (expanded t.id)) [
        | inl opened ↦ rw opened h.0
        | inr closed ↦ rw closed ([], refl)
      ] in
    both-IsSome _ _ (both-IsSome _ _ ((t, depth) ∷ [], refl) below)
      (walk_loop-IsSome expanded inner depth ts h.1)

-- What `walk` has reached: the path of the tasks that it is inside, the innermost first.
record IsInside (tasks path : List Task) : Type 0 where
  linked : IsPath path
  distinct : IsDistinct path
  listed : All (λ u. Memᴰ u tasks) path

module _ (expanded : String → Bool) (tasks : List Task) (one : HaveOneParent tasks) where
  each_child :
      (fuel depth : ℕ) (path ts : List Task)
      → IsInside tasks path
      → length tasks < suc fuel + length path
      → ((t : Task)
          → IsInside tasks (t ∷ path)
          → IsSome (walk expanded tasks fuel (some t.id) depth))
      → Children tasks (end_of path) ts
      → All (λ t. IsSome (walk expanded tasks fuel (some t.id) depth)) ts
  each_child fuel depth path [] i enough down h = tt
  each_child fuel depth path (t ∷ ts) i enough down h =
      let more = longer tasks t path one h.0.0 i.listed h.0.1 i.linked i.distinct in
      (
        down t (record { linked = more.0; distinct = more.1; listed = (h.0.0, i.listed) }),
        each_child fuel depth path ts i enough down h.1,
      )

  walk-IsSome :
      (fuel depth : ℕ) (path : List Task)
      → IsInside tasks path
      → length tasks < fuel + length path
      → IsSome (walk expanded tasks fuel (end_of path) depth)
  unfolding walk
  walk-IsSome zero depth path i enough =
      absurd (omega (arith, length-distinct path tasks i.distinct i.listed))
  walk-IsSome (suc fuel) depth path i enough =
      walk_loop-IsSome expanded (walk expanded tasks fuel) depth
        (filter (has_parent (end_of path)) tasks)
        (each_child fuel (depth + 1) path (filter (has_parent (end_of path)) tasks) i enough
          (λ t inside. walk-IsSome fuel (depth + 1) (t ∷ path) inside (omega arith))
          (filter-Children (end_of path) tasks))

-- Whatever is expanded, the nested list comes to an end, also where tasks are their own ancestors,
-- as long as the tasks of one identifier have one parent.
pub visible_tasks_total :
    (expanded : String → Bool) (tasks : List Task)
    → HaveOneParent tasks
    → (rows : Rows) × (visible_tasks expanded tasks ≡ some rows)
unfolding visible_tasks
visible_tasks_total expanded tasks one =
    walk-IsSome expanded tasks one (length tasks + 1) 0 []
      (record { linked = tt; distinct = tt; listed = tt }) (omega arith)
