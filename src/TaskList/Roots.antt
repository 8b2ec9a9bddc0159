-- ===== src/TaskList/Roots.antt =====
-- Which tasks the nested list shows, and how deep.
use justprojects.Base.{
  ℕ, suc, zero, String, ◌+◌, ◌<◌, ◌≡◌, refl, sym, Bool, true, Option, none, some, List, [], ◌∷◌,
  filter, length, All, All-append, arith, Bool-cases, inl, inr, if◌then◌else◌,
}
use mathlib.Core.List.{Memᴰ}
use mathlib.Core.Path.{subst}
use justprojects.Types.{present, Task}
use justprojects.TaskList.{Rows, both, has_parent, walk_loop, walk, visible_tasks}
use justprojects.TaskList.Depth.{Children, filter-Children}

abbrev Each : (Task × ℕ → Type 0) → Option Rows → Type 0
Each P none = Unit
Each P (some rows) = All P rows

both-Each : (P : Task × ℕ → Type 0) (a b : Option Rows) → Each P a → Each P b → Each P (both a b)
both-Each P none b h k = tt
both-Each P (some xs) none h k = tt
both-Each P (some xs) (some ys) h k = All-append P xs ys h k

module _ (expanded : String → Bool) (tasks : List Task) where
  -- Below this parent, tasks are shown at this depth: it is no parent at depth 0, or an expanded one.
  abbrev pub IsOpen : Option String → ℕ → Type 0
  IsOpen none depth = depth ≡ 0
  IsOpen (some id) depth = (expanded id ≡ true) × (0 < depth)

  abbrev pub IsShown : Task × ℕ → Type 0
  IsShown (t, depth) = Memᴰ t tasks × IsOpen (present t.parent_id) depth

  walk_loop-IsShown :
      (inner : Option String → ℕ → Option Rows) (parent : Option String) (depth : ℕ)
      (ts : List Task)
      → ((id : String) → expanded id ≡ true → Each IsShown (inner (some id) (depth + 1)))
      → IsOpen parent depth
      → Children tasks parent ts
      → Each IsShown (walk_loop expanded inner depth ts)
  walk_loop-IsShown inner parent depth [] down o h = tt
  walk_loop-IsShown inner parent depth (t ∷ ts) down o h =
      let below : Each IsShown (if expanded t.id then inner (some t.id) (depth + 1) else some []) =
        elim (Bool-cases (expanded t.id)) [
          | inl opened ↦ rw opened (down t.id opened)
          | inr closed ↦ rw closed tt
        ] in
      both-Each IsShown _ _
        (both-Each IsShown (some ((t, depth) ∷ [])) _
          ((h.0.0, subst (λ p. IsOpen p depth) (sym h.0.1) o), tt) below)
        (walk_loop-IsShown inner parent depth ts down o h.1)

  walk-IsShown :
      (fuel depth : ℕ) (parent : Option String)
      → IsOpen parent depth
      → Each IsShown (walk expanded tasks fuel parent depth)
  unfolding walk
  walk-IsShown zero depth parent o = tt
  walk-IsShown (suc fuel) depth parent o =
      walk_loop-IsShown (walk expanded tasks fuel) parent depth (filter (has_parent parent) tasks)
        (λ id opened. walk-IsShown fuel (depth + 1) (some id) (opened, omega arith)) o
        (filter-Children parent tasks)

  -- Every row shows a task of the list; it is at depth 0 and has no parent, or deeper and has a parent
  -- whose identifier is expanded.
  pub visible_tasks-IsShown :
      (rows : Rows) → visible_tasks expanded tasks ≡ some rows → All IsShown rows
  unfolding visible_tasks
  visible_tasks-IsShown rows e =
      subst (Each IsShown) e (walk-IsShown (length tasks + 1) 0 none refl)
