-- ===== src/Roadmap/Rows.antt =====
-- Which tasks have a row on the roadmap.
use justprojects.Base.{
  String, ◌≡◌, refl, ◌∙◌, sym, Bool, false, ◌&&◌, ◌||◌, List, [], ◌∷◌, map, ◌==◌, filter, any,
  any-append, arith, if◌then◌else◌, Bool-cases, inl, inr,
}
use mathlib.Core.Path.{ap₂}
use justprojects.Types.{Task, Milestone}
use justprojects.Roadmap.{
  Row, Resource, is_root, is_free, in_milestone, task_row, milestone_resource, free_resource,
  gantt_resources,
}

abbrev row_has : String → Row → Bool
row_has id row = row.id == id

abbrev pub has_row : String → List Resource → Bool
has_row id = any (λ r. any (λ row. row.id == id) r.children)

-- A task without a milestone, or with one that is listed.
abbrev pub is_shown : List Milestone → Task → Bool
is_shown milestones task = any (λ m. in_milestone m.id task) milestones || is_free task

any-rows :
    (id : String) (q : Task → Bool) (ts : List Task)
    → any (row_has id) (map task_row (filter q ts)) ≡ any (λ t. t.id == id && q t) ts
any-rows id q [] = refl
any-rows id q (t ∷ ts) = ground (arith, any-rows id q ts)

any-or :
    (p q r : Task → Bool) (ts : List Task)
    → (any (λ t. p t && q t) ts || any (λ t. p t && r t) ts) ≡ any (λ t. p t && (q t || r t)) ts
any-or p q r [] = refl
any-or p q r (t ∷ ts) = ground (arith, any-or p q r ts)

any-none : (p : Task → Bool) (ts : List Task) → any (λ t. p t && false) ts ≡ false
any-none p [] = refl
any-none p (t ∷ ts) = ground (arith, any-none p ts)

any-milestones :
    (id : String) (roots : List Task) (ms : List Milestone)
    → has_row id (map (milestone_resource roots) ms)
      ≡ any (λ t. t.id == id && any (λ m. in_milestone m.id t) ms) roots
any-milestones id roots [] = sym (any-none (λ t. t.id == id) roots)
any-milestones id roots (m ∷ ms) = ground (
  arith,
  any-rows id (in_milestone m.id) roots,
  any-milestones id roots ms,
  any-or (λ t. t.id == id) (in_milestone m.id) (λ t. any (λ k. in_milestone k.id t) ms) roots,
)

none_free :
    (id : String) (ts : List Task)
    → any is_free ts ≡ false
    → any (λ t. t.id == id && is_free t) ts ≡ false
none_free id [] h = refl
none_free id (t ∷ ts) h = ground (arith, none_free id ts)

any-free :
    (id title : String) (roots : List Task)
    → has_row id (if any is_free roots then free_resource title roots ∷ [] else [])
      ≡ any (λ t. t.id == id && is_free t) roots
any-free id title roots = elim (Bool-cases (any is_free roots)) [
  | inl some_free ↦ rw some_free (ground (arith, any-rows id is_free roots))
  | inr no_free ↦ rw no_free (sym (none_free id roots no_free))
]

-- A task has a row exactly if it has no parent, and either has no milestone or one that is listed.
pub has_row-gantt_resources :
    (id title : String) (tasks : List Task) (milestones : List Milestone)
    → has_row id (gantt_resources tasks milestones title)
      ≡ any (λ t. t.id == id && is_shown milestones t) (filter is_root tasks)
unfolding gantt_resources
has_row-gantt_resources id title tasks milestones =
    let roots = filter is_root tasks in
    let rest = if any is_free roots then free_resource title roots ∷ [] else [] in
    any-append _ (map (milestone_resource roots) milestones) rest
    ∙ ap₂ (λ a b. a || b) (any-milestones id roots milestones) (any-free id title roots)
    ∙ any-or (λ t. t.id == id) (λ t. any (λ m. in_milestone m.id t) milestones) is_free roots
