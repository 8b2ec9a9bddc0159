-- ===== src/Filters.antt =====
-- The filter of the task view of services/frontend/components/project-workspace.tsx:
-- `filteredTasks`, and `setFiltersFromQuery`.
-- A time is its number of milliseconds since 1970, so only dates from then on are modelled. The
-- browser's `Date` is the argument `parse`, none where it gives NaN, which every comparison answers
-- with false. The rules of a query are those that ReUI's `flattenFilterRules` gives.
pub mod Dates
mod Tests
use justprojects.Base.{
  ℕ, zero, suc, String, ◌+◌, ◌-◌, Bool, true, false, not, ◌&&◌, ◌||◌, ◌==◌, Option, none, some,
  get_or, or_else, List, [], ◌∷◌, ◌++◌, filter, first, ltb, leb, codes, lower, trim, includes,
  truthy, if◌then◌else◌,
}
use justprojects.Types.{reference, Task}

-- `DateSelectorFilterType`, and the fields of `DateSelectorValue` that are read
pub data DateOperator : Type 0 where
  is before after between : DateOperator

pub record DateFilter : Type 0 where
  pub operator : DateOperator
  pub start_date : Option ℕ
  pub end_date : Option ℕ

pub record TaskFilters : Type 0 where
  pub status_id : Option String
  pub priority : Option String

-- A number as a condition: a missing one and 0 are false.
abbrev pub with_time : Option ℕ → (ℕ → Bool) → Bool
with_time none p = false
with_time (some zero) p = false
with_time (some (suc n)) p = p (suc n)

abbrev pub is_time : Option ℕ → Bool
is_time t = with_time t (λ n. true)

-- a comparison with `due`, which may be NaN
abbrev pub compared : Option ℕ → (ℕ → Bool) → Bool
compared none p = false
compared (some due) p = p due

-- `Math.abs(due - start)`
abbrev pub distance : ℕ → ℕ → ℕ
distance a b = (a - b) + (b - a)

abbrev pub day : ℕ
day = 86_400_000

abbrev pub is_range : DateOperator → Option ℕ → Bool
is_range between end = true
is_range _ (some end) = true
is_range _ none = false

abbrev pub out_of_range : Option ℕ → Option ℕ → Option ℕ → Bool
out_of_range start end due =
    with_time start (λ s. with_time end (λ e. compared due (λ d. ltb d s || ltb e d)))

abbrev pub fails_operator : DateOperator → Option ℕ → Option ℕ → Bool
fails_operator before start due = with_time start (λ s. compared due (λ d. leb s d))
fails_operator after start due = with_time start (λ s. compared due (λ d. leb d s))
fails_operator between start due = false
fails_operator is start due = with_time start (λ s. compared due (λ d. ltb day (distance d s)))

module _ (parse : String → Option ℕ) where
  -- the tests of the due date, for a start and an end of which one is set
  abbrev due_passes : DateFilter → Option ℕ → Option ℕ → Option String → Bool
  due_passes f start end none = false
  due_passes f start end (some text) =
      let due = parse text in
      not (
        fails_operator f.operator start due
        || (is_range f.operator f.end_date && out_of_range start end due))

  abbrev pub date_passes : Option DateFilter → Task → Bool
  date_passes none task = true
  date_passes (some f) task =
      let start = f.start_date in
      let end = or_else f.end_date start in
      if is_time start || is_time end
      then due_passes f start end (reference task.due_date)
      else true

  -- the text that is searched
  abbrev pub searched_text : Task → List ℕ
  searched_text task = lower (codes task.title ++ b' ' ∷ codes (get_or task.description ""))

  -- `normalizedQuery`
  abbrev pub normalized_query : String → List ℕ
  normalized_query query = lower (trim (codes query))

  abbrev pub query_passes : List ℕ → Task → Bool
  query_passes [] task = true
  query_passes (c ∷ s) task = includes (searched_text task) (c ∷ s)

  -- `!(wanted && actual !== wanted)`
  abbrev pub choice_passes : Option String → String → Bool
  choice_passes none actual = true
  choice_passes (some wanted) actual = if truthy wanted then actual == wanted else true

  abbrev pub task_passes : List ℕ → TaskFilters → Option DateFilter → Task → Bool
  task_passes query filters dates task =
      query_passes query task
      && choice_passes filters.status_id task.status_id
      && choice_passes filters.priority task.priority
      && date_passes dates task

  pub filtered_tasks : String → TaskFilters → Option DateFilter → List Task → List Task
  filtered_tasks query filters dates = filter (task_passes (normalized_query query) filters dates)

-- a rule: its path, and its value if that is a text
pub record Rule : Type 0 where
  pub path : List String
  pub value : Option String

abbrev pub no_filters : TaskFilters
no_filters = record { status_id = none; priority = none }

-- the body of the loop of `setFiltersFromQuery`
abbrev apply_rule : Option String → String → TaskFilters → TaskFilters
apply_rule none key next = next
apply_rule (some value) key next =
    let one = if key == "status" then record next { status_id = some value } else next in
    if key == "priority" then record one { priority = some value } else one

pub filters_of : List Rule → TaskFilters → TaskFilters
filters_of [] next = next
filters_of (r ∷ rs) next = filters_of rs (apply_rule r.value (get_or (first r.path) "") next)
