-- ===== src/Kanban/Commit.antt =====
-- When dropping a card changes the status of its task.
use justprojects.Base.{
  String, ◌≡◌, refl, sym, ◌∙◌, All-append, Bool, true, false, none, some, List, [], ◌∷◌, ◌++◌, ◌==◌,
  ◌||◌, any, find, find_sound, arith, eq_iff, eq_refl, Bool-cases, Option-cases, inl, inr, ◌≢◌, All,
}
use mathlib.Core.Path.{subst}
use justprojects.Types.{Task, ProjectStatus}
use justprojects.Kanban.{
  Columns, column, set_column, empty_columns, held, place_task, place_tasks, columns_from_tasks,
  column_of, has_id, active_task, commit_drop,
}

-- What holds of each card and the column that it lies in.
module _ (R : String → Task → Type 0) where
  abbrev EachCard : Columns → Type 0
  EachCard [] = Unit
  EachCard ((key, items) ∷ rest) = All (R key) items × EachCard rest

  column-EachCard :
      (key : String) (columns : Columns)
      → EachCard columns
      → All (R key) (held (column key columns))
  unfolding column
  column-EachCard key [] h = tt
  column-EachCard key ((k, items) ∷ rest) h = elim (Bool-cases (k == key)) [
    | inl same ↦ rw same (subst (λ j. All (R j) items) ((eq_iff k key).0 same) h.0)
    | inr other ↦ rw other (column-EachCard key rest h.1)
  ]

  set_column-EachCard :
      (key : String) (items : List Task) (columns : Columns)
      → All (R key) items
      → EachCard columns
      → EachCard (set_column key items columns)
  unfolding set_column
  set_column-EachCard key items [] new h = (new, tt)
  set_column-EachCard key items ((k, old) ∷ rest) new h = elim (Bool-cases (k == key)) [
    | inl same ↦ rw same (subst (λ j. All (R j) items) (sym ((eq_iff k key).0 same)) new, h.1)
    | inr other ↦ rw other (h.0, set_column-EachCard key items rest new h.1)
  ]

  empty_columns-EachCard :
      (statuses : List ProjectStatus) (columns : Columns)
      → EachCard columns
      → EachCard (empty_columns statuses columns)
  unfolding empty_columns
  empty_columns-EachCard [] columns h = h
  empty_columns-EachCard (s ∷ statuses) columns h =
      empty_columns-EachCard statuses (set_column s.id [] columns)
        (set_column-EachCard s.id [] columns tt h)

  place_tasks-EachCard :
      (ts : List Task) (columns : Columns)
      → All (λ t. R t.status_id t) ts
      → EachCard columns
      → EachCard (place_tasks ts columns)
  unfolding place_tasks place_task
  place_tasks-EachCard [] columns new h = h
  place_tasks-EachCard (t ∷ ts) columns new h =
      place_tasks-EachCard ts (place_task t columns) new.1 (
        set_column-EachCard t.status_id (held (column t.status_id columns) ++ t ∷ []) columns
          (All-append (R t.status_id) (held (column t.status_id columns)) (t ∷ [])
            (column-EachCard t.status_id columns h) (new.0, tt))
          h)

  columns_from_tasks-EachCard :
      (statuses : List ProjectStatus) (tasks : List Task)
      → All (λ t. R t.status_id t) tasks
      → EachCard (columns_from_tasks statuses tasks)
  unfolding columns_from_tasks
  columns_from_tasks-EachCard statuses tasks new =
      place_tasks-EachCard tasks (empty_columns statuses []) new
        (empty_columns-EachCard statuses [] tt)

-- The tasks of one identifier have one status.
abbrev pub AgreesOn : String → String → Task → Type 0
AgreesOn id status_id t = t.id ≡ id → t.status_id ≡ status_id

abbrev InPlace : String → String → String → Task → Type 0
InPlace id status_id key t = (t.status_id ≡ key) × AgreesOn id status_id t

key_of_card :
    (id status_id key : String) (items : List Task)
    → All (InPlace id status_id key) items
    → any (has_id id) items ≡ true
    → key ≡ status_id
key_of_card id status_id key [] h e = cc
key_of_card id status_id key (t ∷ ts) (here, later) e = elim (Bool-cases (has_id id t)) [
  | inl found ↦ sym here.0 ∙ here.1 ((eq_iff t.id id).0 found)
  | inr other ↦ key_of_card id status_id key ts later (ground arith)
]

column_of_card :
    (id status_id key : String) (columns : Columns)
    → EachCard (InPlace id status_id) columns
    → column_of id columns ≡ some key
    → key ≡ status_id
unfolding column_of
column_of_card id status_id key [] h e = cc
column_of_card id status_id key ((k, items) ∷ rest) h e =
    elim (Bool-cases (any (has_id id) items)) [
      | inl found ↦ ground (arith, key_of_card id status_id k items h.0 found)
      | inr other ↦ column_of_card id status_id key rest h.1 (ground arith)
    ]

in_place :
    (id status_id : String) (tasks : List Task)
    → All (AgreesOn id status_id) tasks
    → All (λ t. InPlace id status_id t.status_id t) tasks
in_place id status_id [] h = tt
in_place id status_id (t ∷ ts) h = ((refl, h.0), in_place id status_id ts h.1)

-- If the board is left as the task list gives it, the drop of a listed card asks for no change of
-- status, as long as the tasks of that identifier agree on their status.
pub commit_drop_home :
    (is_item : Bool) (statuses : List ProjectStatus) (tasks : List Task) (columns : Columns)
    (id : String) (moved : Task)
    → find (has_id id) tasks ≡ some moved
    → All (AgreesOn id moved.status_id) tasks
    → commit_drop is_item tasks columns id (columns_from_tasks statuses tasks) ≡ none
unfolding commit_drop active_task
commit_drop_home false statuses tasks columns id moved found agree = refl
commit_drop_home true statuses tasks columns id moved found agree =
    let board = columns_from_tasks statuses tasks in
    let placed =
      columns_from_tasks-EachCard (InPlace id moved.status_id) statuses tasks
        (in_place id moved.status_id tasks agree) in
    elim (Option-cases (column_of id board)) [
      | inl nowhere ↦ rw (found, nowhere) refl
      | inr (key, there) ↦ ground (
        arith,
        found,
        there,
        column_of_card id moved.status_id key board placed there,
        eq_refl moved.status_id,
      )
    ]

-- no card of that identifier lies in these columns
abbrev pub lies_in : String → Columns → Bool
lies_in id [] = false
lies_in id ((key, items) ∷ rest) = any (has_id id) items || lies_in id rest

column_of-append :
    (id key : String) (before after : Columns) (items : List Task)
    → lies_in id before ≡ false
    → any (has_id id) items ≡ true
    → column_of id (before ++ (key, items) ∷ after) ≡ some key
unfolding column_of
column_of-append id key [] after items out inside = rw inside
column_of-append id key ((k, old) ∷ rest) after items out inside =
    ground (arith, column_of-append id key rest after items)

-- A listed card that was dropped in a column of another status, and lies in no column before it,
-- asks for that status; a drop of a whole column asks for nothing.
pub commit_drop_moves :
    (tasks : List Task) (columns before after : Columns) (id key : String) (items : List Task)
    (moved : Task)
    → find (has_id id) tasks ≡ some moved
    → lies_in id before ≡ false
    → any (has_id id) items ≡ true
    → key ≢ moved.status_id
    → key ≢ ""
    → (commit_drop true tasks columns id (before ++ (key, items) ∷ after) ≡ some (id, key))
      × (commit_drop false tasks columns id (before ++ (key, items) ∷ after) ≡ none)
unfolding commit_drop active_task
commit_drop_moves tasks columns before after id key items moved found out inside other filled = (
  ground (
    arith,
    found,
    column_of-append id key before after items out inside,
    find_sound (has_id id) tasks moved found,
    eq_iff moved.id id,
    eq_iff key moved.status_id,
    eq_iff key "",
  ),
  refl,
)
