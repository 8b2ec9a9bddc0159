-- ===== src/Workflow.antt =====
-- The order of the workflow statuses: `WorkflowStatusList` with `commitOrder`, and `saveStatus` of
-- `ProjectSettings`, of services/frontend/components/project-workspace.tsx.
pub mod Sorting
pub mod Commit
mod Tests
use justprojects.Base.{
  ℕ, suc, String, ◌+◌, Bool, true, false, Option, none, some, List, [], ◌∷◌, ◌++◌, map, ltb, leb,
  length, if◌then◌else◌,
}
use justprojects.Types.{ProjectStatus, StatusCategory}
use justprojects.Workspace.{Failure, Outcome, fulfilled, rejected}

-- `[...statuses].sort((a, b) => a.position - b.position)`: the sort of ECMAScript is stable, so an
-- insertion before the first strictly larger position gives the same order.
pub insert_status : ProjectStatus → List ProjectStatus → List ProjectStatus
insert_status s [] = s ∷ []
insert_status s (t ∷ ts) =
    let later = t ∷ insert_status s ts in if leb t.position s.position then later else s ∷ t ∷ ts

pub sort_statuses : List ProjectStatus → List ProjectStatus → List ProjectStatus
unfolding insert_status
sort_statuses [] done = done
sort_statuses (s ∷ ss) done = sort_statuses ss (insert_status s done)

-- `orderedStatuses`
pub ordered_statuses : List ProjectStatus → List ProjectStatus
unfolding sort_statuses
ordered_statuses statuses = sort_statuses statuses []

-- `.map((status, position) => ({ ...status, position }))`
pub renumber : ℕ → List ProjectStatus → List ProjectStatus
renumber n [] = []
renumber n (s ∷ ss) = record s { position = n } ∷ renumber (n + 1) ss

-- What the component has left to the environment: the list that its parent was last given, the
-- column that it shows, the errors, and the PATCH requests (status, position).
pub record Board : Type 0 where
  pub statuses : List ProjectStatus
  pub shown : List ProjectStatus
  pub saving : Bool
  pub error_key : Option String
  pub patches : List (String × ℕ)

abbrev pub patch_of : ProjectStatus → String × ℕ
patch_of s = (s.id, s.position)

-- What a commit does at once; `some previous` is what it waits with.
abbrev give_back : Bool → List ProjectStatus → Board → Board
give_back configured previous b = record b {
  shown = previous;
  statuses = previous;
  error_key = if configured then b.error_key else some "settings.apiRequired";
}

pub commit_order :
    Bool
    → Bool
    → List ProjectStatus
    → List ProjectStatus
    → Board
    → Board × Option (List ProjectStatus)
commit_order false configured next previous b = (b, none)
commit_order true configured [] previous b = (give_back configured (renumber 0 previous) b, none)
commit_order true false (s ∷ ss) previous b = (give_back false (renumber 0 previous) b, none)
commit_order true true (s ∷ ss) previous b =
    let next = renumber 0 (s ∷ ss) in
    (
      record b { saving = true; statuses = next; patches = b.patches ++ map patch_of next },
      some (renumber 0 previous),
    )

-- behind `await Promise.all(...)`
pub after_commit : List ProjectStatus → Outcome (Unit {0}) → Board → Board
after_commit previous (fulfilled all_saved) b = record b { saving = false }
after_commit previous (rejected f) b = record b {
  shown = previous;
  statuses = previous;
  error_key = some "settings.workflowError";
  saving = false;
}

-- the effect that follows a change of the parent's list
pub board_effect : Board → Board
board_effect b = record b { shown = ordered_statuses b.statuses }
