-- ===== src/Workflow/Tests.antt =====
-- The order of the statuses at concrete inputs.
use justprojects.Base.{◌≡◌, refl, true, false, none, some, List, [], ◌∷◌}
use justprojects.Types.{ProjectStatus}
use justprojects.Workspace.{fulfilled, rejected, other_error}
use justprojects.Workspace.Samples.{open_status, done_status}
use justprojects.Workflow.{Board, ordered_statuses, commit_order}
use justprojects.Workflow.Commit.{status_ids, settled, commit_order_settles}

abbrev board : Board
board = record {
  statuses = open_status ∷ done_status ∷ [];
  shown = done_status ∷ open_status ∷ [];
  saving = false;
  error_key = none;
  patches = [];
}

sorted : ordered_statuses (done_status ∷ open_status ∷ []) ≡ open_status ∷ done_status ∷ []
unfolding ordered_statuses
sorted = refl

abbrev dropped : List ProjectStatus
dropped = done_status ∷ open_status ∷ []

abbrev before : List ProjectStatus
before = open_status ∷ done_status ∷ []

commit_order_settles_example :
    ((commit_order true true dropped before board).0.patches ≡ ("s2", 0) ∷ ("s1", 1) ∷ [])
    × (status_ids (settled (fulfilled tt) dropped before board).shown ≡ "s2" ∷ "s1" ∷ [])
    × ((settled (fulfilled tt) dropped before board).error_key ≡ none)
    × (status_ids (settled (rejected other_error) dropped before board).shown ≡ "s1" ∷ "s2" ∷ [])
    × ((settled (rejected other_error) dropped before board).error_key
        ≡ some "settings.workflowError")
    × ((settled (fulfilled tt) dropped before board).saving ≡ false)
    × ((settled (rejected other_error) dropped before board).saving ≡ false)
commit_order_settles_example = commit_order_settles dropped before other_error board (λ e. cc)
