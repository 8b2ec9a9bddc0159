-- ===== src/Workflow/Commit.antt =====
-- What a drop in the list of statuses leaves, when the server accepts it and when it does not.
use justprojects.Base.{
  ℕ, String, ◌+◌, ◌≡◌, refl, ap, ◌∙◌, ◌≢◌, true, false, Option, none, some, List, [], ◌∷◌, ◌++◌,
  map,
}
use justprojects.Types.{ProjectStatus}
use justprojects.Workspace.{Failure, Outcome, fulfilled, rejected}
use justprojects.Workflow.{Board, renumber, patch_of, commit_order, after_commit, board_effect}
use justprojects.Workflow.Sorting.{ordered_statuses_fixed, renumber-IsOrdered, ids-renumber}

abbrev pub status_ids : List ProjectStatus → List String
status_ids = map (λ s. s.id)

-- the pairs (id, n), (id, n + 1), …
abbrev pub numbered : ℕ → List ProjectStatus → List (String × ℕ)
numbered n [] = []
numbered n (s ∷ ss) = (s.id, n) ∷ numbered (n + 1) ss

patches-renumber : (n : ℕ) (ss : List ProjectStatus) → map patch_of (renumber n ss) ≡ numbered n ss
unfolding renumber
patches-renumber n [] = refl
patches-renumber n (s ∷ ss) = ap (λ r. (s.id, n) ∷ r) (patches-renumber (n + 1) ss)

-- the code behind the `await`, if the commit waits: it goes on with what the commit waits with
abbrev go_on : Outcome (Unit {0}) → Option (List ProjectStatus) → Board → Board
go_on o none b = b
go_on o (some captured) b = after_commit captured o b

-- the board once the request has ended and the effect has run
abbrev pub settled : Outcome (Unit {0}) → List ProjectStatus → List ProjectStatus → Board → Board
settled o next previous b =
    let begun = commit_order true true next previous b in board_effect (go_on o begun.1 begun.0)

-- With the backend at hand, dropping a status sends each status its place in the new order, counted
-- from 0; once the request has ended the board shows the new order if it was accepted, and the old
-- one with an error if not, and nothing is being saved any more.
pub commit_order_settles :
    (next previous : List ProjectStatus) (f : Failure) (b : Board)
    → next ≢ []
    → ((commit_order true true next previous b).0.patches ≡ b.patches ++ numbered 0 next)
      × (status_ids (settled (fulfilled tt) next previous b).shown ≡ status_ids next)
      × ((settled (fulfilled tt) next previous b).error_key ≡ b.error_key)
      × (status_ids (settled (rejected f) next previous b).shown ≡ status_ids previous)
      × ((settled (rejected f) next previous b).error_key ≡ some "settings.workflowError")
      × ((settled (fulfilled tt) next previous b).saving ≡ false)
      × ((settled (rejected f) next previous b).saving ≡ false)
unfolding commit_order after_commit board_effect
commit_order_settles [] previous f b n = absurd (n refl)
commit_order_settles (s ∷ ss) previous f b n = (
  ap (λ p. b.patches ++ p) (patches-renumber 0 (s ∷ ss)),
  ap status_ids (ordered_statuses_fixed (renumber 0 (s ∷ ss)) (renumber-IsOrdered 0 (s ∷ ss)))
      ∙ ids-renumber 0 (s ∷ ss),
  refl,
  ap status_ids (ordered_statuses_fixed (renumber 0 previous) (renumber-IsOrdered 0 previous))
      ∙ ids-renumber 0 previous,
  refl,
  refl,
  refl,
)
