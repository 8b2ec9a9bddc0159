-- ===== src/Inbox/Selection.antt =====
-- What an answer that comes late does to the request that is selected by then.
use justprojects.Base.{false, ◌≡◌, refl, some, get_or, [], ◌∷◌, ◌++◌}
use justprojects.Types.{present, text_or_null, ProjectRequest}
use justprojects.Answers.{answered}
use justprojects.Inbox.{Inbox, RequestPatch, select_request, start_save, after_save}

-- what the form of a request sends when nothing in it is changed
abbrev pub own_patch : ProjectRequest → RequestPatch
own_patch r = record {
  status = r.status;
  assigned_to = text_or_null (get_or (present r.assigned_to) "");
  internal_notes = get_or (present r.internal_notes) "";
}

-- If another request is selected while the saving of one is in flight, the answer selects the saved
-- one again but leaves the form of the other: saving once more sends the status, the assignee and the
-- notes of the other request to the saved one.
pub late_save_mixes :
    (w : Inbox) (saved other result : ProjectRequest)
    → w.selected ≡ some saved
    → (let late = after_save saved.id (answered result) (select_request other (start_save w)) in
        (late.selected ≡ some result)
        × (late.saving ≡ false)
        × ((start_save late).patches
            ≡ (w.patches
                ++ (
                  saved.id,
                  record {
                    status = w.status;
                    assigned_to = text_or_null w.assignee;
                    internal_notes = w.internal_notes;
                  },
                )
                  ∷ [])
              ++ (result.id, own_patch other) ∷ []))
unfolding start_save after_save select_request
late_save_mixes w saved other result chosen = rw chosen (refl, refl, refl)
