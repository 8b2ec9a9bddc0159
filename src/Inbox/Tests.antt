-- ===== src/Inbox/Tests.antt =====
-- The inbox at concrete inputs.
use justprojects.Base.{String, ◌≡◌, refl, true, false, none, some, [], ◌∷◌, ◌++◌}
use justprojects.Types.{ProjectRequest, text_or_null, null, value}
use justprojects.Workspace.Samples.{signed_in}
use justprojects.Answers.{answered}
use justprojects.Inbox.{
  Inbox, session_job, start_load, select_request, start_save, after_save, filtered_requests,
}
use justprojects.Inbox.Events.{
  InboxReach, opened, next, act, reply, save, pick, mounted_inbox, do_action, continue,
}
use justprojects.Inbox.Spinners.{HasCause, InboxReach-HasCause}
use justprojects.Inbox.Selection.{own_patch, late_save_mixes}

abbrev wish : String → String → String → ProjectRequest
wish id title status = record {
  id = id;
  tenant_id = none;
  source_public_page_id = null;
  requester_user_id = null;
  requester_name = "Ann";
  requester_email = "ann@example.org";
  title = title;
  description = "";
  requested_start_date = null;
  requested_target_date = null;
  priority = "low";
  status = status;
  assigned_to = null;
  assigned_to_name = none;
  internal_notes = null;
  converted_project_id = null;
  created_at = "2024-05-01";
  updated_at = "2024-05-01";
}

abbrev bridge : ProjectRequest
bridge = wish "r1" "Bridge" "submitted"

abbrev tower : ProjectRequest
tower = record (wish "r2" "Tower" "rejected") { internal_notes = value "too tall" }

abbrev saved_bridge : ProjectRequest
saved_bridge = record bridge { status = "approved" }

abbrev listed : Inbox
listed =
    select_request bridge
      (record (mounted_inbox true) { requests = bridge ∷ tower ∷ []; loading = false })

abbrev late : Inbox
late = after_save "r1" (answered saved_bridge) (select_request tower (start_save listed))

-- The second saving sends the notes of the tower to the bridge.
late_save_mixes_example :
    (late.selected ≡ some saved_bridge)
    × (late.saving ≡ false)
    × ((start_save late).patches ≡ (
        (listed.patches
          ++ (
            "r1",
            record {
              status = listed.status;
              assigned_to = text_or_null listed.assignee;
              internal_notes = listed.internal_notes;
            },
          )
            ∷ [])
        ++ ("r1", own_patch tower) ∷ []))
unfolding select_request
late_save_mixes_example = late_save_mixes listed bridge tower saved_bridge refl

searched : filtered_requests (record listed { query = " tow" }) ≡ tower ∷ []
unfolding filtered_requests select_request
searched = refl

chosen : filtered_requests (record listed { status_filter = "submitted" }) ≡ bridge ∷ []
unfolding filtered_requests select_request
chosen = refl

abbrev start : Inbox
start = start_load (mounted_inbox true)

abbrev asked : Inbox
asked = continue session_job (answered signed_in) (record start { pending = [] })

abbrev saving_bridge : Inbox
saving_bridge = do_action save (do_action (pick bridge) asked)

saving_reached : InboxReach true saving_bridge
unfolding start_load
saving_reached =
    next
      (next (next opened (reply [] [] session_job (answered signed_in) start refl))
        (act (pick bridge) asked))
      (act save (do_action (pick bridge) asked))

InboxReach-HasCause_example : HasCause saving_bridge
InboxReach-HasCause_example = InboxReach-HasCause saving_bridge saving_reached
