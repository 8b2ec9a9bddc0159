-- ===== src/PublicPages/Events.antt =====
-- The settings as a machine: what the user and the parent do, and the answers to the requests in
-- flight, in any order.
use justprojects.Base.{ℕ, String, Bool, none, List, [], ◌∷◌, ◌++◌, ◌≡◌, ◌==◌, if◌then◌else◌}
use justprojects.Types.{PublicPageSummary, StatusCategory, ProjectStatus}
use justprojects.Slug.{normalize_public_page_slug}
use justprojects.Workspace.{Outcome}
use justprojects.PublicPages.{
  CreatedPage, Job, pages_job, create_job, revoke_job, link_job, status_job, PublicPages,
  start_load_pages, after_load_pages, start_save_page, after_save_page, start_revoke, after_revoke,
  start_link, after_link, start_save_status, after_save_status, unmounted,
}

abbrev pub Answer : Job → Type 0
Answer pages_job = List PublicPageSummary
Answer create_job = CreatedPage
Answer (revoke_job page) = Unit {0}
Answer (link_job page) = String
Answer (status_job statuses) = ProjectStatus

-- the code behind the `await`
unfoldable pub settle : (j : Job) → Outcome (Answer j) → PublicPages → PublicPages
settle pages_job = after_load_pages
settle create_job = after_save_page
settle (revoke_job page) = after_revoke page
settle (link_job page) = after_link page
settle (status_job statuses) = after_save_status statuses

pub data Gesture : Type 0 where
  save_page save_status : Gesture
  revoke new_link : PublicPageSummary → Gesture
  type_slug : List ℕ → Gesture
  set_title set_access_mode set_status_name : String → Gesture
  set_category : StatusCategory → Gesture
  statuses_changed : List ProjectStatus → Gesture
  switch_project : String → Gesture

-- the effects that follow a change of `projectId`
unfoldable pub follow_project : String → PublicPages → PublicPages
follow_project id v =
    if v.project_id == id
    then v
    else start_load_pages (record v { project_id = id; public_url = none; page_urls = [] })

unfoldable pub gesture : Gesture → PublicPages → PublicPages
gesture save_page v = start_save_page v
gesture save_status v = start_save_status v
gesture (revoke page) v = start_revoke page v
gesture (new_link page) v = start_link page v
gesture (type_slug text) v = record v { slug = normalize_public_page_slug text }
gesture (set_title text) v = record v { title = text }
gesture (set_access_mode text) v = record v { access_mode = text }
gesture (set_status_name text) v = record v { status_name = text }
gesture (set_category category) v = record v { status_category = category }
gesture (statuses_changed statuses) v = record v { statuses = statuses }
gesture (switch_project id) v = follow_project id v

pub data Step : PublicPages → PublicPages → Type 0 where
  act : (g : Gesture) (v : PublicPages) → Step v (gesture g v)
  reply :
      (before after : List Job) (j : Job) (o : Outcome (Answer j)) (v : PublicPages)
      → v.pending ≡ before ++ j ∷ after
      → Step v (settle j o (record v { pending = before ++ after }))

-- What can happen after the mounting, which loads the pages.
pub data Reach (configured : Bool) (project_id key title : String) (statuses : List ProjectStatus)
    : PublicPages → Type 0 where
  opened :
      Reach configured project_id key title statuses
        (start_load_pages (unmounted configured project_id key title statuses))
  next :
      {u v : PublicPages}
      → Reach configured project_id key title statuses u
      → Step u v
      → Reach configured project_id key title statuses v
