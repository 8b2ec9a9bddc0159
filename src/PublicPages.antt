-- ===== src/PublicPages.antt =====
-- The public pages in `ProjectSettings` of services/frontend/components/project-workspace.tsx:
-- `loadPages`, `savePublicPage`, `revokePage` and `generatePageLink`, each cut at its `await`, and the
-- form of a new status, `saveStatus`.
-- The property `projectId` is a field, since the parent may change it between two events. An object
-- with text keys is an association list. The slug is its code points, as in Slug.
pub mod Events
pub mod Slugs
pub mod Links
mod Tests
use justprojects.Base.{
  ℕ, String, Bool, true, false, not, Option, none, some, List, [], ◌∷◌, ◌++◌, find, filter, map,
  nat_eq, codes, trim, length, ◌==◌, if◌then◌else◌,
}
use justprojects.Toast.{ToastKind, success}
use justprojects.Types.{PublicPageSummary, StatusCategory, todo, ProjectStatus}
use justprojects.Slug.{
  normalize_public_page_slug, default_public_page_slug, is_valid_public_page_slug,
}
use justprojects.Workspace.{Failure, api_error, other_error, Outcome, fulfilled, rejected}
use justprojects.Workflow.{ordered_statuses}

-- the answer of `createPublicPage`
pub record CreatedPage : Type 0 where
  pub page : PublicPageSummary
  pub url : String

-- A request in flight, with what the code behind its `await` has captured.
pub data Job : Type 0 where
  pages_job create_job : Job
  revoke_job link_job : PublicPageSummary → Job
  status_job : List ProjectStatus → Job

-- the body of the request for a new page: access mode, title and slug
pub record PageBody : Type 0 where
  pub access_mode : String
  pub title : String
  pub slug : List ℕ

-- the body of the request for a new status
pub record StatusBody : Type 0 where
  pub name : List ℕ
  pub category : StatusCategory
  pub position : ℕ

pub record PublicPages : Type 0 where
  pub configured : Bool
  pub project_id : String
  pub statuses : List ProjectStatus
  pub access_mode : String
  pub title : String
  pub slug : List ℕ
  pub public_url : Option String
  pub page_urls : List (String × String)
  pub pages : List PublicPageSummary
  pub loading_pages : Bool
  pub loading_link_id : Option String
  pub revoking_id : Option String
  pub saving : Bool
  pub error : Option String
  pub status_name : String
  pub status_category : StatusCategory
  pub saving_status : Bool
  pub pending : List Job
  pub bodies : List PageBody
  pub status_bodies : List StatusBody
  pub toasts : List (ToastKind × String)

abbrev pub await : Job → PublicPages → PublicPages
await j v = record v { pending = v.pending ++ j ∷ [] }

abbrev pub fail : String → PublicPages → PublicPages
fail key v = record v { error = some key }

abbrev pub toast : String → PublicPages → PublicPages
toast key v = record v { toasts = v.toasts ++ (success, key) ∷ [] }

-- `pageUrls[id]`
pub url_of : String → List (String × String) → Option String
url_of id [] = none
url_of id ((k, url) ∷ rest) = if k == id then some url else url_of id rest

-- `{ ...urls, [id]: url }`
pub set_url : String → String → List (String × String) → List (String × String)
set_url id url [] = (id, url) ∷ []
set_url id url ((k, old) ∷ rest) =
    if k == id then (k, url) ∷ rest else (k, old) ∷ set_url id url rest

-- `delete next[id]`
pub delete_url : String → List (String × String) → List (String × String)
delete_url id [] = []
delete_url id ((k, url) ∷ rest) =
    let left = delete_url id rest in if k == id then left else (k, url) ∷ left

abbrev is_active : PublicPageSummary → Bool
is_active page = not page.revoked

-- `activePages`
abbrev pub active_pages : PublicPages → List PublicPageSummary
active_pages v = filter is_active v.pages

unfoldable pub start_load_pages : PublicPages → PublicPages
start_load_pages v =
    if v.configured then await pages_job (record v { loading_pages = true; error = none }) else v

-- `if (active) setSlug(active.slug)`
abbrev pub slug_of_active : Option PublicPageSummary → List ℕ → List ℕ
slug_of_active none slug = slug
slug_of_active (some page) slug = codes page.slug

unfoldable pub after_load_pages : Outcome (List PublicPageSummary) → PublicPages → PublicPages
after_load_pages (fulfilled items) v = record v {
  pages = items;
  slug = slug_of_active (find is_active items) v.slug;
  loading_pages = false;
}
after_load_pages (rejected f) v = record (fail "settings.loadPagesError" v) {
  loading_pages = false;
}

abbrev pub page_body : PublicPages → PageBody
page_body v = record { access_mode = v.access_mode; title = v.title; slug = v.slug }

abbrev pub is_blank : List ℕ → Bool
is_blank [] = true
is_blank (c ∷ s) = false

-- `savePublicPage` up to its `await`
unfoldable pub start_save_page : PublicPages → PublicPages
start_save_page v =
    if not v.configured
    then fail "settings.apiRequired" v
    else if is_blank v.slug
    then fail "settings.slugRequired" v
    else if is_valid_public_page_slug v.slug
    then await create_job
        (record v { saving = true; error = none; bodies = v.bodies ++ page_body v ∷ [] })
    else fail "settings.slugInvalid" v

abbrev pub create_message : Failure → String
create_message (api_error message status) =
    if nat_eq status 409 then "settings.slugInUse" else "settings.createError"
create_message other_error = "settings.createError"

unfoldable pub after_save_page : Outcome CreatedPage → PublicPages → PublicPages
unfolding set_url
after_save_page (fulfilled created) v = record (toast "settings.pageCreated" v) {
  public_url = some created.url;
  page_urls = set_url created.page.id created.url v.page_urls;
  slug = codes created.page.slug;
  pages = created.page ∷ v.pages;
  saving = false;
}
after_save_page (rejected f) v = record (fail (create_message f) v) { saving = false }

unfoldable pub start_revoke : PublicPageSummary → PublicPages → PublicPages
start_revoke page v =
    await (revoke_job page) (record v { revoking_id = some page.id; error = none })

abbrev pub mark_revoked : String → List PublicPageSummary → List PublicPageSummary
mark_revoked id = map (λ item. if item.id == id then record item { revoked = true } else item)

unfoldable pub after_revoke : PublicPageSummary → Outcome (Unit {0}) → PublicPages → PublicPages
unfolding delete_url
after_revoke page (fulfilled done) v = record (toast "settings.revokeMessage" v) {
  pages = mark_revoked page.id v.pages;
  page_urls = delete_url page.id v.page_urls;
  revoking_id = none;
}
after_revoke page (rejected f) v = record (fail "settings.revokeError" v) { revoking_id = none }

unfoldable pub start_link : PublicPageSummary → PublicPages → PublicPages
start_link page v =
    await (link_job page) (record v { loading_link_id = some page.id; error = none })

unfoldable pub after_link : PublicPageSummary → Outcome String → PublicPages → PublicPages
unfolding set_url
after_link page (fulfilled url) v = record (toast "settings.accessLinkGenerated" v) {
  page_urls = set_url page.id url v.page_urls;
  public_url = some url;
  loading_link_id = none;
}
after_link page (rejected f) v = record (fail "settings.accessLinkError" v) {
  loading_link_id = none;
}

-- `saveStatus` up to its `await`
unfoldable pub start_save_status : PublicPages → PublicPages
start_save_status v =
    let name = trim (codes v.status_name) in
    if is_blank name
    then v
    else if v.configured
    then await (status_job v.statuses) (record v {
      saving_status = true;
      error = none;
      status_bodies =
          v.status_bodies
          ++ record { name = name; category = v.status_category; position = length v.statuses }
            ∷ [];
    })
    else v

-- `onStatusesChange` sets the property `statuses`.
unfoldable pub after_save_status :
    List ProjectStatus → Outcome ProjectStatus → PublicPages → PublicPages
after_save_status statuses (fulfilled status) v = record (toast "settings.statusCreated" v) {
  statuses = ordered_statuses (statuses ++ status ∷ []);
  status_name = "";
  saving_status = false;
}
after_save_status statuses (rejected f) v = record (fail "settings.workflowError" v) {
  saving_status = false;
}

-- the first values of the state
abbrev pub unmounted : Bool → String → String → String → List ProjectStatus → PublicPages
unmounted configured project_id key title statuses = record {
  configured = configured;
  project_id = project_id;
  statuses = statuses;
  access_mode = "link";
  title = title;
  slug = default_public_page_slug (codes key);
  public_url = none;
  page_urls = [];
  pages = [];
  loading_pages = false;
  loading_link_id = none;
  revoking_id = none;
  saving = false;
  error = none;
  status_name = "";
  status_category = todo;
  saving_status = false;
  pending = [];
  bodies = [];
  status_bodies = [];
  toasts = [];
}
