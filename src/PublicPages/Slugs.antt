-- ===== src/PublicPages/Slugs.antt =====
-- Which slugs are ever sent to the server.
use justprojects.Base.{
  ℕ, String, ◌≡◌, ◌≤◌, ◌⊎◌, sym, refl, Bool, true, false, not, none, List, [], ◌∷◌, ◌++◌, length,
  all, All, All-append, arith, inl, inr, if◌then◌else◌,
}
use mathlib.Core.Path.{subst}
use justprojects.Types.{ProjectStatus}
use justprojects.Slug.Shape.{starts_in_dash, ends_in_dash}
use justprojects.Slug.{is_slug_code, max_slug, is_valid_public_page_slug}
use justprojects.Slug.Normal.{is_valid_public_page_slug_iff}
use justprojects.Workspace.{Outcome, fulfilled, rejected}
use justprojects.PublicPages.{
  Job, pages_job, create_job, revoke_job, link_job, status_job, PageBody, PublicPages,
  start_load_pages, after_load_pages, start_save_page, after_save_page, start_revoke, after_revoke,
  start_link, after_link, start_save_status, after_save_status, unmounted, await, fail, is_blank,
  page_body,
}
use justprojects.PublicPages.Events.{
  Answer, settle, Gesture, gesture, save_page, save_status, switch_project, follow_project, Reach,
  opened, next, act, reply,
}

-- only a-z, 0-9 and the dash, no dash at either end, and one code or 3 to 64 codes
abbrev pub IsPageSlug : List ℕ → Type 0
IsPageSlug s =
    (all is_slug_code s ≡ true)
    × (starts_in_dash s ≡ false)
    × (ends_in_dash s ≡ false)
    × ((length s ≡ 1) ⊎ ((3 ≤ length s) × (length s ≤ max_slug)))

abbrev pub HaveSlugs : List PageBody → Type 0
HaveSlugs = All (λ b. IsPageSlug b.slug)

start_load_pages-bodies : (v : PublicPages) → (start_load_pages v).bodies ≡ v.bodies
unfolding start_load_pages
start_load_pages-bodies v = ground arith

start_save_status-bodies : (v : PublicPages) → (start_save_status v).bodies ≡ v.bodies
unfolding start_save_status
start_save_status-bodies v = ground arith

follow_project-bodies : (id : String) (v : PublicPages) → (follow_project id v).bodies ≡ v.bodies
unfolding follow_project
follow_project-bodies id v = ground (
  arith,
  start_load_pages-bodies (record v { project_id = id; public_url = none; page_urls = [] }),
)

module _ (v : PublicPages) where
  asks :
      (on blank valid : Bool)
      → is_valid_public_page_slug v.slug ≡ valid
      → (let next =
            if not on
            then fail "settings.apiRequired" v
            else if blank
            then fail "settings.slugRequired" v
            else if valid
            then await create_job
                (record v { saving = true; error = none; bodies = v.bodies ++ page_body v ∷ [] })
            else fail "settings.slugInvalid" v in
          (next.bodies ≡ v.bodies)
          ⊎ ((next.bodies ≡ v.bodies ++ page_body v ∷ [])
              × (is_valid_public_page_slug v.slug ≡ true)))
  asks false blank valid e = inl refl
  asks true true valid e = inl refl
  asks true false false e = inl refl
  asks true false true e = inr (refl, e)

-- Saving sends nothing, or one more body with a slug that is accepted.
start_save_page-bodies :
    (v : PublicPages)
    → ((start_save_page v).bodies ≡ v.bodies)
      ⊎ (((start_save_page v).bodies ≡ v.bodies ++ page_body v ∷ [])
          × (is_valid_public_page_slug v.slug ≡ true))
unfolding start_save_page
start_save_page-bodies v =
    asks v v.configured (is_blank v.slug) (is_valid_public_page_slug v.slug) refl

gesture-HaveSlugs :
    (g : Gesture) (v : PublicPages) → HaveSlugs v.bodies → HaveSlugs (gesture g v).bodies
unfolding gesture start_revoke start_link
gesture-HaveSlugs save_page v h = elim (start_save_page-bodies v) [
  | inl same ↦ subst HaveSlugs (sym same) h
  | inr (more, valid) ↦ rw more (
      All-append (λ b. IsPageSlug b.slug) v.bodies (page_body v ∷ []) h
        ((is_valid_public_page_slug_iff v.slug).0 valid, tt))
]
gesture-HaveSlugs save_status v h = subst HaveSlugs (sym (start_save_status-bodies v)) h
gesture-HaveSlugs (switch_project id) v h = subst HaveSlugs (sym (follow_project-bodies id v)) h
gesture-HaveSlugs _ v h = h

settle-bodies :
    (j : Job) (o : Outcome (Answer j)) (v : PublicPages) → (settle j o v).bodies ≡ v.bodies
unfolding settle after_load_pages after_save_page after_revoke after_link after_save_status
settle-bodies pages_job (fulfilled a) v = refl
settle-bodies create_job (fulfilled a) v = refl
settle-bodies (revoke_job page) (fulfilled a) v = refl
settle-bodies (link_job page) (fulfilled a) v = refl
settle-bodies (status_job statuses) (fulfilled a) v = refl
settle-bodies pages_job (rejected f) v = refl
settle-bodies create_job (rejected f) v = refl
settle-bodies (revoke_job page) (rejected f) v = refl
settle-bodies (link_job page) (rejected f) v = refl
settle-bodies (status_job statuses) (rejected f) v = refl

module _ (configured : Bool) (project_id key title : String) (statuses : List ProjectStatus) where
  -- Whatever is typed, whichever slug a page of the server has, and in whatever order the answers
  -- come: every slug that is sent to make a page has only the codes a-z, 0-9 and the dash, no dash at
  -- either end, and one code or 3 to 64 codes.
  pub sent_slugs-IsPageSlug :
      (v : PublicPages) → Reach configured project_id key title statuses v → HaveSlugs v.bodies
  sent_slugs-IsPageSlug v opened =
      subst HaveSlugs
        (sym (start_load_pages-bodies (unmounted configured project_id key title statuses))) tt
  sent_slugs-IsPageSlug v (next r (act g u)) = gesture-HaveSlugs g u (sent_slugs-IsPageSlug u r)
  sent_slugs-IsPageSlug v (next r (reply before after j o u left)) =
      subst HaveSlugs (sym (settle-bodies j o (record u { pending = before ++ after })))
        (sent_slugs-IsPageSlug u r)
