-- ===== src/PublicPages/Tests.antt =====
-- The public pages at concrete inputs.
use justprojects.Base.{String, ◌≡◌, ◌≢◌, refl, true, false, none, some, [], ◌∷◌, any, codes}
use justprojects.Types.{PublicPageSummary}
use justprojects.Workspace.{fulfilled}
use justprojects.PublicPages.{
  PublicPages, CreatedPage, unmounted, start_load_pages, after_save_page, after_revoke, url_of,
  active_pages,
}
use justprojects.PublicPages.Events.{opened, next, act, gesture, save_page, type_slug}
use justprojects.PublicPages.Slugs.{HaveSlugs, sent_slugs-IsPageSlug}
use justprojects.PublicPages.Links.{is_page, after_revoke_lem}

abbrev first_view : PublicPages
first_view = unmounted true "p1" "RKT" "Rocket status" []

abbrev typed : PublicPages
typed = gesture (type_slug (codes "My Page")) (start_load_pages first_view)

abbrev saved : PublicPages
saved = gesture save_page typed

sent_slugs-IsPageSlug_example : HaveSlugs saved.bodies
sent_slugs-IsPageSlug_example = sent_slugs-IsPageSlug true "p1" "RKT" "Rocket status" [] saved (
    next (next opened (act (type_slug (codes "My Page")) (start_load_pages first_view)))
      (act save_page typed))

abbrev page : String → PublicPageSummary
page id = record {
  id = id;
  project_id = "p1";
  slug = "my-page";
  access_mode = "link";
  title = none;
  revoked = false;
}

abbrev created : CreatedPage
created = record { page = page "g1"; url = "https://x/p/my-page?t=1" }

-- the page has been made, and its link is shown
abbrev shown : PublicPages
shown =
    after_save_page (fulfilled created)
      (record first_view { pages = page "g2" ∷ []; page_urls = ("g2", "https://x/p/2") ∷ [] })

after_revoke_lem_example :
    (any (is_page "g1") (active_pages (after_revoke (page "g1") (fulfilled tt) shown)) ≡ false)
    × (url_of "g1" (after_revoke (page "g1") (fulfilled tt) shown).page_urls ≡ none)
    × ((j : String)
        → "g1" ≢ j
        → (any (is_page j) (active_pages (after_revoke (page "g1") (fulfilled tt) shown))
            ≡ any (is_page j) (active_pages shown))
          × (url_of j (after_revoke (page "g1") (fulfilled tt) shown).page_urls
              ≡ url_of j shown.page_urls))
    × ((after_revoke (page "g1") (fulfilled tt) shown).public_url ≡ shown.public_url)
after_revoke_lem_example = after_revoke_lem (page "g1") shown

-- The link of a revoked page stays shown.
revoked_link :
    (after_revoke (page "g1") (fulfilled tt) shown).public_url ≡ some "https://x/p/my-page?t=1"
unfolding after_revoke after_save_page
revoked_link = refl
