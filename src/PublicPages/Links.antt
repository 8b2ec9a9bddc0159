-- ===== src/PublicPages/Links.antt =====
-- What revoking a page leaves of it.
use justprojects.Base.{
  String, ◌≡◌, ◌≢◌, refl, Bool, false, not, ◌&&◌, none, List, [], ◌∷◌, any, filter, arith, eq_iff,
  ◌==◌, if◌then◌else◌,
}
use justprojects.Types.{PublicPageSummary}
use justprojects.Workspace.{fulfilled}
use justprojects.PublicPages.{
  PublicPages, url_of, delete_url, mark_revoked, active_pages, after_revoke,
}

abbrev pub is_page : String → PublicPageSummary → Bool
is_page id page = page.id == id

url_of-delete_url :
    (id j : String) (urls : List (String × String))
    → url_of j (delete_url id urls) ≡ (if id == j then none else url_of j urls)
unfolding url_of delete_url
url_of-delete_url id j [] = ground arith
url_of-delete_url id j ((k, url) ∷ rest) =
    ground (arith, eq_iff k id, eq_iff k j, eq_iff id j, url_of-delete_url id j rest)

any-mark_revoked :
    (id j : String) (pages : List PublicPageSummary)
    → any (is_page j) (filter (λ page. not page.revoked) (mark_revoked id pages))
      ≡ (not (id == j) && any (is_page j) (filter (λ page. not page.revoked) pages))
any-mark_revoked id j [] = ground arith
any-mark_revoked id j (p ∷ ps) =
    ground (arith, any-mark_revoked id j ps, eq_iff p.id id, eq_iff p.id j, eq_iff id j)

-- Once the revoking of a page was accepted, that page is no active one and has no link kept for it;
-- any other page is active and has its link as before. The link that was shown last stays shown, even
-- if it is the revoked page's.
pub after_revoke_lem :
    (page : PublicPageSummary) (v : PublicPages)
    → (any (is_page page.id) (active_pages (after_revoke page (fulfilled tt) v)) ≡ false)
      × (url_of page.id (after_revoke page (fulfilled tt) v).page_urls ≡ none)
      × ((j : String)
          → page.id ≢ j
          → (any (is_page j) (active_pages (after_revoke page (fulfilled tt) v))
              ≡ any (is_page j) (active_pages v))
            × (url_of j (after_revoke page (fulfilled tt) v).page_urls ≡ url_of j v.page_urls))
      × ((after_revoke page (fulfilled tt) v).public_url ≡ v.public_url)
unfolding after_revoke
after_revoke_lem page v = (
  ground (arith, any-mark_revoked page.id page.id v.pages, eq_iff page.id page.id),
  ground (arith, url_of-delete_url page.id page.id v.page_urls, eq_iff page.id page.id),
  (λ j other. (
    ground (arith, any-mark_revoked page.id j v.pages, eq_iff page.id j),
    ground (arith, url_of-delete_url page.id j v.page_urls, eq_iff page.id j),
  )),
  refl,
)
