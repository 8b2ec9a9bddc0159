-- ===== src/Slug/Tests.antt =====
-- Slugs at concrete inputs.
use justprojects.Base.{
  ℕ, ◌≤◌, ◌≡◌, refl, ◌↔◌, ◌⊎◌, all, ◌++◌, true, false, length, codes, List, [], ◌∷◌,
}
use justprojects.Slug.{
  normalize_public_page_slug, default_public_page_slug, is_valid_public_page_slug, max_slug, dash,
  is_slug_code,
}
use justprojects.Slug.Shape.{IsShaped, starts_in_dash, ends_in_dash}
use justprojects.Slug.Normal.{is_valid_public_page_slug_iff}
use justprojects.Slug.Default.{default_public_page_slug_cut}
use justprojects.Slug.Shape.{normalize_public_page_slug-IsShaped}

-- opens what a slug computes with
slugs : Unit {0}
unfolding normalize_public_page_slug default_public_page_slug is_valid_public_page_slug
slugs = tt

normalize_tests :
    (normalize_public_page_slug (codes "  My Project / Ünits -- 2 ") ≡ codes "my-project-nits-2")
    × (normalize_public_page_slug (codes "---") ≡ codes "")
    × (default_public_page_slug (codes "JP") ≡ codes "jp-status")
    × (default_public_page_slug (codes "ß") ≡ codes "project-status")
unfolding slugs
normalize_tests = (refl, refl, refl, refl)

valid_tests :
    (is_valid_public_page_slug (codes "a") ≡ true)
    × (is_valid_public_page_slug (codes "ab") ≡ false)
    × (is_valid_public_page_slug (codes "a-b") ≡ true)
    × (is_valid_public_page_slug (codes "-ab") ≡ false)
unfolding slugs
valid_tests = (refl, refl, refl, refl)

normalize_public_page_slug-IsShaped_example :
    IsShaped (normalize_public_page_slug (codes "A--b!"))
    × (length (normalize_public_page_slug (codes "A--b!")) ≤ max_slug)
normalize_public_page_slug-IsShaped_example = normalize_public_page_slug-IsShaped (codes "A--b!")

is_valid_public_page_slug_iff_example : (is_valid_public_page_slug (codes "a-b") ≡ true) ↔ (
    (all is_slug_code (codes "a-b") ≡ true)
    × (starts_in_dash (codes "a-b") ≡ false)
    × (ends_in_dash (codes "a-b") ≡ false)
    × ((◌≡◌ {A = ℕ} 3 1) ⊎ ((3 ≤ 3) × (3 ≤ max_slug))))
is_valid_public_page_slug_iff_example = is_valid_public_page_slug_iff (codes "a-b")

abbrev long_key : List ℕ
long_key = codes "a23456789-123456789-123456789-123456789-123456789-123456789-123"

default_public_page_slug_cut_example :
    (default_public_page_slug long_key ≡ normalize_public_page_slug long_key ++ dash ∷ [])
    × (is_valid_public_page_slug (default_public_page_slug long_key) ≡ false)
unfolding slugs
default_public_page_slug_cut_example = default_public_page_slug_cut long_key refl
