-- ===== src/Slug.antt =====
-- The slugs of public pages: `normalizePublicPageSlug`, `defaultPublicPageSlug` and
-- `isValidPublicPageSlug` of services/frontend/components/project-workspace.tsx.
-- A text is the list of its codes. The regular expressions are recursive functions: each `g`
-- replacement is one pass from left to right.
pub mod Shape
pub mod Normal
pub mod Default
mod Tests
use justprojects.Base.{
  ℕ, List, [], ◌∷◌, ◌++◌, Bool, true, false, ◌&&◌, ◌||◌, nat_eq, leb, ltb, if◌then◌else◌, length,
  take, lower, codes,
}

abbrev pub dash : ℕ
dash = b'-'

-- [a-z0-9]
abbrev pub is_word : ℕ → Bool
is_word c = (leb b'a' c && leb c b'z') || (leb b'0' c && leb c b'9')

-- [a-z0-9-]
abbrev pub is_slug_code : ℕ → Bool
is_slug_code c = is_word c || nat_eq c dash

-- `.replace(/[^a-z0-9-]+/g, "-")`; `inside` says that the code before belongs to the same run.
pub replace_others : Bool → List ℕ → List ℕ
replace_others inside [] = []
replace_others inside (c ∷ s) =
    let kept = c ∷ replace_others false s in
    let run = replace_others true s in
    if is_slug_code c then kept else if inside then run else dash ∷ run

-- `.replace(/-{2,}/g, "-")`
pub collapse : Bool → List ℕ → List ℕ
collapse after [] = []
collapse after (c ∷ s) =
    let rest = collapse (nat_eq c dash) s in if nat_eq c dash && after then rest else c ∷ rest

-- `.replace(/^-+|-+$/g, "")`, the start and the end
pub strip_start : List ℕ → List ℕ
strip_start [] = []
strip_start (c ∷ s) = let rest = strip_start s in if nat_eq c dash then rest else c ∷ s

abbrev keep_unless_last : ℕ → List ℕ → List ℕ
keep_unless_last c [] = if nat_eq c dash then [] else c ∷ []
keep_unless_last c (d ∷ s) = c ∷ d ∷ s

pub strip_end : List ℕ → List ℕ
strip_end [] = []
strip_end (c ∷ s) = keep_unless_last c (strip_end s)

abbrev pub max_slug : ℕ
max_slug = 64

-- the value before `.slice(0, 64)`
pub squeezed : List ℕ → List ℕ
unfolding replace_others collapse strip_start strip_end
squeezed value = strip_end (strip_start (collapse false (replace_others false (lower value))))

pub normalize_public_page_slug : List ℕ → List ℕ
unfolding squeezed
normalize_public_page_slug value = take max_slug (squeezed value)

-- `key || fallback`
abbrev or_text : List ℕ → List ℕ → List ℕ
or_text [] other = other
or_text (c ∷ s) other = c ∷ s

pub default_public_page_slug : List ℕ → List ℕ
default_public_page_slug project_key =
    let key = or_text (normalize_public_page_slug project_key) (codes "project") in
    normalize_public_page_slug (key ++ codes "-status")

-- `[a-z0-9-]*[a-z0-9]$`
pub ends_in_word : List ℕ → Bool
ends_in_word [] = false
ends_in_word (c ∷ []) = is_word c
ends_in_word (c ∷ d ∷ s) = is_slug_code c && ends_in_word (d ∷ s)

abbrev group_ok : List ℕ → Bool
group_ok [] = true
group_ok (c ∷ s) = ltb 1 (length (c ∷ s)) && leb (length (c ∷ s)) 63 && ends_in_word (c ∷ s)

-- `/^[a-z0-9](?:[a-z0-9-]{1,62}[a-z0-9])?$/`
pub is_valid_public_page_slug : List ℕ → Bool
unfolding ends_in_word
is_valid_public_page_slug [] = false
is_valid_public_page_slug (c ∷ s) = is_word c && group_ok s
