-- ===== src/Slug/Normal.antt =====
-- When a slug is accepted, and which slugs normalizing leaves alone.
use justprojects.Base.{
  ℕ, ◌≤◌, ◌≡◌, refl, ◌≢◌, ◌↔◌, ◌⊎◌, List, [], ◌∷◌, Bool, true, false, nat_eq, arith, length,
  take_all, all, lower,
}
use justprojects.Slug.{
  dash, is_slug_code, replace_others, collapse, strip_start, strip_end, max_slug, squeezed,
  normalize_public_page_slug, ends_in_word, is_valid_public_page_slug,
}
use justprojects.Slug.Shape.{IsShaped, is_spaced, starts_in_dash, ends_in_dash}

-- Each pass leaves alone a text that it has nothing to do in.
lower_coded : (s : List ℕ) → all is_slug_code s ≡ true → lower s ≡ s
lower_coded [] h = refl
lower_coded (c ∷ s) h = ground (arith, lower_coded s)

replace_others_of_coded :
    (inside : Bool) (s : List ℕ) → all is_slug_code s ≡ true → replace_others inside s ≡ s
unfolding replace_others
replace_others_of_coded inside [] h = refl
replace_others_of_coded inside (c ∷ s) h = ground (arith, replace_others_of_coded false s)

collapse_of_spaced : (after : Bool) (s : List ℕ) → is_spaced after s ≡ true → collapse after s ≡ s
unfolding collapse
collapse_of_spaced after [] h = refl
collapse_of_spaced after (c ∷ s) h = ground (arith, collapse_of_spaced (nat_eq c dash) s)

strip_start_of_starts : (s : List ℕ) → starts_in_dash s ≡ false → strip_start s ≡ s
unfolding strip_start
strip_start_of_starts [] h = refl
strip_start_of_starts (c ∷ s) h = ground arith

strip_end_of_ends : (s : List ℕ) → ends_in_dash s ≡ false → strip_end s ≡ s
unfolding strip_end
strip_end_of_ends [] h = refl
strip_end_of_ends (c ∷ []) h = ground arith
strip_end_of_ends (c ∷ d ∷ s) h = rw (strip_end_of_ends (d ∷ s) h)

pub squeezed_of_IsShaped : (s : List ℕ) → IsShaped s → ends_in_dash s ≡ false → squeezed s ≡ s
unfolding squeezed
squeezed_of_IsShaped s h e =
    rw
      (
        lower_coded s h.coded,
        replace_others_of_coded false s h.coded,
        collapse_of_spaced false s h.spaced,
        strip_start_of_starts s h.starts,
      )
      (strip_end_of_ends s e)

-- A text of slug codes with no dash at either end, no two dashes in a row and at most 64 codes is
-- its own slug.
pub normalize_public_page_slug_fixed :
    (s : List ℕ)
    → IsShaped s
    → ends_in_dash s ≡ false
    → length s ≤ max_slug
    → normalize_public_page_slug s ≡ s
unfolding normalize_public_page_slug
normalize_public_page_slug_fixed s h e fits =
    rw (squeezed_of_IsShaped s h e) (take_all max_slug s fits)

ends_in_word_iff :
    (s : List ℕ)
    → (ends_in_word s ≡ true) ↔ ((all is_slug_code s ≡ true) × (s ≢ []) × (ends_in_dash s ≡ false))
unfolding ends_in_word
ends_in_word_iff [] = ground arith
ends_in_word_iff (c ∷ []) = ground arith
ends_in_word_iff (c ∷ d ∷ s) = ground (arith, ends_in_word_iff (d ∷ s))

-- A slug is accepted exactly if it has only the codes a-z, 0-9 and the dash, no dash at either
-- end, and one code or 3 to 64 codes.
pub is_valid_public_page_slug_iff :
    (s : List ℕ)
    → (is_valid_public_page_slug s ≡ true) ↔ (
        (all is_slug_code s ≡ true)
        × (starts_in_dash s ≡ false)
        × (ends_in_dash s ≡ false)
        × ((length s ≡ 1) ⊎ ((3 ≤ length s) × (length s ≤ max_slug))))
unfolding is_valid_public_page_slug
is_valid_public_page_slug_iff [] = ground arith
is_valid_public_page_slug_iff (c ∷ []) = ground arith
is_valid_public_page_slug_iff (c ∷ d ∷ s) = ground (arith, ends_in_word_iff (d ∷ s))
