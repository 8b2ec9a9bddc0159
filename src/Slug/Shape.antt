-- ===== src/Slug/Shape.antt =====
-- The shape of a normalized slug: its codes, its dashes and its length.
use justprojects.Base.{
  ℕ, zero, suc, ◌≤◌, ◌≡◌, refl, List, [], ◌∷◌, Bool, true, false, ◌&&◌, not, nat_eq, arith, length,
  take, all, lower, length-take,
}
use justprojects.Slug.{
  dash, is_slug_code, replace_others, collapse, strip_start, keep_unless_last, strip_end, max_slug,
  squeezed, normalize_public_page_slug,
}

-- No dash follows a dash; `after` says that a dash stands before the text.
abbrev pub is_spaced : Bool → List ℕ → Bool
is_spaced after [] = true
is_spaced after (c ∷ s) = not (nat_eq c dash && after) && is_spaced (nat_eq c dash) s

abbrev pub starts_in_dash : List ℕ → Bool
starts_in_dash [] = false
starts_in_dash (c ∷ s) = nat_eq c dash

abbrev pub ends_in_dash : List ℕ → Bool
ends_in_dash [] = false
ends_in_dash (c ∷ []) = nat_eq c dash
ends_in_dash (c ∷ d ∷ s) = ends_in_dash (d ∷ s)

-- What every pass after the first two keeps.
pub record IsShaped (s : List ℕ) : Type 0 where
  pub coded : all is_slug_code s ≡ true
  pub spaced : is_spaced false s ≡ true
  pub starts : starts_in_dash s ≡ false

replace_others_coded :
    (inside : Bool) (s : List ℕ) → all is_slug_code (replace_others inside s) ≡ true
unfolding replace_others
replace_others_coded inside [] = refl
replace_others_coded inside (c ∷ s) =
    ground (arith, replace_others_coded false s, replace_others_coded true s)

collapse_coded :
    (after : Bool) (s : List ℕ)
    → all is_slug_code s ≡ true
    → all is_slug_code (collapse after s) ≡ true
unfolding collapse
collapse_coded after [] h = refl
collapse_coded after (c ∷ s) h = ground (arith, collapse_coded (nat_eq c dash) s)

collapse_spaced : (after : Bool) (s : List ℕ) → is_spaced after (collapse after s) ≡ true
unfolding collapse
collapse_spaced after [] = refl
collapse_spaced true (c ∷ s) = ground (arith, collapse_spaced true s, collapse_spaced false s)
collapse_spaced false (c ∷ s) = ground (arith, collapse_spaced true s, collapse_spaced false s)

-- A text that is spaced behind a dash is spaced behind anything.
is_spaced_weaken : (after : Bool) (s : List ℕ) → is_spaced after s ≡ true → is_spaced false s ≡ true
is_spaced_weaken after [] h = refl
is_spaced_weaken true (c ∷ s) h = ground arith
is_spaced_weaken false (c ∷ s) h = h

strip_start-IsShaped :
    (s : List ℕ) → all is_slug_code s ≡ true → is_spaced false s ≡ true → IsShaped (strip_start s)
unfolding strip_start
strip_start-IsShaped [] h k = record { coded = refl; spaced = refl; starts = refl }
strip_start-IsShaped (c ∷ s) h k =
    ground (arith, strip_start-IsShaped s, is_spaced_weaken (nat_eq c dash) s)

strip_end_coded : (s : List ℕ) → all is_slug_code s ≡ true → all is_slug_code (strip_end s) ≡ true
unfolding strip_end
strip_end_coded [] h = refl
strip_end_coded (c ∷ s) h = ground (arith, strip_end_coded s)

strip_end_spaced :
    (after : Bool) (s : List ℕ) → is_spaced after s ≡ true → is_spaced after (strip_end s) ≡ true
unfolding strip_end
strip_end_spaced after [] h = refl
strip_end_spaced after (c ∷ s) h = ground (arith, strip_end_spaced (nat_eq c dash) s)

strip_end_starts : (s : List ℕ) → starts_in_dash s ≡ false → starts_in_dash (strip_end s) ≡ false
unfolding strip_end
strip_end_starts [] h = refl
strip_end_starts (c ∷ s) h = ground arith

ends-keep_unless_last :
    (c : ℕ) (s : List ℕ) → ends_in_dash s ≡ false → ends_in_dash (keep_unless_last c s) ≡ false
ends-keep_unless_last c [] h = ground arith
ends-keep_unless_last c (d ∷ s) h = h

strip_end_ends : (s : List ℕ) → ends_in_dash (strip_end s) ≡ false
unfolding strip_end
strip_end_ends [] = refl
strip_end_ends (c ∷ s) = ends-keep_unless_last c (strip_end s) (strip_end_ends s)

strip_end-IsShaped : (s : List ℕ) → IsShaped s → IsShaped (strip_end s)
strip_end-IsShaped s h = record {
  coded = strip_end_coded s h.coded;
  spaced = strip_end_spaced false s h.spaced;
  starts = strip_end_starts s h.starts;
}

pub squeezed-IsShaped : (v : List ℕ) → IsShaped (squeezed v)
unfolding squeezed
squeezed-IsShaped v =
    let raw = replace_others false (lower v) in
    strip_end-IsShaped (strip_start (collapse false raw)) (
      strip_start-IsShaped (collapse false raw)
        (collapse_coded false raw (replace_others_coded false (lower v)))
        (collapse_spaced false raw))

pub squeezed_ends : (v : List ℕ) → ends_in_dash (squeezed v) ≡ false
unfolding squeezed
squeezed_ends v = strip_end_ends (strip_start (collapse false (replace_others false (lower v))))

take_spaced :
    (n : ℕ) (after : Bool) (s : List ℕ)
    → is_spaced after s ≡ true
    → is_spaced after (take n s) ≡ true
take_spaced zero after s h = refl
take_spaced (suc n) after [] h = refl
take_spaced (suc n) after (c ∷ s) h = ground (arith, take_spaced n (nat_eq c dash) s)

take_coded : (n : ℕ) (s : List ℕ) → all is_slug_code s ≡ true → all is_slug_code (take n s) ≡ true
take_coded zero s h = refl
take_coded (suc n) [] h = refl
take_coded (suc n) (c ∷ s) h = ground (arith, take_coded n s)

take_starts : (n : ℕ) (s : List ℕ) → starts_in_dash s ≡ false → starts_in_dash (take n s) ≡ false
take_starts zero s h = refl
take_starts (suc n) [] h = refl
take_starts (suc n) (c ∷ s) h = h

-- Whatever is typed, the slug has only the codes a-z, 0-9 and the dash, no dash at its start, no
-- two dashes in a row, and at most 64 codes.
pub normalize_public_page_slug-IsShaped :
    (value : List ℕ)
    → IsShaped (normalize_public_page_slug value)
      × (length (normalize_public_page_slug value) ≤ max_slug)
unfolding normalize_public_page_slug
normalize_public_page_slug-IsShaped value =
    let h = squeezed-IsShaped value in
    (
      record {
        coded = take_coded max_slug (squeezed value) h.coded;
        spaced = take_spaced max_slug false (squeezed value) h.spaced;
        starts = take_starts max_slug (squeezed value) h.starts;
      },
      omega (arith, length-take max_slug (squeezed value)),
    )
