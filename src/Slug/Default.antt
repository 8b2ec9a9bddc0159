-- ===== src/Slug/Default.antt =====
-- The slug that is proposed for a project: `defaultPublicPageSlug`.
use justprojects.Base.{
  ℕ, zero, suc, ◌+◌, ◌≤◌, ◌<◌, ◌≡◌, refl, ap, ◌∙◌, ◌≢◌, inr, List, [], ◌∷◌, ◌++◌, Bool, true, false,
  nat_eq, arith, length, take, all, codes, length-append,
}
use justprojects.Slug.{
  dash, is_slug_code, max_slug, squeezed, normalize_public_page_slug, is_valid_public_page_slug,
  default_public_page_slug, or_text,
}
use justprojects.Slug.Shape.{
  IsShaped, is_spaced, starts_in_dash, ends_in_dash, squeezed-IsShaped, squeezed_ends,
}
use justprojects.Slug.Normal.{
  squeezed_of_IsShaped, normalize_public_page_slug_fixed, is_valid_public_page_slug_iff,
}

abbrev suffix : List ℕ
suffix = codes "-status"

take_short : (n : ℕ) (s : List ℕ) → length (take n s) < n → take n s ≡ s
take_short zero s h = absurd (omega arith)
take_short (suc n) [] h = refl
take_short (suc n) (c ∷ s) h = ap (λ t. c ∷ t) (take_short n s (omega arith))

take-append : (m n : ℕ) (k t : List ℕ) → m ≡ length k + n → take m (k ++ t) ≡ k ++ take n t
take-append m n [] t e = let same : m ≡ n = omega arith in rw same
take-append zero n (c ∷ k) t e = absurd (omega arith)
take-append (suc m) n (c ∷ k) t e = ap (λ r. c ∷ r) (take-append m n k t (omega arith))

-- A slug that the length limit did not cut.
record IsWhole (k : List ℕ) : Type 0 where
  shaped : IsShaped k
  filled : k ≢ []
  ends : ends_in_dash k ≡ false

all-append : (k : List ℕ) → all is_slug_code k ≡ true → all is_slug_code (k ++ suffix) ≡ true
all-append [] h = refl
all-append (c ∷ k) h = ground (arith, all-append k)

is_spaced-append :
    (after : Bool) (k : List ℕ)
    → k ≢ []
    → is_spaced after k ≡ true
    → ends_in_dash k ≡ false
    → is_spaced after (k ++ suffix) ≡ true
is_spaced-append after [] f h e = absurd (f refl)
is_spaced-append after (c ∷ []) f h e = ground arith
is_spaced-append after (c ∷ d ∷ k) f h e = ground (arith, is_spaced-append (nat_eq c dash) (d ∷ k))

starts-append :
    (k : List ℕ) → k ≢ [] → starts_in_dash k ≡ false → starts_in_dash (k ++ suffix) ≡ false
starts-append [] f h = absurd (f refl)
starts-append (c ∷ k) f h = h

ends-append : (k : List ℕ) → ends_in_dash (k ++ suffix) ≡ false
ends-append [] = refl
ends-append (c ∷ []) = refl
ends-append (c ∷ d ∷ k) = ends-append (d ∷ k)

-- The key's slug, or "project", followed by "-status", before it is cut.
full-IsShaped : (k : List ℕ) → IsWhole k → IsShaped (k ++ suffix)
full-IsShaped k w = record {
  coded = all-append k w.shaped.coded;
  spaced = is_spaced-append false k w.filled w.shaped.spaced w.ends;
  starts = starts-append k w.filled w.shaped.starts;
}

squeezed_full : (k : List ℕ) → IsWhole k → squeezed (k ++ suffix) ≡ k ++ suffix
squeezed_full k w = squeezed_of_IsShaped (k ++ suffix) (full-IsShaped k w) (ends-append k)

normalize_full :
    (k : List ℕ)
    → IsWhole k
    → length k ≤ 57
    → normalize_public_page_slug (k ++ suffix) ≡ k ++ suffix
normalize_full k w h =
    normalize_public_page_slug_fixed (k ++ suffix) (full-IsShaped k w) (ends-append k)
      (omega (arith, length-append k suffix))

-- A normalized text that is shorter than the limit was not cut.
normalize-IsWhole :
    (key : List ℕ)
    → length (normalize_public_page_slug key) < max_slug
    → normalize_public_page_slug key ≢ []
    → IsWhole (normalize_public_page_slug key)
unfolding normalize_public_page_slug
normalize-IsWhole key short f =
    let same : take max_slug (squeezed key) ≡ squeezed key =
      take_short max_slug (squeezed key) short in
    record {
      shaped = rw same (squeezed-IsShaped key);
      filled = f;
      ends = rw same (squeezed_ends key);
    }

abbrev project_text : List ℕ
project_text = codes "project"

project-IsWhole : IsWhole project_text
project-IsWhole = record {
  shaped = record { coded = refl; spaced = refl; starts = refl };
  filled = λ e. cc;
  ends = refl;
}

-- What stands before "-status": the key's slug, or "project" for a key that has none.
abbrev pub slug_stem : List ℕ → List ℕ
slug_stem key = or_text (normalize_public_page_slug key) project_text

or_text-IsWhole : (s : List ℕ) → (s ≢ [] → IsWhole s) → IsWhole (or_text s project_text)
or_text-IsWhole [] h = project-IsWhole
or_text-IsWhole (c ∷ s) h = h (λ e. cc)

or_text_filled : (s : List ℕ) → s ≢ [] → or_text s project_text ≡ s
or_text_filled [] f = absurd (f refl)
or_text_filled (c ∷ s) f = refl

length-or_text : (s : List ℕ) → length s ≤ 57 → length (or_text s project_text) ≤ 57
length-or_text [] h = omega arith
length-or_text (c ∷ s) h = h

is_valid_full :
    (k : List ℕ) → IsWhole k → length k ≤ 57 → is_valid_public_page_slug (k ++ suffix) ≡ true
is_valid_full k w h =
    let shaped = full-IsShaped k w in
    (is_valid_public_page_slug_iff (k ++ suffix)).1 (
      shaped.coded,
      shaped.starts,
      ends-append k,
      inr (omega (arith, length-append k suffix), omega (arith, length-append k suffix)),
    )

-- For a key whose slug has at most 57 codes, the proposed slug is the key's slug (or "project")
-- followed by "-status", and it is accepted.
pub default_public_page_slug_valid :
    (key : List ℕ)
    → length (normalize_public_page_slug key) ≤ 57
    → (default_public_page_slug key ≡ slug_stem key ++ suffix)
      × (is_valid_public_page_slug (default_public_page_slug key) ≡ true)
unfolding default_public_page_slug
default_public_page_slug_valid key h =
    let w =
      or_text-IsWhole (normalize_public_page_slug key) (normalize-IsWhole key (omega arith)) in
    let short = length-or_text (normalize_public_page_slug key) h in
    let same = normalize_full (slug_stem key) w short in
    (same, rw same (is_valid_full (slug_stem key) w short))

normalize_cut :
    (k : List ℕ)
    → IsWhole k
    → length k ≡ 63
    → normalize_public_page_slug (k ++ suffix) ≡ k ++ dash ∷ []
unfolding normalize_public_page_slug
normalize_cut k w h = rw (squeezed_full k w) (take-append 64 1 k suffix (omega arith))

ends_in_dash-append : (k : List ℕ) → ends_in_dash (k ++ dash ∷ []) ≡ true
ends_in_dash-append [] = refl
ends_in_dash-append (c ∷ []) = refl
ends_in_dash-append (c ∷ d ∷ k) = ends_in_dash-append (d ∷ k)

is_valid_cut : (k : List ℕ) → is_valid_public_page_slug (k ++ dash ∷ []) ≡ false
is_valid_cut k =
    ground (arith, is_valid_public_page_slug_iff (k ++ dash ∷ []), ends_in_dash-append k)

-- For a key whose slug has 63 codes, "-status" is cut behind its dash, and the proposed slug is
-- refused.
pub default_public_page_slug_cut :
    (key : List ℕ)
    → length (normalize_public_page_slug key) ≡ 63
    → (default_public_page_slug key ≡ normalize_public_page_slug key ++ dash ∷ [])
      × (is_valid_public_page_slug (default_public_page_slug key) ≡ false)
unfolding default_public_page_slug
default_public_page_slug_cut key h =
    let k = normalize_public_page_slug key in
    let w = normalize-IsWhole key (omega arith) (λ e. absurd (omega (arith, ap length e))) in
    let same =
      ap (λ s. normalize_public_page_slug (s ++ suffix)) (or_text_filled k w.filled)
      ∙ normalize_cut k w h in
    (same, rw same (is_valid_cut k))
