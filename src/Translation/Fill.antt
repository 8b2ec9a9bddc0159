-- ===== src/Translation/Fill.antt =====
-- Templates with placeholders, printed and filled.
use justprojects.Base.{
  ℕ, ◌≡◌, refl, ap, sym, ◌∙◌, true, false, Option, none, some, List, [], ◌∷◌, ◌++◌, all, any,
  nat_eq, arith, All, leb, Bool, ◌&&◌, ◌||◌, ◌≢◌, inl, inr, Option-cases,
}
use mathlib.Core.List.{append_assoc, append-nil}
use justprojects.Translation.{
  is_word_code, open_brace, close_brace, filled, is_empty, fill_from, fill, Locale, template_of,
  translate, english, german,
}

-- a piece of a template
pub data Piece : Type 0 where
  plain : List ℕ → Piece
  slot : List ℕ → Piece

-- a letter without an accent, a digit or an underscore
abbrev pub is_word_letter : ℕ → Bool
is_word_letter c =
    (leb 97 c && leb c 122) || (leb 65 c && leb c 90) || (leb 48 c && leb c 57) || nat_eq c 95

-- the template, and what it becomes
abbrev pub print : List Piece → List ℕ
print [] = []
print (plain text ∷ ps) = text ++ print ps
print (slot name ∷ ps) = b'{' ∷ name ++ b'}' ∷ print ps

abbrev pub render : (List ℕ → Option (List ℕ)) → List Piece → List ℕ
render values [] = []
render values (plain text ∷ ps) = text ++ render values ps
render values (slot name ∷ ps) = elim (values name) [
  | none ↦ b'{' ∷ name ++ b'}' ∷ render values ps
  | some text ↦ text ++ render values ps
]

-- Plain text has no opening brace, a name is made of word codes and is not empty.
abbrev pub IsPiece : Piece → Type 0
IsPiece (plain text) = any (nat_eq b'{') text ≡ false
IsPiece (slot name) = (all is_word_letter name ≡ true) × (name ≢ [])

is_empty_lem : (s : List ℕ) → s ≢ [] → is_empty s ≡ false
is_empty_lem [] h = absurd (h refl)
is_empty_lem (c ∷ s) h = refl

module _ (values : List ℕ → Option (List ℕ)) where
  fill-plain :
      (text s : List ℕ)
      → any (nat_eq open_brace) text ≡ false
      → fill_from values none (text ++ s) ≡ text ++ fill_from values none s
  unfolding fill_from
  fill-plain [] s h = refl
  fill-plain (c ∷ text) s h = ground (arith, fill-plain text s)

  fill-name :
      (read name s : List ℕ)
      → all is_word_code name ≡ true
      → is_empty (read ++ name) ≡ false
      → fill_from values (some read) (name ++ close_brace ∷ s)
        ≡ filled values (read ++ name) ++ fill_from values none s
  unfolding fill_from
  fill-name read [] s w n = ground (arith, sym (append-nil read))
  fill-name read (c ∷ name) s w n =
      ground (arith, fill-name (read ++ c ∷ []) name s, append_assoc read (c ∷ []) name)

  -- what a placeholder becomes, spelled out
  filled-render :
      (name rest : List ℕ)
      → filled values name ++ rest
        ≡ elim (values name) [ none ↦ b'{' ∷ name ++ b'}' ∷ rest | some text ↦ text ++ rest ]
  filled-render name rest = elim (Option-cases (values name)) [
    | inl missing ↦ rw missing (ap (λ s. b'{' ∷ s) (append_assoc name (b'}' ∷ []) rest))
    | inr found ↦ rw found.1 refl
  ]

  fill-print :
      (ps : List Piece) → All IsPiece ps → fill_from values none (print ps) ≡ render values ps
  unfolding fill_from
  fill-print [] h = refl
  fill-print (plain text ∷ ps) h =
      fill-plain text (print ps) h.0 ∙ ap (λ t. text ++ t) (fill-print ps h.1)
  fill-print (slot name ∷ ps) h =
      fill-name [] name (print ps) h.0.0 (is_empty_lem name h.0.1)
      ∙ ap (λ t. filled values name ++ t) (fill-print ps h.1)
      ∙ filled-render name (render values ps)

template_of_lem :
    {Key : Type 0} (english_text : Key → List ℕ) (german_text : Key → Option (List ℕ))
    (locale : Locale) (key : Key)
    → template_of english_text german_text locale key ≡ elim locale [
      | english ↦ english_text key
      | german ↦ elim (german_text key) [ none ↦ english_text key | some text ↦ text ]
    ]
unfolding template_of
template_of_lem english_text german_text english key = refl
template_of_lem english_text german_text german key = elim (Option-cases (german_text key)) [
  | inl missing ↦ rw missing refl
  | inr found ↦ rw found.1 refl
]

-- For either language, if the text of a key (in German the English one if there is no other) is made of plain pieces without an opening brace
-- and of placeholders whose name is a non-empty word, the translation is those pieces in order,
-- each placeholder replaced by its value, or by itself if it has none.
pub translate-print :
    {Key : Type 0} (english_text : Key → List ℕ) (german_text : Key → Option (List ℕ))
    (locale : Locale) (key : Key) (values : List ℕ → Option (List ℕ)) (ps : List Piece)
    → All IsPiece ps
    → (elim locale [
      | english ↦ english_text key
      | german ↦ elim (german_text key) [ none ↦ english_text key | some text ↦ text ]
    ])
      ≡ print ps
    → translate english_text german_text locale key values ≡ render values ps
unfolding translate fill
translate-print english_text german_text locale key values ps h e =
    ap (fill_from values none) (template_of_lem english_text german_text locale key ∙ e)
    ∙ fill-print values ps h
