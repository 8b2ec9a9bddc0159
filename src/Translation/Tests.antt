-- ===== src/Translation/Tests.antt =====
-- Translations at concrete inputs.
use justprojects.Base.{ℕ, ◌≡◌, refl, Option, none, some, List, [], ◌∷◌, codes}
use justprojects.Translation.{english, german, translate, detect_browser_locale, fill, fill_from}
use justprojects.Translation.Fill.{Piece, plain, slot, render, translate-print}

abbrev english_text : Unit {0} → List ℕ
english_text u = codes "Deleted {name}."

abbrev german_text : Unit {0} → Option (List ℕ)
german_text u = some (codes "{name} wurde gelöscht.")

abbrev any_name : List ℕ → Option (List ℕ)
any_name n = some (codes "Rocket")

abbrev german_pieces : List Piece
german_pieces = slot (codes "name") ∷ plain (codes " wurde gelöscht.") ∷ []

translate-print_example :
    translate english_text german_text german tt any_name ≡ render any_name german_pieces
translate-print_example =
    translate-print english_text german_text german tt any_name german_pieces
      ((refl, λ e. cc), (refl, tt)) refl

fill_tests :
    (fill any_name (codes "a {{b} {} { c} {d") ≡ codes "a {Rocket {} { c} {d")
    × (fill (λ n. none) (codes "{a} {b{c}") ≡ codes "{a} {b{c}")
unfolding fill fill_from
fill_tests = (refl, refl)

locale_tests :
    (detect_browser_locale (some "DE-ch") ≡ german)
    × (detect_browser_locale (some "en-US") ≡ english)
unfolding detect_browser_locale
locale_tests = (refl, refl)
