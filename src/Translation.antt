-- ===== src/Translation.antt =====
-- `translate` and `detectBrowserLocale` of services/frontend/lib/i18n.ts. A text is the list of its
-- codes. The two dictionaries, and the browser's language, are arguments.
pub mod Fill
mod Tests
use justprojects.Base.{
  ℕ, String, Bool, true, false, ◌&&◌, ◌||◌, Option, none, some, get_or, List, [], ◌∷◌, ◌++◌, nat_eq,
  leb, codes, lower, if◌then◌else◌,
}

pub data Locale : Type 0 where
  english german : Locale

-- `\w`
abbrev pub is_word_code : ℕ → Bool
is_word_code c =
    (leb b'a' c && leb c b'z')
    || (leb b'A' c && leb c b'Z')
    || (leb b'0' c && leb c b'9')
    || nat_eq c b'_'

abbrev pub open_brace : ℕ
open_brace = b'{'

abbrev pub close_brace : ℕ
close_brace = b'}'

-- `{${name}}`
abbrev pub braced : List ℕ → List ℕ
braced name = open_brace ∷ name ++ close_brace ∷ []

-- what a placeholder becomes
abbrev pub filled : (List ℕ → Option (List ℕ)) → List ℕ → List ℕ
filled values name = get_or (values name) (braced name)

abbrev pub is_empty : List ℕ → Bool
is_empty [] = true
is_empty (c ∷ s) = false

-- `template.replace(/\{(\w+)\}/g, ...)`. With `some name` an opening brace and the word codes `name`
-- have been read behind the last match.
pub fill_from : (List ℕ → Option (List ℕ)) → Option (List ℕ) → List ℕ → List ℕ
fill_from values none [] = []
fill_from values (some name) [] = open_brace ∷ name
fill_from values none (c ∷ s) =
    let plain = c ∷ fill_from values none s in
    let opened = fill_from values (some []) s in if nat_eq c open_brace then opened else plain
fill_from values (some name) (c ∷ s) =
    let longer = fill_from values (some (name ++ c ∷ [])) s in
    let matched = filled values name ++ fill_from values none s in
    let again = open_brace ∷ name ++ fill_from values (some []) s in
    let broken = open_brace ∷ name ++ c ∷ fill_from values none s in
    if is_word_code c
    then longer
    else if nat_eq c open_brace
    then again
    else if nat_eq c close_brace
    then (if is_empty name then broken else matched)
    else broken

pub fill : (List ℕ → Option (List ℕ)) → List ℕ → List ℕ
unfolding fill_from
fill values template = fill_from values none template

module _ {Key : Type 0} (english_text : Key → List ℕ) (german_text : Key → Option (List ℕ)) where
  pub template_of : Locale → Key → List ℕ
  template_of english key = english_text key
  template_of german key = get_or (german_text key) (english_text key)

  pub translate : Locale → Key → (List ℕ → Option (List ℕ)) → List ℕ
  unfolding template_of fill
  translate locale key values = fill values (template_of locale key)

-- `language.startsWith("de")`; none is a server without a browser
abbrev starts_german : List ℕ → Bool
starts_german (c ∷ d ∷ s) = nat_eq c b'd' && nat_eq d b'e'
starts_german _ = false

pub detect_browser_locale : Option String → Locale
detect_browser_locale none = english
detect_browser_locale (some language) =
    if starts_german (lower (codes language)) then german else english
