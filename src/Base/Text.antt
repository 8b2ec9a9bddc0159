-- ===== src/Base/Text.antt =====
-- Texts character by character: `codes`, `toLowerCase` and `trim`.
-- A letter outside ASCII and Latin-1 keeps its case in `lower`, but for the two code points beyond
-- Latin-1 whose lower case has an ASCII letter in it (U+0130 and U+212A).
use Prim.Native.Nat.{ℕ, zero, suc, ◌+◌}
use Prim.Native.Char.{code}
use Prim.Native.String.{String}
use mathlib.Core.Bool.{Bool, true, false, ◌&&◌, ◌||◌, not}
use mathlib.Core.Path.{◌≡◌}
use mathlib.Core.Logic.{◌↔◌}
use mathlib.Core.Option.{Option, none, some}
use native.Mathlib.Omega.{arith}
use text.Mathlib.TextEquality.{eq_iff}
use mathlib.Core.List.{List, [], ◌∷◌, ◌++◌, reverse}
use text.Mathlib.Text.{◌==◌}
use justprojects.Base.Tests.{leb, nat_eq, if◌then◌else◌}

abbrev pub codes : String → List ℕ
codes String.[] = []
codes (String.◌∷◌ c s) = code c ∷ codes s

-- `===` on texts given by their codes
abbrev pub codes_eq : List ℕ → List ℕ → Bool
codes_eq [] [] = true
codes_eq (c ∷ s) (d ∷ t) = nat_eq c d && codes_eq s t
codes_eq _ _ = false

-- a text as a condition: the empty text is false
abbrev pub truthy : String → Bool
truthy s = not (s == "")

abbrev pub lower_code : ℕ → List ℕ
lower_code c =
    if (leb b'A' c && leb c b'Z') || (leb 0xc0 c && leb c 0xde && not (nat_eq c 0xd7))
    then (c + 32) ∷ []
    else if nat_eq c 0x130
    then b'i' ∷ 0x307 ∷ []
    else if nat_eq c 0x212a
    then b'k' ∷ []
    else c ∷ []

-- `s.toLowerCase()`
abbrev pub lower : List ℕ → List ℕ
lower [] = []
lower (c ∷ s) = lower_code c ++ lower s

-- the white space and line ends of ECMAScript
abbrev pub is_space : ℕ → Bool
is_space c =
    (leb 9 c && leb c 13)
    || nat_eq c 32
    || nat_eq c 0xa0
    || nat_eq c 0x1680
    || (leb 0x2000 c && leb c 0x200a)
    || nat_eq c 0x2028
    || nat_eq c 0x2029
    || nat_eq c 0x202f
    || nat_eq c 0x205f
    || nat_eq c 0x3000
    || nat_eq c 0xfeff

abbrev pub trim_start : List ℕ → List ℕ
trim_start [] = []
trim_start (c ∷ s) = let rest = trim_start s in if is_space c then rest else c ∷ s

-- `s.trim()`
abbrev pub trim : List ℕ → List ℕ
trim s = reverse (trim_start (reverse (trim_start s)))

abbrev starts : List ℕ → List ℕ → Bool
starts s [] = true
starts [] (d ∷ t) = false
starts (c ∷ s) (d ∷ t) = nat_eq c d && starts s t

-- `s.includes(t)`
abbrev pub includes : List ℕ → List ℕ → Bool
includes [] t = starts [] t
includes (c ∷ s) t = starts (c ∷ s) t || includes s t

-- `===` on values that are a text or null
abbrev pub same_text : Option String → Option String → Bool
same_text none none = true
same_text (some a) (some b) = a == b
same_text _ _ = false

pub same_text_iff : (a b : Option String) → (same_text a b ≡ true) ↔ (a ≡ b)
same_text_iff none none = ground arith
same_text_iff none (some b) = ground arith
same_text_iff (some a) none = ground arith
same_text_iff (some a) (some b) = ground (arith, eq_iff a b)

abbrev trim_end : String → String
trim_end String.[] = ""
trim_end (String.◌∷◌ c s) =
    let rest = trim_end s in
    if is_space (code c) then (if truthy rest then String.◌∷◌ c rest else "") else String.◌∷◌ c rest

abbrev trim_front : String → String
trim_front String.[] = ""
trim_front (String.◌∷◌ c s) =
    let rest = trim_front s in if is_space (code c) then rest else String.◌∷◌ c s

-- `s.trim()`, as a text
abbrev pub trim_text : String → String
trim_text s = trim_end (trim_front s)

-- `s.slice(0, n)`
abbrev pub slice_text : ℕ → String → String
slice_text zero s = ""
slice_text (suc n) String.[] = ""
slice_text (suc n) (String.◌∷◌ c s) = String.◌∷◌ c (slice_text n s)
