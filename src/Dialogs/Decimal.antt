-- ===== src/Dialogs/Decimal.antt =====
-- A natural number as a text and back: `n.toString()`, and `Number(s)` for the texts that a field of
-- whole numbers can hold, which are digits.
use justprojects.Base.{
  ℕ, zero, suc, ◌+◌, ◌-◌, ◌*◌, ◌/◌, ◌%◌, ◌≤◌, ◌≡◌, refl, ◌∙◌, List, [], ◌∷◌, ◌++◌, ltb, arith,
  if◌then◌else◌, Bool, Bool-cases, inl, inr, true, false,
}

-- with fuel for each digit
abbrev digits : ℕ → ℕ → List ℕ
digits zero n = []
digits (suc fuel) n =
    let front = digits fuel (n / 10) in
    if ltb n 10 then (b'0' + n) ∷ [] else front ++ (b'0' + n % 10) ∷ []

-- `n.toString()`
abbrev pub show_nat : ℕ → List ℕ
show_nat n = digits (suc n) n

abbrev read_from : ℕ → List ℕ → ℕ
read_from n [] = n
read_from n (c ∷ s) = read_from (10 * n + (c - b'0')) s

-- `Number(s)`
abbrev pub read_nat : List ℕ → ℕ
read_nat s = read_from 0 s

read_from-snoc :
    (n : ℕ) (s : List ℕ) (c : ℕ) → read_from n (s ++ c ∷ []) ≡ 10 * read_from n s + (c - b'0')
read_from-snoc n [] c = refl
read_from-snoc n (d ∷ s) c = read_from-snoc (10 * n + (d - b'0')) s c

read-digits : (fuel n : ℕ) → suc n ≤ fuel → read_nat (digits fuel n) ≡ n
read-digits zero n h = absurd (omega arith)
read-digits (suc fuel) n h = elim (Bool-cases (ltb n 10)) [
  | inl small ↦ rw small (omega arith)
  | inr large ↦
      let big : 10 ≤ n = ground (arith, large) in
      rw large (
        read_from-snoc 0 (digits fuel (n / 10)) (b'0' + n % 10)
        ∙ omega (arith, read-digits fuel (n / 10) (omega arith)))
]

-- What was printed is read back.
pub read-show : (n : ℕ) → read_nat (show_nat n) ≡ n
read-show n = read-digits (suc n) n (omega arith)

-- A list that begins somewhere.
abbrev pub IsCons : List ℕ → Type 0
IsCons s = (c : ℕ) × (rest : List ℕ) × (s ≡ c ∷ rest)

snoc-IsCons : (s : List ℕ) (c : ℕ) → IsCons (s ++ c ∷ [])
snoc-IsCons [] c = (c, [], refl)
snoc-IsCons (d ∷ s) c = (d, s ++ c ∷ [], refl)

if-IsCons : (test : Bool) (s t : List ℕ) → IsCons s → IsCons t → IsCons (if test then s else t)
if-IsCons true s t h g = h
if-IsCons false s t h g = g

-- A number is printed with a digit at least.
pub show_nat-IsCons : (n : ℕ) → IsCons (show_nat n)
show_nat-IsCons n =
    if-IsCons (ltb n 10) _ _ (b'0' + n, [], refl) (snoc-IsCons (digits n (n / 10)) _)
