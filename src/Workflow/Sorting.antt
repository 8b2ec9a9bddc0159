-- ===== src/Workflow/Sorting.antt =====
-- The sorted order of the statuses.
use justprojects.Base.{
  ℕ, ◌+◌, ◌≤◌, ◌≡◌, refl, ap, sym, ◌∙◌, List, [], ◌∷◌, ◌++◌, map, leb, arith, All, All-append,
  Bool-cases, inl, inr,
}
use mathlib.Core.List.{Perm, append_assoc, perm_middle, append-nil}
use mathlib.Core.List.Perm
use justprojects.Types.{ProjectStatus}
use justprojects.Workflow.{insert_status, sort_statuses, ordered_statuses, renumber}

abbrev pub IsOrdered : List ProjectStatus → Type 0
IsOrdered [] = Unit
IsOrdered (s ∷ ss) = All (λ t. s.position ≤ t.position) ss × IsOrdered ss

All-insert :
    (P : ProjectStatus → Type 0) (s : ProjectStatus) (ts : List ProjectStatus)
    → P s
    → All P ts
    → All P (insert_status s ts)
unfolding insert_status
All-insert P s [] p h = (p, tt)
All-insert P s (t ∷ ts) p h = elim (Bool-cases (leb t.position s.position)) [
  | inl le ↦ rw le (h.0, All-insert P s ts p h.1)
  | inr gt ↦ rw gt (p, h)
]

weaken :
    (a b : ℕ) (ts : List ProjectStatus)
    → a ≤ b
    → All (λ t. b ≤ t.position) ts
    → All (λ t. a ≤ t.position) ts
weaken a b [] le h = tt
weaken a b (t ∷ ts) le h = (omega (arith, h.0), weaken a b ts le h.1)

insert_status-IsOrdered :
    (s : ProjectStatus) (ts : List ProjectStatus) → IsOrdered ts → IsOrdered (insert_status s ts)
unfolding insert_status
insert_status-IsOrdered s [] h = (tt, tt)
insert_status-IsOrdered s (t ∷ ts) h = elim (Bool-cases (leb t.position s.position)) [
  | inl le ↦ rw le (
    All-insert (λ u. t.position ≤ u.position) s ts (ground arith) h.0,
    insert_status-IsOrdered s ts h.1,
  )
  | inr gt ↦
      let lt : s.position ≤ t.position = ground arith in
      rw gt ((lt, weaken s.position t.position ts lt h.0), h)
]

insert_status-perm :
    (s : ProjectStatus) (ts : List ProjectStatus) → Perm (insert_status s ts) (s ∷ ts)
unfolding insert_status
insert_status-perm s [] = Perm.refl (s ∷ [])
insert_status-perm s (t ∷ ts) = elim (Bool-cases (leb t.position s.position)) [
  | inl le ↦ rw le (Perm.trans (Perm.cons t (insert_status-perm s ts)) (Perm.swap s t ts))
  | inr gt ↦ rw gt (Perm.refl (s ∷ t ∷ ts))
]

sort_statuses-IsOrdered :
    (ss done : List ProjectStatus) → IsOrdered done → IsOrdered (sort_statuses ss done)
unfolding sort_statuses
sort_statuses-IsOrdered [] done h = h
sort_statuses-IsOrdered (s ∷ ss) done h =
    sort_statuses-IsOrdered ss (insert_status s done) (insert_status-IsOrdered s done h)

sort_statuses-perm : (ss done : List ProjectStatus) → Perm (sort_statuses ss done) (ss ++ done)
unfolding sort_statuses
sort_statuses-perm [] done = Perm.refl done
sort_statuses-perm (s ∷ ss) done =
    Perm.trans (sort_statuses-perm ss (insert_status s done))
      (Perm.trans (Perm.append_left ss (insert_status-perm s done)) (perm_middle ss done))

-- The shown statuses are those of the project, each as often, in ascending positions.
pub ordered_statuses-IsOrdered :
    (statuses : List ProjectStatus)
    → IsOrdered (ordered_statuses statuses) × Perm (ordered_statuses statuses) statuses
unfolding ordered_statuses
ordered_statuses-IsOrdered statuses =
    (sort_statuses-IsOrdered statuses [] tt, rw (append-nil) at (sort_statuses-perm statuses []))

insert_last :
    (s : ProjectStatus) (done : List ProjectStatus)
    → All (λ t. t.position ≤ s.position) done
    → insert_status s done ≡ done ++ s ∷ []
unfolding insert_status
insert_last s [] h = refl
insert_last s (t ∷ done) h = ground (arith, insert_last s done h.1, h.0)

-- `done` lies before `ss`.
abbrev Before : List ProjectStatus → List ProjectStatus → Type 0
Before done ss = All (λ s. All (λ t. t.position ≤ s.position) done) ss

Before-snoc :
    (done : List ProjectStatus) (s : ProjectStatus) (ss : List ProjectStatus)
    → Before done ss
    → All (λ t. s.position ≤ t.position) ss
    → Before (done ++ s ∷ []) ss
Before-snoc done s [] b h = tt
Before-snoc done s (t ∷ ss) b h = (
  All-append (λ u. u.position ≤ t.position) done (s ∷ []) b.0 (h.0, tt),
  Before-snoc done s ss b.1 h.1,
)

sort_ordered :
    (ss done : List ProjectStatus)
    → IsOrdered ss
    → Before done ss
    → sort_statuses ss done ≡ done ++ ss
unfolding sort_statuses
sort_ordered [] done h b = sym (append-nil done)
sort_ordered (s ∷ ss) done h b = rw (insert_last s done b.0) (
    sort_ordered ss (done ++ s ∷ []) h.1 (Before-snoc done s ss b.1 h.0)
    ∙ append_assoc done (s ∷ []) ss)

Before-nil : (ss : List ProjectStatus) → Before [] ss
Before-nil [] = tt
Before-nil (s ∷ ss) = (tt, Before-nil ss)

-- A list in ascending positions is shown as it is.
pub ordered_statuses_fixed : (ss : List ProjectStatus) → IsOrdered ss → ordered_statuses ss ≡ ss
unfolding ordered_statuses
ordered_statuses_fixed ss h = sort_ordered ss [] h (Before-nil ss)

renumber_from :
    (m n : ℕ) (ss : List ProjectStatus) → m ≤ n → All (λ t. m ≤ t.position) (renumber n ss)
unfolding renumber
renumber_from m n [] le = tt
renumber_from m n (s ∷ ss) le = (le, renumber_from m (n + 1) ss (omega arith))

pub renumber-IsOrdered : (n : ℕ) (ss : List ProjectStatus) → IsOrdered (renumber n ss)
unfolding renumber
renumber-IsOrdered n [] = tt
renumber-IsOrdered n (s ∷ ss) =
    (renumber_from n (n + 1) ss (omega arith), renumber-IsOrdered (n + 1) ss)

pub ids-renumber :
    (n : ℕ) (ss : List ProjectStatus) → map (λ s. s.id) (renumber n ss) ≡ map (λ s. s.id) ss
unfolding renumber
ids-renumber n [] = refl
ids-renumber n (s ∷ ss) = ap (λ r. s.id ∷ r) (ids-renumber (n + 1) ss)
