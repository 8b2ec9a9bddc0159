-- ===== src/TaskList/Path.antt =====
-- The chain of parents that `walk` is in: it never holds an identifier twice, so it is no longer than
-- the list of tasks.
use justprojects.Base.{
  suc, String, ◌≤◌, ◌≡◌, refl, ap, sym, ◌∙◌, ◌≢◌, Option, none, some, List, [], ◌∷◌, length, All,
  arith, if◌then◌else◌, Bool-cases, ◌==◌, eq_iff, eq_refl,
}
use mathlib.Core.List.{Memᴰ}
use mathlib.Core.List.Memᴰ
use mathlib.Core.Path.{subst}
use mathlib.Core.Logic.{inl, inr}
use justprojects.Types.{present, Task}

-- Every task is the child of the one behind it, and the last one has no parent.
abbrev pub IsPath : List Task → Type 0
IsPath [] = Unit
IsPath (t ∷ []) = present t.parent_id ≡ none
IsPath (t ∷ u ∷ r) = (present t.parent_id ≡ some u.id) × IsPath (u ∷ r)

abbrev pub IsAbsent : String → List Task → Type 0
IsAbsent id = All (λ u. u.id ≢ id)

abbrev pub IsDistinct : List Task → Type 0
IsDistinct [] = Unit
IsDistinct (t ∷ ts) = IsAbsent t.id ts × IsDistinct ts

-- the parent that a path asks the children of
abbrev pub end_of : List Task → Option String
end_of [] = none
end_of (t ∷ ts) = some t.id

-- Tasks of one identifier have one parent.
abbrev pub HaveOneParent : List Task → Type 0
HaveOneParent tasks =
    All (λ t. All (λ u. t.id ≡ u.id → present t.parent_id ≡ present u.parent_id) tasks) tasks

pub All-at : {A : Type 0} (P : A → Type 0) (xs : List A) (x : A) → Memᴰ x xs → All P xs → P x
All-at P [] x m h = absurd (Memᴰ.not-nil m)
All-at P (y ∷ ys) x m h = elim (Memᴰ.cases_cons m) [
  | inl e ↦ subst P (sym e) h.0
  | inr later ↦ All-at P ys x later h.1
]

-- No path holds a task and, above it, a task whose parent it is.
behind :
    (k : String) (t : Task) (r : List Task)
    → IsPath (t ∷ r)
    → IsAbsent k r
    → present t.parent_id ≢ some k
behind k t [] p a e = cc
behind k t (u ∷ r) p a e = a.0 (ground arith)

-- No task of a path is the child of an identifier that is not in it, but possibly the first.
All-behind :
    (k : String) (t : Task) (r : List Task)
    → IsPath (t ∷ r)
    → IsAbsent k r
    → All (λ u. present u.parent_id ≢ some k) (t ∷ r)
All-behind k t [] p a = (behind k t [] p a, tt)
All-behind k t (u ∷ r) p a = (behind k t (u ∷ r) p a, All-behind k u r p.1 a.1)

-- A child of the first task of a path of distinct tasks is not in the path.
IsAbsent-of_parents :
    (tasks : List Task) (k : String) (t : Task) (us : List Task)
    → HaveOneParent tasks
    → Memᴰ t tasks
    → All (λ u. Memᴰ u tasks) us
    → present t.parent_id ≡ some k
    → All (λ u. present u.parent_id ≢ some k) us
    → IsAbsent t.id us
IsAbsent-of_parents tasks k t [] one m ms e h = tt
IsAbsent-of_parents tasks k t (u ∷ us) one m ms e h = (
  (λ same. h.0 (
      All-at (λ v. u.id ≡ v.id → present u.parent_id ≡ present v.parent_id) tasks t m
        (All-at (λ v. All (λ w. v.id ≡ w.id → present v.parent_id ≡ present w.parent_id) tasks)
          tasks u ms.0 one)
        same
      ∙ e)),
  IsAbsent-of_parents tasks k t us one m ms.1 e h.1,
)

pub longer :
    (tasks : List Task) (t : Task) (path : List Task)
    → HaveOneParent tasks
    → Memᴰ t tasks
    → All (λ u. Memᴰ u tasks) path
    → present t.parent_id ≡ end_of path
    → IsPath path
    → IsDistinct path
    → IsPath (t ∷ path) × IsDistinct (t ∷ path)
longer tasks t [] one m ms e p d = (e, (tt, tt))
longer tasks t (u ∷ r) one m ms e p d =
    ((e, p), (IsAbsent-of_parents tasks u.id t (u ∷ r) one m ms e (All-behind u.id u r p d.0), d))

-- the list without the first tasks of an identifier
abbrev without : String → List Task → List Task
without k [] = []
without k (t ∷ ts) = if t.id == k then ts else t ∷ without k ts

without-length :
    (t : Task) (ts : List Task) → Memᴰ t ts → suc (length (without t.id ts)) ≡ length ts
without-length t [] m = absurd (Memᴰ.not-nil m)
without-length t (u ∷ us) m = elim (Bool-cases (u.id == t.id)) [
  | inl same ↦ rw same refl
  | inr other ↦ elim (Memᴰ.cases_cons m) [
    | inl e ↦ absurd (ground (arith, e, eq_refl u.id))
    | inr later ↦ rw other (ap suc (without-length t us later))
  ]
]

without-mem :
    (k : String) (t : Task) (ts : List Task) → t.id ≢ k → Memᴰ t ts → Memᴰ t (without k ts)
without-mem k t [] n m = m
without-mem k t (u ∷ us) n m = elim (Bool-cases (u.id == k)) [
  | inl same ↦ elim (Memᴰ.cases_cons m) [
    | inl e ↦ absurd (n (ap (λ v. v.id) e ∙ (eq_iff u.id k).0 same))
    | inr later ↦ rw same later
  ]
  | inr other ↦ elim (Memᴰ.cases_cons m) [
    | inl e ↦ rw other (Memᴰ.head e)
    | inr later ↦ rw other (Memᴰ.tail (without-mem k t us n later))
  ]
]

All-without :
    (k : String) (us ts : List Task)
    → IsAbsent k us
    → All (λ u. Memᴰ u ts) us
    → All (λ u. Memᴰ u (without k ts)) us
All-without k [] ts a m = tt
All-without k (u ∷ us) ts a m = (without-mem k u ts a.0 m.0, All-without k us ts a.1 m.1)

-- Distinct tasks of a list are no more than the list has.
pub length-distinct :
    (us ts : List Task) → IsDistinct us → All (λ u. Memᴰ u ts) us → length us ≤ length ts
length-distinct [] ts d m = omega arith
length-distinct (u ∷ us) ts d m = omega (
  arith,
  without-length u ts m.0,
  length-distinct us (without u.id ts) d.1 (All-without u.id us ts d.0 m.1),
)
