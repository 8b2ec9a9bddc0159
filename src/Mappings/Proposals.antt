-- ===== src/Mappings/Proposals.antt =====
-- The logins that are proposed.
use justprojects.Base.{
  ℕ, ◌+◌, String, ◌≡◌, refl, ap, ◌∙◌, Bool, true, false, not, ◌&&◌, get_or, List, [], ◌∷◌, ◌++◌,
  map, filter, any, codes, codes_eq, lower, any-append, any-snoc, arith, ◌==◌, eq_iff, Bool-cases,
  inl, inr, if◌then◌else◌,
}
use justprojects.Types.{Task, RemoteAssignee}
use justprojects.Workspace.{fulfilled}
use justprojects.Mappings.{
  GitUserMapping, Mappings, same_login, after_save_mapping, is_mapped, is_open, open_logins,
  distinct, unmapped_logins,
}

-- how often a login stands in a list
abbrev pub times : String → List String → ℕ
times login [] = 0
times login (x ∷ xs) = (if x == login then 1 else 0) + times login xs

-- A GitHub mapping has this login, apart from the case of letters.
abbrev pub has_mapping : List GitUserMapping → String → Bool
has_mapping mappings login =
    any
      (λ m. m.provider == "github" && codes_eq (lower (codes m.remote_login)) (lower (codes login)))
      mappings

-- The task has a GitHub assignee with this login who is not marked as mapped and whom no mapping has.
abbrev pub names : List GitUserMapping → String → Task → Bool
names mappings login task =
    any
      (λ a.
        (a.provider == "github" && (not a.mapped && not (has_mapping mappings a.login)))
        && a.login == login)
      (get_or task.remote_assignees [])

times-filter :
    (login x : String) (xs : List String)
    → times login (filter (λ y. not (y == x)) xs) ≡ (if x == login then 0 else times login xs)
times-filter login x [] = ground arith
times-filter login x (y ∷ ys) =
    ground (arith, times-filter login x ys, eq_iff x login, eq_iff y x, eq_iff y login)

times-distinct :
    (login : String) (xs : List String)
    → times login (distinct xs) ≡ (if any (λ x. x == login) xs then 1 else 0)
times-distinct login [] = refl
times-distinct login (x ∷ xs) =
    ground (arith, times-distinct login xs, times-filter login x (distinct xs))

any-assignees :
    (mappings : List GitUserMapping) (login : String) (xs : List RemoteAssignee)
    → any (λ x. x == login) (map (λ a. a.login) (filter (is_open mappings) xs))
      ≡ any (λ a. is_open mappings a && a.login == login) xs
any-assignees mappings login [] = refl
any-assignees mappings login (a ∷ xs) = ground (arith, any-assignees mappings login xs)

any-open_logins :
    (mappings : List GitUserMapping) (login : String) (tasks : List Task)
    → any (λ x. x == login) (open_logins mappings tasks) ≡ any (names mappings login) tasks
any-open_logins mappings login [] = refl
any-open_logins mappings login (task ∷ tasks) =
    let own = get_or task.remote_assignees [] in
    any-append (λ x. x == login) (map (λ a. a.login) (filter (is_open mappings) own))
      (open_logins mappings tasks)
    ∙ ground (arith, any-assignees mappings login own, any-open_logins mappings login tasks)

-- If sorting keeps how often a login stands in a list, each login of an open GitHub assignee of
-- some task is proposed once, and no other login is; an assignee is open if it is not marked as
-- mapped and no GitHub mapping has its login, apart from the case of letters.
pub times-unmapped_logins :
    (sort : List String → List String)
    → ((login : String) (xs : List String) → times login (sort xs) ≡ times login xs)
    → (mappings : List GitUserMapping) (tasks : List Task) (login : String)
    → times login (unmapped_logins sort mappings tasks)
      ≡ (if any (names mappings login) tasks then 1 else 0)
unfolding unmapped_logins
times-unmapped_logins sort keeps mappings tasks login =
    keeps login (distinct (open_logins mappings tasks))
    ∙ times-distinct login (open_logins mappings tasks)
    ∙ ap (λ b. if b then 1 else 0) (any-open_logins mappings login tasks)

mapped-unnamed :
    (mappings : List GitUserMapping) (login : String) (xs : List RemoteAssignee)
    → is_mapped mappings login ≡ true
    → any (λ a. is_open mappings a && a.login == login) xs ≡ false
mapped-unnamed mappings login [] m = refl
mapped-unnamed mappings login (a ∷ xs) m = elim (Bool-cases (a.login == login)) [
  | inl same ↦
      let known : is_mapped mappings a.login ≡ true =
        ap (is_mapped mappings) ((eq_iff a.login login).0 same) ∙ m in
      ground (arith, known, mapped-unnamed mappings login xs m)
  | inr other ↦ ground (arith, other, mapped-unnamed mappings login xs m)
]

mapped-unproposed :
    (mappings : List GitUserMapping) (login : String) (tasks : List Task)
    → is_mapped mappings login ≡ true
    → any (names mappings login) tasks ≡ false
mapped-unproposed mappings login [] m = refl
mapped-unproposed mappings login (task ∷ tasks) m = ground (
  arith,
  mapped-unnamed mappings login (get_or task.remote_assignees []) m,
  mapped-unproposed mappings login tasks m,
)

-- A login whose mapping was saved is no longer proposed, if the answer is a GitHub mapping with
-- that login, apart from the case of letters.
pub saved_login_gone :
    (sort : List String → List String)
    → ((login : String) (xs : List String) → times login (sort xs) ≡ times login xs)
    → (login : String) (mapping : GitUserMapping) (v : Mappings) (tasks : List Task)
    → mapping.provider ≡ "github"
    → same_login mapping.remote_login login ≡ true
    → times login
        (unmapped_logins sort (after_save_mapping login (fulfilled mapping) v).mappings tasks)
      ≡ 0
unfolding after_save_mapping
saved_login_gone sort keeps login mapping v tasks github same =
    let kept = filter (λ item. not (same_login item.remote_login login)) v.mappings in
    let test : GitUserMapping → Bool =
      (λ m. m.provider == "github" && same_login m.remote_login login) in
    let now : is_mapped (kept ++ mapping ∷ []) login ≡ true =
      any-snoc test kept mapping ∙ ground (arith, same, eq_iff mapping.provider "github", github) in
    times-unmapped_logins sort keeps (kept ++ mapping ∷ []) tasks login
    ∙ ap (λ b. if b then 1 else 0) (mapped-unproposed (kept ++ mapping ∷ []) login tasks now)
