-- ===== src/Filters/Tests.antt =====
-- The task filter at concrete inputs.
use justprojects.Base.{
  ℕ, String, ◌+◌, ◌≡◌, refl, ◌≤◌, ◌<◌, ◌↔◌, true, Option, none, some, [], ◌∷◌, ◌==◌, if◌then◌else◌,
}
use justprojects.Types.{Task, value}
use justprojects.Workspace.Samples.{build, launch}
use justprojects.Filters.{
  DateFilter, is, before, after, between, day, date_passes, filtered_tasks, no_filters, filters_of,
}
use justprojects.Filters.Dates.{date_passes_iff}

-- a parser that knows two days
abbrev parse : String → Option ℕ
parse s = if s == "2 May" then some 172_800_000 else if s == "3 May" then some 259_200_000 else none

abbrev due : String → Task
due text = record build { due_date = value text }

abbrev second_of_may : DateFilter
second_of_may = record { operator = is; start_date = some 172_800_000; end_date = none }

-- A task that is due on 3 May passes the filter "is 2 May".
next_day :
    filtered_tasks parse "" no_filters (some second_of_may) (due "3 May" ∷ launch ∷ [])
    ≡ due "3 May" ∷ []
unfolding filtered_tasks
next_day = refl

searched : filtered_tasks parse "  BUI " no_filters none (build ∷ launch ∷ []) ≡ build ∷ []
unfolding filtered_tasks
searched = refl

chosen :
    filters_of
      (record { path = "status" ∷ []; value = some "s1" }
        ∷ record { path = "priority" ∷ []; value = some "high" }
        ∷ record { path = "status" ∷ []; value = some "s2" }
        ∷ [])
      no_filters
    ≡ record { status_id = some "s2"; priority = some "high" }
unfolding filters_of
chosen = refl

date_passes_iff_example :
    ((date_passes parse
          (some (record { operator = before; start_date = some 172_800_000; end_date = none }))
          (due "3 May")
        ≡ true)
      ↔ (259_200_000 < 172_800_000))
    × ((date_passes parse
            (some (record { operator = after; start_date = some 172_800_000; end_date = none }))
            (due "3 May")
          ≡ true)
        ↔ (172_800_000 < 259_200_000))
    × ((date_passes parse
            (some (record {
              operator = between;
              start_date = some 172_800_000;
              end_date = some 300_000_000;
            }))
            (due "3 May")
          ≡ true)
        ↔ ((172_800_000 ≤ 259_200_000) × (259_200_000 ≤ 300_000_000)))
    × ((date_passes parse (some second_of_may) (due "3 May") ≡ true)
        ↔ ((259_200_000 ≤ 172_800_000 + day) × (172_800_000 ≤ 259_200_000 + day)))
date_passes_iff_example =
    date_passes_iff parse (due "3 May") "3 May" 259_200_000 172_800_000 300_000_000 refl refl
      (λ e. cc) (λ e. cc)
