-- ===== src/Filters/Dates.antt =====
-- What each operator of the date filter lets through.
use justprojects.Base.{
  ℕ, suc, zero, String, ◌+◌, ◌≤◌, ◌<◌, ◌≡◌, ◌≢◌, ◌↔◌, refl, true, Option, none, some, arith,
}
use justprojects.Types.{reference, Task}
use justprojects.Filters.{is, before, after, between, day, date_passes}

-- With a start s, and an end e for "between", and a task that is due at d: "before" lets it through
-- exactly if d is less than s, "after" exactly if it is more, "between" exactly if it is from s to e,
-- and "is" exactly if it is at most 86,400,000 milliseconds from s, to either side.
pub date_passes_iff :
    (parse : String → Option ℕ) (task : Task) (text : String) (d s e : ℕ)
    → reference task.due_date ≡ some text
    → parse text ≡ some d
    → s ≢ 0
    → e ≢ 0
    → ((date_passes parse
            (some (record { operator = before; start_date = some s; end_date = none }))
            task
          ≡ true)
        ↔ (d < s))
      × ((date_passes parse
              (some (record { operator = after; start_date = some s; end_date = none }))
              task
            ≡ true)
          ↔ (s < d))
      × ((date_passes parse
              (some (record { operator = between; start_date = some s; end_date = some e }))
              task
            ≡ true)
          ↔ ((s ≤ d) × (d ≤ e)))
      × ((date_passes parse
              (some (record { operator = is; start_date = some s; end_date = none }))
              task
            ≡ true)
          ↔ ((d ≤ s + day) × (s ≤ d + day)))
date_passes_iff parse task text d zero e due known n m = absurd (n refl)
date_passes_iff parse task text d (suc s) zero due known n m = absurd (m refl)
date_passes_iff parse task text d (suc s) (suc e) due known n m =
    rw (due, known) (ground arith, ground arith, ground arith, ground arith)
