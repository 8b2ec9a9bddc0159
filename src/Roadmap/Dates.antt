-- ===== src/Roadmap/Dates.antt =====
-- Where the bars of the roadmap begin and end.
use justprojects.Base.{
  ℕ, String, ◌≤◌, ◌<◌, ◌≡◌, refl, ◌↔◌, Option, none, some, get_or, or_else, arith,
}
use justprojects.Types.{Task, Milestone}
use justprojects.Roadmap.{parse_date, start_of, task_event, milestone_event}

backwards :
    (a b : Option ℕ) (now : ℕ)
    → (get_or b (get_or (or_else a b) now) < get_or (or_else a b) now)
      ↔ ((s : ℕ) × (d : ℕ) × (a ≡ some s) × (b ≡ some d) × (d < s))
backwards (some s) (some d) now =
    ((λ h. (s, d, refl, refl, h)), (λ (s', d', p, q, h). ground arith))
backwards (some s) none now = ((λ h. absurd (omega arith)), (λ (s', d', p, q, h). cc))
backwards none (some d) now = ((λ h. absurd (omega arith)), (λ (s', d', p, q, h). cc))
backwards none none now = ((λ h. absurd (omega arith)), (λ (s', d', p, q, h). cc))

module _ (parse : String → Option ℕ) (now : ℕ) where
  -- The bar of a task never ends before it begins, whatever its dates are; it begins at the start
  -- date if that is valid, else at the due date, else now.
  pub task_event_ordered :
      (task : Task)
      → ((task_event parse now task).start ≤ (task_event parse now task).end)
        × ((task_event parse now task).start ≡ start_of parse now task.start_date task.due_date)
  unfolding task_event
  task_event_ordered task = ground arith

  -- The bar of a milestone ends before it begins exactly if both of its dates are valid and the due
  -- date is before the start date.
  pub milestone_event_backwards_iff :
      (m : Milestone)
      → ((milestone_event parse now m).end < (milestone_event parse now m).start) ↔ (
          (s : ℕ) × (d : ℕ) × (parse_date parse now m.start_date ≡ some s)
          × (parse_date parse now m.due_date ≡ some d)
          × (d < s))
  unfolding milestone_event
  milestone_event_backwards_iff m =
      backwards (parse_date parse now m.start_date) (parse_date parse now m.due_date) now
