-- ===== src/Roadmap/Tests.antt =====
-- The roadmap at concrete inputs.
use justprojects.Base.{
  ℕ, String, ◌≡◌, ◌<◌, ◌↔◌, false, Option, none, some, [], ◌∷◌, ◌==◌, arith, if◌then◌else◌,
}
use justprojects.Types.{Task, Milestone, value}
use justprojects.Workspace.Samples.{build, launch, milestone}
use justprojects.Roadmap.{milestone_event, parse_date, gantt_resources}
use justprojects.Roadmap.Dates.{milestone_event_backwards_iff}
use justprojects.Roadmap.Rows.{has_row, has_row-gantt_resources}

-- a parser that knows two dates
abbrev parse : String → Option ℕ
parse s = if s == "early" then some 1000 else if s == "late" then some 9000 else none

abbrev late_start : Task
late_start = record launch {
  start_date = value "late";
  due_date = value "early";
  milestone_id = value "m1";
}

abbrev orphan : Task
orphan = record build { milestone_id = value "gone" }

abbrev reversed : Milestone
reversed = record milestone { start_date = value "late"; due_date = value "early" }

milestone_event_backwards_iff_example :
    ((milestone_event parse 5 reversed).end < (milestone_event parse 5 reversed).start) ↔ (
      (s : ℕ) × (d : ℕ) × (parse_date parse 5 reversed.start_date ≡ some s)
      × (parse_date parse 5 reversed.due_date ≡ some d)
      × (d < s))
milestone_event_backwards_iff_example = milestone_event_backwards_iff parse 5 reversed

-- A bar that ends before it begins.
backwards_bar : (milestone_event parse 5 reversed).end < (milestone_event parse 5 reversed).start
unfolding milestone_event
backwards_bar = omega arith

has_row-gantt_resources_example :
    has_row "a" (gantt_resources (orphan ∷ late_start ∷ []) (milestone ∷ []) "Tasks") ≡ false
has_row-gantt_resources_example =
    has_row-gantt_resources "a" "Tasks" (orphan ∷ late_start ∷ []) (milestone ∷ [])
