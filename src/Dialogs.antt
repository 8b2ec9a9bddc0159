-- ===== src/Dialogs.antt =====
-- The dialogs of services/frontend/components/task-dialog.tsx and milestone-dialog.tsx: their forms, as
-- they are filled from an item, reset and submitted. The switches and fields of a form set one field.
pub mod Decimal
pub mod Tasks
pub mod Milestones
pub mod Unchanged
mod Tests
use justprojects.Base.{String, Option, none, some, slice_text}
use justprojects.Types.{Slot, present}

-- `date?.slice(0, 10) ?? ""`
abbrev pub date_text : Slot String → String
date_text date = elim (present date) [ none ↦ "" | some d ↦ slice_text 10 d ]
