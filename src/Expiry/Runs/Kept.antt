-- ===== src/Expiry/Runs/Kept.antt =====
-- What the pass over the details of runs leaves.
use workflow_world.Prelude.{◌≡◌, true, List, has_row, All}
use workflow_world.Expiry.Lineage.{ExpiryRun, Owned, Archive, owns}

-- Each row of a table belongs to a run that is there.
abbrev pub Attached : List ExpiryRun → List Owned → Type 0
Attached runs rows = All (λ (r : Owned). has_row (owns r.tenant_id r.run_id) runs ≡ true) rows

-- The tables hold no row of a run that is gone: the log, the slots, the steps and the waits.
pub record Sound (s : Archive) : Type 0 where
  pub events_attached : Attached s.runs s.events
  pub slots_attached : Attached s.runs s.event_slots
  pub steps_attached : Attached s.runs s.steps
  pub waits_attached : Attached s.runs s.waits
