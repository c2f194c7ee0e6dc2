-- ===== src/Storage/Slots.antt =====
-- The dense slots of a run's event log, `insertEventRow` of src/storage.ts, and the compare-and-set
-- of a fenced `create`.
use workflow_world.Prelude.{
  ◌≡◌, refl, ℕ, ◌+◌, ◌-◌, ◌≤◌, ◌<◌, ◌==◌, ==_iff, false, ◌&&◌, Option, some, List, [], ◌∷◌, inl,
  inr, arith, Bool-cases, has_row,
}
use workflow_world.Storage.Schema.{
  Ident, Time, EventBody, EventId, EventRow, SlotsRow, Store, slot, ulid,
}
use workflow_world.Storage.World.{World}
use workflow_world.Storage.Session.{
  Session, err, in_band_superseded, transaction, gets, ◌>>=◌, on_option, raise_if, raise, branch,
}
use workflow_world.Storage.EventLog.{
  later_slot, last_slot, next_slot_id, event_row, id_taken, of_run, event_id_eq,
}
use workflow_world.Storage.Create.{create_fenced}
use workflow_world.Storage.Counts.{slots}

later_slot-above : (a : ℕ) (id : EventId) → a ≤ later_slot a id
unfolding later_slot
later_slot-above a (slot n) = ground arith
later_slot-above a (ulid u) = omega arith

-- A slot that is not below the next one is not in the log.
later_slot-bounds : (a n : ℕ) (id : EventId) → later_slot a id < n → event_id_eq (slot n) id ≡ false
unfolding later_slot event_id_eq
later_slot-bounds a n (slot m) h = ground (arith, ==_iff n m)
later_slot-bounds a n (ulid u) h = refl

module _ (t r : Ident) where
  last_slot-above : (acc : ℕ) (es : List EventRow) → acc ≤ last_slot t r acc es
  unfolding last_slot
  last_slot-above acc [] = omega arith
  last_slot-above acc (e ∷ es) = elim (Bool-cases (of_run t r e.tenant_id e.run_id)) [
    | inl own ↦
        rw own
          let above = later_slot-above acc e.event_id in
            let rest = last_slot-above (later_slot acc e.event_id) es in omega arith
    | inr foreign ↦ rw foreign (last_slot-above acc es)
  ]

  last_slot-bounds :
      (n acc : ℕ) (es : List EventRow)
      → last_slot t r acc es < n
      → has_row (λ e. of_run t r e.tenant_id e.run_id && event_id_eq (slot n) e.event_id) es ≡ false
  unfolding last_slot has_row
  last_slot-bounds n acc [] h = refl
  last_slot-bounds n acc (e ∷ es) h = elim (Bool-cases (of_run t r e.tenant_id e.run_id)) [
    | inl own ↦
        let below = rw own at h in
        let above = last_slot-above (later_slot acc e.event_id) es in
        rw
          (
            own,
            later_slot-bounds acc n e.event_id (omega arith),
            last_slot-bounds n (later_slot acc e.event_id) es below,
          )
          refl
    | inr foreign ↦
        let below = rw foreign at h in rw (foreign, last_slot-bounds n acc es below) refl
  ]

module _ (w : World) where
  -- No event of the run has the id that the slot expression computes, in the store that it is computed
  -- in.
  pub next_slot_id-fresh :
      (run : Ident) (s : Store) (body : EventBody) (at : Time) (spec : Option ℕ)
      → has_row (id_taken w (event_row w run (next_slot_id w run s) body at spec)) s.events ≡ false
  unfolding next_slot_id event_row id_taken
  next_slot_id-fresh run s body at spec =
      let last = last_slot w.tenant_id run (w.first_event_slot - 1) s.events in
      last_slot-bounds w.tenant_id run (last + 1) (w.first_event_slot - 1) s.events (omega arith)

  -- A fenced `create` that expects another count than the run's is refused with that count, and
  -- nothing has changed.
  pub create_fenced-superseded :
      (run : Ident) (body : EventBody) (version : Option ℕ) (expected : ℕ) (at : Option Time)
      (s : Session) (row : SlotsRow)
      → slots w run s.store ≡ some row
      → (row.seq_in_band == expected) ≡ false
      → create_fenced w run body version expected at s
        ≡ (err (in_band_superseded row.seq_in_band), s)
  unfolding create_fenced slots transaction ◌>>=◌ gets on_option raise_if branch raise
  create_fenced-superseded run body version expected at s row found stale = rw (found, stale) refl
