-- ===== src/Storage/FencedInsert.antt =====
-- An insert under a pending in-band fence: `insertEventRow` and `advanceFence` of src/storage.ts.
use text.Mathlib.TextEquality.{eq_iff}
use workflow_world.Prelude.{
  ◌≡◌, refl, ◌∙◌, ℕ, ◌+◌, ==_refl, true, false, Option, none, some, arith, has_row, or_else,
}
use workflow_world.Prelude.Table.Laws.{select_first-update_where, select_first-fits}
use workflow_world.Storage.Schema.{Ident, Time, EventBody, EventRow, SlotsRow, Store}
use workflow_world.Storage.World.{World}
use workflow_world.Storage.Session.{
  Session, Fence, err, ok, in_band_superseded, gets, modify, on_option, branch, pure, raise_if,
  ◌>>=◌,
}
use workflow_world.Storage.EventLog.{
  next_slot_id, event_row, creation_taken, append_event, put_event, insert_event_row, open_fence,
  get_fence, consume, advance_fence, advance_count, slots_of,
}
use workflow_world.Storage.Create.{create_fenced}
use workflow_world.Storage.Counts.{slots}
use workflow_world.Storage.Slots.{next_slot_id-fresh, create_fenced-superseded}

module _ (w : World) where
  -- The fence that a call of `create` for the run sets, not used yet.
  abbrev pub pending : Ident → ℕ → Option Time → Fence
  pending run expected at = record {
    tenant_id = w.tenant_id;
    run_id = run;
    expected = expected;
    occurred_at = at;
    consumed = false;
  }

  advance_count-slots :
      (run : Ident) (at : Option Time) (s : Store) (row : SlotsRow)
      → slots w run s ≡ some row
      → slots w run (advance_count w (pending run row.seq_in_band at) s)
        ≡ some (record row { seq_in_band = row.seq_in_band + 1 })
  unfolding advance_count slots
  advance_count-slots run at s row found =
      select_first-update_where (slots_of w run) _ _ (λ r. refl) s.event_slots
      ∙ rw
          (
            found,
            select_first-fits (slots_of w run) s.event_slots row found,
            ==_refl row.seq_in_band,
          )
          refl

  -- The insert of the run's next event under that fence: what is left after it.
  abbrev pub inserted : Ident → EventBody → Option ℕ → ℕ → Option Time → Session → Session
  inserted run body spec expected at s = record s {
    store = advance_count w (pending run expected at) (
        append_event w (event_row w run (next_slot_id w run s.store) body (or_else at w.now) spec)
          s.store);
    fence = some (record (pending run expected at) { consumed = true });
  }

  slots-append_event :
      (run : Ident) (e : EventRow) (s : Store) → slots w run (append_event w e s) ≡ slots w run s
  unfolding append_event slots
  slots-append_event run e s = refl

  opens :
      (run : Ident) (expected : ℕ) (at : Option Time)
      → open_fence w run none (some (pending run expected at)) ≡ some (pending run expected at)
  unfolding open_fence
  opens run expected at = ground (arith, eq_iff run run, eq_iff w.tenant_id w.tenant_id)

  insert_event_row-fenced :
      (run : Ident) (body : EventBody) (spec : Option ℕ) (at : Option Time) (s : Session)
      (row : SlotsRow)
      → slots w run s.store ≡ some row
      → s.fence ≡ some (pending run row.seq_in_band at)
      → has_row
          (creation_taken w
            (event_row w run (next_slot_id w run s.store) body (or_else at w.now) spec))
          s.store.events
        ≡ false
      → insert_event_row w run none body spec s ≡ (
        ok (some (event_row w run (next_slot_id w run s.store) body (or_else at w.now) spec)),
        inserted run body spec row.seq_in_band at s,
      )
  unfolding insert_event_row get_fence put_event event_row ◌>>=◌ gets branch pure modify on_option
      consume advance_fence raise_if slots append_event
  insert_event_row-fenced run body spec at s row found fence creates =
      let fresh = next_slot_id-fresh w run s.store body (or_else at w.now) spec in
      rw (fence, opens run row.seq_in_band at, fresh, creates, found, ==_refl row.seq_in_band) refl

  -- The run's next event, inserted under the fence of a call that expects the run's count, is stored
  -- with the time of the call if it gave one. After it the count is one higher, and any further
  -- fenced call that expects the count of the first is refused with the new count and changes nothing.
  pub insert_event_row-create_fenced :
      (run : Ident) (body : EventBody) (spec : Option ℕ) (at : Option Time) (s : Session)
      (row : SlotsRow) (again : EventBody) (version : Option ℕ) (at' : Option Time)
      → slots w run s.store ≡ some row
      → s.fence ≡ some (pending run row.seq_in_band at)
      → has_row
          (creation_taken w
            (event_row w run (next_slot_id w run s.store) body (or_else at w.now) spec))
          s.store.events
        ≡ false
      → (t : Session) × (insert_event_row w run none body spec s ≡ (
        ok (some (event_row w run (next_slot_id w run s.store) body (or_else at w.now) spec)),
        t,
      ))
        × (slots w run t.store ≡ some (record row { seq_in_band = row.seq_in_band + 1 }))
        × (create_fenced w run again version row.seq_in_band at' t
            ≡ (err (in_band_superseded (row.seq_in_band + 1)), t))
  insert_event_row-create_fenced run body spec at s row again version at' found fence creates = (
    inserted run body spec row.seq_in_band at s,
    insert_event_row-fenced run body spec at s row found fence creates,
    counted,
    create_fenced-superseded w run again version row.seq_in_band at' _ _ counted (ground arith),
  )
    where
      counted :
          slots w run (inserted run body spec row.seq_in_band at s).store
          ≡ some (record row { seq_in_band = row.seq_in_band + 1 })
      counted = advance_count-slots run at _ row (slots-append_event run _ s.store ∙ found)
