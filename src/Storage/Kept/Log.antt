-- ===== src/Storage/Kept/Log.antt =====
-- The event log's operations (EventLog) keep what the statements keep.
use text.Mathlib.TextEquality.{eq_iff}
use workflow_world.Prelude.{◌≡◌, Bool, Option, none, some, ℕ, arith}
use workflow_world.Storage.Schema.{Ident, EventBody, EventId, EventRow, RunRow, RunStatus, Store}
use workflow_world.Storage.World.{World}
use workflow_world.Storage.Session.{Action, Fence}
use workflow_world.Storage.Session.Keeps.{Keeps, keeps_rules}
use workflow_world.Storage.EventLog.{
  draw_ulid, allocate_event_id, advance_fence, open_fence, put_event, get_fence, consume,
  insert_event_row, record_event, insert_run_with_created_event,
}
use workflow_world.Storage.Create.{append_event_of}
use workflow_world.Storage.Kept.Statements.{Base}

module _ {w : World} {R : Store → Store → Type 0} (c : Base w R) where
  pub Keeps-draw_ulid : Keeps R (draw_ulid w)
  unfolding draw_ulid
  Keeps-draw_ulid = record { at = λ s. c.order.same s.store }

  pub Keeps-allocate_event_id : (run : Ident) → Keeps R (allocate_event_id w run)
  unfolding allocate_event_id
  Keeps-allocate_event_id run = search (c.order, keeps_rules, Keeps-draw_ulid) depth 12

  pub Keeps-put_event : (row : EventRow) → row.tenant_id ≡ w.tenant_id → Keeps R (put_event w row)
  unfolding put_event
  Keeps-put_event row own = search (c.order, keeps_rules, c.append_event) depth 12

  -- The fence that an insert advances is the World's own.
  open_fence-own :
      (run : Ident) (choice : Option EventId) (pending : Option Fence) (f : Fence)
      → open_fence w run choice pending ≡ some f
      → f.tenant_id ≡ w.tenant_id
  unfolding open_fence
  open_fence-own run (some id) pending f h = cc
  open_fence-own run none none f h = cc
  open_fence-own run none (some g) f h = ground (arith, eq_iff g.tenant_id w.tenant_id)

  Keeps-get_fence : Keeps R (get_fence w)
  unfolding get_fence
  Keeps-get_fence = record { at = λ s. c.order.same s.store }

  Keeps-consume : (f : Fence) → Keeps R (consume w f)
  unfolding consume
  Keeps-consume f = record { at = λ s. c.order.same s.store }

  Keeps-advance_fence : (f : Fence) → f.tenant_id ≡ w.tenant_id → Keeps R (advance_fence w f)
  unfolding advance_fence
  Keeps-advance_fence f own = search (c.order, keeps_rules, c.advance_count) depth 12

  pub Keeps-insert_event_row :
      (run : Ident) (choice : Option EventId) (body : EventBody) (spec : Option ℕ)
      → Keeps R (insert_event_row w run choice body spec)
  unfolding insert_event_row
  Keeps-insert_event_row run choice body spec =
      search
        (
          c.order, keeps_rules, Keeps-get_fence, Keeps-put_event, Keeps-consume,
          Keeps-advance_fence, open_fence-own,
        )
        depth 20

  pub Keeps-record_event :
      (run : Ident) (choice : Option EventId) (body : EventBody) (spec : Option ℕ)
      → Keeps R (record_event w run choice body spec)
  unfolding record_event
  Keeps-record_event run choice body spec =
      search (c.order, keeps_rules, Keeps-insert_event_row) depth 12

  pub Keeps-insert_run_with_created_event :
      {D : Type 0} (row : RunRow) (body : EventBody) (spec : Option ℕ) (admit : Action (Bool × D))
      → row.tenant_id ≡ w.tenant_id
      → row.status ≡ RunStatus.pending
      → Keeps R admit
      → Keeps R (insert_run_with_created_event w row body spec admit)
  unfolding insert_run_with_created_event
  Keeps-insert_run_with_created_event row body spec admit own new ka =
      search (c.order, keeps_rules, c.put_run, c.add_slots, Keeps-put_event) depth 20

  pub Keeps-append_event_of :
      (run : Ident) (body : EventBody) (spec : ℕ) → Keeps R (append_event_of w run body spec)
  unfolding append_event_of
  Keeps-append_event_of run body spec =
      search (c.order, keeps_rules, Keeps-allocate_event_id, Keeps-record_event) depth 12
