-- ===== src/Storage/EventLog.antt =====
-- src/storage.ts: event ids, the dense slots of a run, the in-band fence, and the two ways to append
-- an event. One statement is one step of the model, so the retry after a slot collision, which only
-- a concurrent writer can cause, has no effect here.
use Prim.Native.String.{String}
use text.Mathlib.Text.{◌==◌ as str_eq}
use workflow_world.Prelude.{
  ℕ, ◌+◌, ◌-◌, ◌==◌, ltb, Option, none, some, Bool, true, false, not, ◌&&◌, List, [], ◌∷◌,
  if◌then◌else◌, or_else, opt_eq, select_first, has_row, update_where, insert_row,
}
use workflow_world.Storage.Schema.{
  Ident, Time, EventBody, EventId, EventRow, RunRow, SlotsRow, Store, slot, ulid, attr_set,
  step_created, step_started, step_completed, step_failed, step_retrying, hook_created,
  hook_received, hook_disposed, hook_conflict, wait_created, wait_completed,
}
use workflow_world.Storage.World.{World}
use workflow_world.Storage.Session.{
  Action, Fence, ok, entity_conflict, in_band_superseded, world_error, dedup_violation,
  key_violation, pure, raise, gets, modify, on_option, branch, transaction, raise_if, ◌>>=◌, ◌>>◌,
}

abbrev pub of_run : Ident → Ident → Ident → Ident → Bool
of_run tenant run t r = str_eq t tenant && str_eq r run

abbrev pub correlation_eq : Option Ident → Option Ident → Bool
correlation_eq (some a) (some b) = str_eq a b
correlation_eq _ _ = false

unfoldable pub correlation_of : EventBody → Option Ident
correlation_of (attr_set c w) = c
correlation_of (step_created c n i) = some c
correlation_of (step_started c d) = some c
correlation_of (step_completed c o) = some c
correlation_of (step_failed c e) = some c
correlation_of (step_retrying c e r) = some c
correlation_of (hook_created c d) = some c
correlation_of (hook_received c t p) = some c
correlation_of (hook_disposed c t b) = some c
correlation_of (hook_conflict c t r f) = some c
correlation_of (wait_created c r) = some c
correlation_of (wait_completed c) = some c
correlation_of _ = none

-- The event types of the partial index `workflow_events_entity_creation_unique`, numbered.
unfoldable pub creation_kind : EventBody → Option ℕ
creation_kind (step_created c n i) = some 0
creation_kind (hook_created c d) = some 1
creation_kind (wait_created c r) = some 2
creation_kind (attr_set c w) = some 3
creation_kind _ = none

-- Whether two bodies of one run have the same key in that index. A null correlation id is equal to
-- none, and a type outside the index has no key.
unfoldable pub same_creation : EventBody → EventBody → Bool
unfolding creation_kind correlation_of
same_creation a b =
    opt_eq (creation_kind a) (creation_kind b)
    && not (opt_eq (creation_kind a) none)
    && correlation_eq (correlation_of a) (correlation_of b)

unfoldable pub event_id_eq : EventId → EventId → Bool
event_id_eq (slot a) (slot b) = a == b
event_id_eq (ulid a) (ulid b) = str_eq a b
event_id_eq _ _ = false

unfoldable pub later_slot : ℕ → EventId → ℕ
later_slot a (slot n) = if ltb a n then n else a
later_slot a (ulid u) = a

-- The highest slot of a run, as `order by id desc limit 1`. Ids that are no slots are passed over.
unfoldable pub last_slot : Ident → Ident → ℕ → List EventRow → ℕ
unfolding later_slot
last_slot t r acc [] = acc
last_slot t r acc (e ∷ es) =
    last_slot t r (if of_run t r e.tenant_id e.run_id then later_slot acc e.event_id else acc) es

module _ (w : World) where
  open w use {tenant_id, sdk, now, new_ulid}

  unfoldable pub next_slot_id : Ident → Store → EventId
  unfolding last_slot
  next_slot_id run s = slot (last_slot tenant_id run (sdk.first_event_slot - 1) s.events + 1)

  abbrev pub slots_of : Ident → SlotsRow → Bool
  slots_of run row = of_run tenant_id run row.tenant_id row.run_id

  unfoldable pub draw_ulid : Action String
  draw_ulid s = (ok (new_ulid s.ulids), record s { ulids = s.ulids + 1 })

  -- `none` stands for the slot expression, computed inside the INSERT.
  unfoldable pub allocate_event_id : Ident → Action (Option EventId)
  unfolding draw_ulid
  allocate_event_id run = do
    marker ← gets (λ s. select_first (slots_of run) s.event_slots)
    on_option marker (draw_ulid >>= λ u. pure (some (ulid u))) (λ _. pure none)

  unfoldable pub advance_count : Fence → Store → Store
  advance_count fence s = record s {
    event_slots =
        update_where
          (λ row.
            of_run fence.tenant_id fence.run_id row.tenant_id row.run_id
            && row.seq_in_band == fence.expected)
          (λ row. record row { seq_in_band = row.seq_in_band + 1 }) s.event_slots;
  }

  unfoldable pub advance_fence : Fence → Action (Unit {0})
  unfolding advance_count
  advance_fence fence = do
    current ← gets (λ s. select_first mine s.event_slots)
    modify (advance_count fence)
    on_option current (pure tt) (λ row.
        raise_if (not (row.seq_in_band == fence.expected)) (in_band_superseded row.seq_in_band))
    where
      mine : SlotsRow → Bool
      mine row = of_run fence.tenant_id fence.run_id row.tenant_id row.run_id

  -- The pending fence, if it covers an insert for this run that allocates a slot.
  unfoldable pub open_fence : Ident → Option EventId → Option Fence → Option Fence
  open_fence run (some id) f = none
  open_fence run none none = none
  open_fence run none (some f) =
      if not f.consumed && str_eq f.tenant_id tenant_id && str_eq f.run_id run then some f else none

  abbrev occurred_at : Option Fence → Option Time
  occurred_at none = none
  occurred_at (some f) = f.occurred_at

  unfoldable pub event_row : Ident → EventId → EventBody → Time → Option ℕ → EventRow
  event_row run id body at spec = record {
    tenant_id = tenant_id;
    run_id = run;
    event_id = id;
    body = body;
    created_at = at;
    spec_version = spec;
  }

  unfoldable pub id_taken : EventRow → EventRow → Bool
  id_taken row e =
      of_run row.tenant_id row.run_id e.tenant_id e.run_id && event_id_eq row.event_id e.event_id

  unfoldable pub creation_taken : EventRow → EventRow → Bool
  creation_taken row e =
      of_run row.tenant_id row.run_id e.tenant_id e.run_id && same_creation row.body e.body

  unfoldable pub append_event : EventRow → Store → Store
  append_event row s = record s { events = insert_row row s.events }

  -- `insert … on conflict (tenant, run, id) do nothing returning …`
  unfoldable pub put_event : EventRow → Action (Option EventRow)
  unfolding id_taken creation_taken append_event
  put_event row = do
    taken ← gets (λ s. has_row (id_taken row) s.events)
    created ← gets (λ s. has_row (creation_taken row) s.events)
    branch taken (pure none)
        (branch created (raise dedup_violation) (modify (append_event row) >> pure (some row)))

  unfoldable pub get_fence : Action (Option Fence)
  get_fence s = (ok s.fence, s)

  unfoldable pub consume : Fence → Action (Unit {0})
  consume f s = (ok tt, record s { fence = some (record f { consumed = true }) })

  unfoldable pub insert_event_row :
      Ident → Option EventId → EventBody → Option ℕ → Action (Option EventRow)
  unfolding put_event get_fence consume open_fence advance_fence next_slot_id event_row
  insert_event_row run choice body spec = do
    store_fence ← get_fence
    let fence = open_fence run choice store_fence
    next ← gets (next_slot_id run)
    let at = or_else (occurred_at fence) now
    row ← put_event (event_row run (or_else choice next) body at spec)
    on_option row (branch (not_allocating choice) (pure none) (raise (world_error 503))) (λ r.
        on_option fence (pure (some r)) (λ f. consume f >> (advance_fence f >> pure (some r))))
    where
      not_allocating : Option EventId → Bool
      not_allocating none = false
      not_allocating (some id) = true

  -- An insert whose missing row is an EntityConflictError.
  unfoldable pub record_event : Ident → Option EventId → EventBody → Option ℕ → Action EventRow
  unfolding insert_event_row
  record_event run choice body spec = do
    row ← insert_event_row run choice body spec
    on_option row (raise entity_conflict) pure

  -- `seqInBand` defaults to 1: `run_created` is the run's first in-band event.
  unfoldable pub add_slots : Ident → Store → Store
  add_slots run s = record s {
    event_slots =
        if has_row (slots_of run) s.event_slots
        then s.event_slots
        else insert_row (record { tenant_id = tenant_id; run_id = run; seq_in_band = 1 })
            s.event_slots;
  }

  unfoldable pub open_event_slots : Ident → Action EventId
  unfolding add_slots
  open_event_slots run = modify (add_slots run) >> pure (slot sdk.first_event_slot)

  abbrev pub is_run : Ident → RunRow → Bool
  is_run run row = of_run tenant_id run row.tenant_id row.run_id

  unfoldable pub add_run : RunRow → Store → Store
  add_run row s = record s { runs = insert_row row s.runs }

  -- `insert … on conflict do nothing returning …`
  unfoldable pub put_run : RunRow → Action Bool
  unfolding add_run
  put_run row s =
      if has_row (is_run row.run_id) s.store.runs
      then (ok false, s)
      else (ok true, record s { store = add_run row s.store })

  -- No event when the run already exists, or when `admit` answered false. What `admit` decides, which
  -- the source assigns to a variable of the caller, is returned beside it.
  unfoldable pub insert_run_with_created_event :
      {D : Type 0}
      → RunRow
      → EventBody
      → Option ℕ
      → Action (Bool × D)
      → Action (D × Option (RunRow × EventRow))
  unfolding put_run open_event_slots put_event event_row
  insert_run_with_created_event row body spec admit = transaction do
    (admitted, decision) ← admit
    branch (not admitted) (pure (decision, none)) do
      inserted ← put_run row
      branch (not inserted) (pure (decision, none)) do
        id ← open_event_slots row.run_id
        created ← put_event (event_row row.run_id id body now spec)
        -- a plain INSERT: a taken id is a unique violation
        on_option created (raise key_violation) (λ e. pure (decision, some (row, e)))
