-- ===== src/Storage/Numbered.antt =====
-- The slots of a run's log, in order: `insertEventRow` of src/storage.ts.
use workflow_world.Prelude.{
  ◌≡◌, refl, ◌∙◌, ap, ℕ, zero, suc, ◌+◌, ◌-◌, ◌≤◌, Bool-cases, inl, inr, ◌⊎◌, true, false, Option,
  none, some, List, [], ◌∷◌, ◌++◌, map, arith, select_where, has_row, select_first, Option-cases,
  ◌==◌, or_else,
}
use workflow_world.Prelude.Entries.{str_eq_refl}
use workflow_world.Storage.Schema.{Ident, Time, EventBody, EventId, EventRow, slot}
use workflow_world.Storage.World.{World}
use workflow_world.Storage.Session.{
  Session, Result, ok, err, gets, modify, on_option, branch, pure, raise, raise_if, world_error,
  ◌>>=◌, ◌>>◌, Fence,
}
use workflow_world.Storage.EventLog.{
  of_run, later_slot, last_slot, next_slot_id, event_row, id_taken, creation_taken, append_event,
  put_event, insert_event_row, open_fence, get_fence, consume, advance_fence, advance_count,
}
use workflow_world.Storage.Slots.{next_slot_id-fresh}

-- The ids of a run's events, in the order of the log.
abbrev pub run_ids : Ident → Ident → List EventRow → List EventId
run_ids t r es = map (λ e. e.event_id) (select_where (λ e. of_run t r e.tenant_id e.run_id) es)

-- `n` slots from `first` on.
abbrev pub slots_from : ℕ → ℕ → List EventId
slots_from first zero = []
slots_from first (suc n) = slot first ∷ slots_from (suc first) n

-- What an insert makes of a log of `n` slots: an event that is returned has the next slot and is the last of
-- `n + 1`; without one there are `n` still; and a call that raises has added the event or not.
abbrev pub Numbered : ℕ → ℕ → Result (Option EventRow) → List EventId → Type 0
Numbered first n (ok (some row)) ids =
    (row.event_id ≡ slot (first + n)) × (ids ≡ slots_from first (suc n))
Numbered first n (ok none) ids = ids ≡ slots_from first n
Numbered first n (err e) ids = (ids ≡ slots_from first n) ⊎ (ids ≡ slots_from first (suc n))

later_slot-suc : (acc : ℕ) → later_slot acc (slot (suc acc)) ≡ suc acc
unfolding later_slot
later_slot-suc acc = ground arith

last_slot-slots_from :
    (t r : Ident) (acc n : ℕ) (es : List EventRow)
    → run_ids t r es ≡ slots_from (suc acc) n
    → last_slot t r acc es ≡ acc + n
unfolding last_slot later_slot select_where
last_slot-slots_from t r acc zero [] h = omega arith
last_slot-slots_from t r acc (suc n) [] h = cc
last_slot-slots_from t r acc n (e ∷ es) h = elim (Bool-cases (of_run t r e.tenant_id e.run_id)) [
  | inl own ↦ rw own (own_event n (λ k m. last_slot-slots_from t r k m es) (rw own at h))
  | inr foreign ↦ rw foreign (last_slot-slots_from t r acc n es (rw foreign at h))
]
  where
    own_event :
        (n : ℕ)
        → ((k m : ℕ) → run_ids t r es ≡ slots_from (suc k) m → last_slot t r k es ≡ k + m)
        → e.event_id ∷ run_ids t r es ≡ slots_from (suc acc) n
        → last_slot t r (later_slot acc e.event_id) es ≡ acc + n
    own_event zero rest h = cc
    own_event (suc n) rest h =
        let head : e.event_id ≡ slot (suc acc) = cc in
        let tail : run_ids t r es ≡ slots_from (suc (suc acc)) n = cc in
        ap (λ id. last_slot t r (later_slot acc id) es) head
        ∙ ap (λ k. last_slot t r k es) (later_slot-suc acc)
        ∙ rest (suc acc) n tail
        ∙ omega arith

slots_from-suc :
    (first n : ℕ) → slots_from first n ++ slot (first + n) ∷ [] ≡ slots_from first (suc n)
slots_from-suc first zero = ap (λ k. slot k ∷ []) (omega arith)
slots_from-suc first (suc n) =
    ap (◌∷◌ (slot first)) (
      ap (λ k. slots_from (suc first) n ++ slot k ∷ []) (omega arith)
      ∙ slots_from-suc (suc first) n)

run_ids-append :
    (t r : Ident) (row : EventRow) (es : List EventRow)
    → of_run t r row.tenant_id row.run_id ≡ true
    → run_ids t r (es ++ row ∷ []) ≡ run_ids t r es ++ row.event_id ∷ []
unfolding select_where
run_ids-append t r row [] own = rw own refl
run_ids-append t r row (e ∷ es) own = elim (Bool-cases (of_run t r e.tenant_id e.run_id)) [
  | inl mine ↦ rw mine (ap (◌∷◌ e.event_id) (run_ids-append t r row es own))
  | inr foreign ↦ rw foreign (run_ids-append t r row es own)
]

module _ (w : World) (run : Ident) where
  abbrev ids_of : Session → List EventId
  ids_of s = run_ids w.tenant_id run s.store.events

  -- What follows the append leaves the log as it is, whatever the fence.
  after_append :
      (first n : ℕ) (row : EventRow) (fence : Option Fence) (s : Session)
      → row.event_id ≡ slot (first + n)
      → ids_of s ≡ slots_from first (suc n)
      → let r =
          on_option fence
            (pure (some row))
            (λ f. consume w f >> (advance_fence w f >> pure (some row)))
            s in
        Numbered first n r.0 (ids_of r.1)
  unfolding on_option pure consume advance_fence ◌>>=◌ gets modify raise_if branch raise
      advance_count
  after_append first n row none s e h = (e, h)
  after_append first n row (some f) s e h =
      elim (Option-cases (
        select_first (λ x. of_run f.tenant_id f.run_id x.tenant_id x.run_id) s.store.event_slots)) [
          | inl absent ↦ rw absent (e, h)
          | inr there ↦ elim (Bool-cases (there.0.seq_in_band == f.expected)) [
            | inl same ↦ rw (there.1, same) (e, h)
            | inr stale ↦ rw (there.1, stale) (inr h)
          ]
        ]

  after_put :
      (first n : ℕ) (row : EventRow) (fence : Option Fence) (s : Session)
      → of_run w.tenant_id run row.tenant_id row.run_id ≡ true
      → row.event_id ≡ slot (first + n)
      → ids_of s ≡ slots_from first n
      → has_row (id_taken w row) s.store.events ≡ false
      → let r =
          (put_event w row >>= λ put.
          on_option put (branch false (pure none) (raise (world_error 503))) (λ r.
            on_option fence
              (pure (some r))
              (λ f. consume w f >> (advance_fence w f >> pure (some r)))))
            s in
        Numbered first n r.0 (ids_of r.1)
  unfolding put_event ◌>>=◌ gets branch pure raise modify on_option append_event
  after_put first n row fence s own e h fresh =
      elim (Bool-cases (has_row (creation_taken w row) s.store.events)) [
        | inl taken ↦ rw (fresh, taken) (inl h)
        | inr new ↦
            rw (fresh, new)
              (after_append first n row fence (record s { store = append_event w row s.store }) e
                (run_ids-append w.tenant_id run row s.store.events own
                  ∙ ap (λ ids. ids ++ row.event_id ∷ []) h
                  ∙ ap (λ id. slots_from first n ++ id ∷ []) e
                  ∙ slots_from-suc first n))
      ]

  -- An insert that allocates its slot keeps the run's log numbered without a gap from the first slot on:
  -- an event that it returns has the slot after the last of the log and stands at its end. If it raises,
  -- as it does on a duplicate creation or a stale fence, the log is as it was or has that one event more.
  pub insert_event_row-Numbered :
      (body : EventBody) (spec : Option ℕ) (n : ℕ) (s : Session)
      → 1 ≤ w.sdk.first_event_slot
      → run_ids w.tenant_id run s.store.events ≡ slots_from w.sdk.first_event_slot n
      → let r = insert_event_row w run none body spec s in
        Numbered w.sdk.first_event_slot n r.0 (run_ids w.tenant_id run r.1.store.events)
  unfolding insert_event_row get_fence put_event ◌>>=◌ gets branch pure raise modify on_option
      append_event event_row next_slot_id
  insert_event_row-Numbered body spec n s positive h =
      let fence = open_fence w run none s.fence in
      let row =
        event_row w run (next_slot_id w run s.store) body (or_else (occurs fence) w.now) spec in
      after_put w.sdk.first_event_slot n row fence s (own row refl refl) next h
        (next_slot_id-fresh w run s.store body (or_else (occurs fence) w.now) spec)
    where
      occurs : Option Fence → Option Time
      occurs none = none
      occurs (some f) = f.occurred_at

      own :
          (row : EventRow)
          → row.tenant_id ≡ w.tenant_id
          → row.run_id ≡ run
          → of_run w.tenant_id run row.tenant_id row.run_id ≡ true
      own row t r = rw (t, r) (ground (arith, str_eq_refl w.tenant_id, str_eq_refl run))

      next : next_slot_id w run s.store ≡ slot (w.sdk.first_event_slot + n)
      next = ap slot (
          ap (λ k. k + 1)
            (last_slot-slots_from w.tenant_id run (w.sdk.first_event_slot - 1) n s.store.events
              (h ∙ ap (λ k. slots_from k n) (omega (arith, positive))))
          ∙ omega (arith, positive))
