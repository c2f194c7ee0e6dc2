-- ===== src/Dispatch/Timers/Promotion.antt =====
-- What becomes of a delivery that src/timers.ts holds.
use Prim.Native.String.{String}
use text.Mathlib.Text.{◌==◌ as str_eq}
use text.Mathlib.TextEquality.{eq_iff}
use workflow_world.Prelude.{
  ℕ, ◌≡◌, ◌≢◌, refl, ap, or_else, is_some, All, Option, none, some, Bool, true, false, List, [],
  ◌∷◌, map, ◌∙◌, update_where, select_where, if◌then◌else◌, arith, Bool-cases, inl, inr,
}
use workflow_world.Prelude.Entries.{str_eq_refl}
use workflow_world.Storage.Schema.{Time}
use workflow_world.Dispatch.Message.{MessageData, Wire, JobSpec, max_graphile_job_attempts}
use workflow_world.Dispatch.Contract.{flow_job_name, timer_job_name, tenant_flag}
use workflow_world.Dispatch.Timers.{
  holds_as_timer, first_of, read_job_key, run_queue_of_message, add_delayed_delivery, timer_handler,
  JobRow, moves, held, move_delayed_jobs_to_timers, in_run_queue,
}

pub kept_key : (key : String) → key ≢ "" → read_job_key (some key) ≡ some key
unfolding read_job_key
kept_key key h = ground (arith, eq_iff key "")

pub held_with :
    (q o : Option String) (delay : Option ℕ) → holds_as_timer q delay ≡ true → first_of q o ≡ q
unfolding holds_as_timer
held_with none o delay h = cc
held_with (some q) o delay h = refl

module _ (wire : Wire) where
  -- The flow job that reaches the claim loop once a job is due, under the names of the two tasks: a
  -- timer's is the one that its handler adds.
  unfoldable pub due : String → String → JobSpec → JobSpec
  unfolding timer_handler
  due flow timer job =
      if str_eq job.identifier timer
      then timer_handler wire flow job.message job.timer_queue job.job_key
      else record job { run_at = none }

  abbrev pub plain_flow_job : MessageData → String → JobSpec
  plain_flow_job m key = record {
    identifier = flow_job_name;
    message = m;
    timer_queue = none;
    job_key = some key;
    dedupes = false;
    queue_name = run_queue_of_message wire m;
    run_at = none;
    max_attempts = max_graphile_job_attempts;
    flags = some (tenant_flag m.tenant_id);
  }

  -- Holding a delayed delivery of a flow job as a timer changes nothing in what is delivered: with a
  -- key that is not empty, the job that is claimed in the end is the plain flow job on the run's own
  -- queue, with the message, the key and the tenant's flag, whatever the delay.
  pub due-add_delayed_delivery :
      (now : Time) (m : MessageData) (delay : ℕ) (key : String)
      → key ≢ ""
      → due flow_job_name timer_job_name (add_delayed_delivery wire now flow_job_name m delay key)
        ≡ plain_flow_job m key
  unfolding due timer_handler add_delayed_delivery
  due-add_delayed_delivery now m delay key h =
      let q = run_queue_of_message wire m in
      elim (Bool-cases (holds_as_timer q (some delay))) [
        | inl e ↦ (rw (e, kept_key key h, held_with q q (some delay) e))
        | inr e ↦ (rw e)
      ]

-- What a row of the jobs is claimed as by the flow task in the end, when it may be, and how often it has
-- been tried by then.
pub record Arrival : Type 0 where
  pub task : String
  pub queue : Option String
  pub key : Option String
  pub payload : Option MessageData
  pub flags : Option String
  pub due_at : Time
  pub attempts : ℕ
  pub locked : Bool

abbrev pub as_it_is : JobRow → Arrival
as_it_is row = record {
  task = row.task;
  queue = row.queue_name;
  key = row.job_key;
  payload = row.payload;
  flags = row.flags;
  due_at = row.run_at;
  attempts = row.attempts;
  locked = row.locked;
}

-- A job that `addJob` adds at a time has not been tried.
abbrev pub as_added : Time → JobSpec → Arrival
as_added now job = record {
  task = job.identifier;
  queue = job.queue_name;
  key = job.job_key;
  payload = some job.message;
  flags = job.flags;
  due_at = or_else job.run_at now;
  attempts = 0;
  locked = false;
}

abbrev pub promoted : Wire → String → JobRow → Option MessageData → Arrival
promoted wire flow row none = as_it_is row
promoted wire flow row (some m) =
    as_added row.run_at (timer_handler wire flow m row.timer_queue row.job_key)

-- A timer arrives as the job that its handler adds when it is due.
unfoldable pub arrival : Wire → String → String → JobRow → Arrival
unfolding timer_handler
arrival wire flow timer row =
    if str_eq row.task timer then promoted wire flow row row.payload else as_it_is row

-- A job as the world adds it: its key is not empty, and on a run's queue it has its tenant's flag.
pub record IsOwnJob (row : JobRow) : Type 0 where
  pub keyed : row.job_key ≢ some ""
  pub flagged :
      (m : MessageData)
      → row.payload ≡ some m
      → in_run_queue row.queue_name ≡ true
      → row.flags ≡ some (tenant_flag m.tenant_id)

keys_kept : (key : Option String) → key ≢ some "" → read_job_key key ≡ key
unfolding read_job_key
keys_kept none h = refl
keys_kept (some key) h = kept_key key (λ e. h (ap some e))

queue_kept : (q o : Option String) → in_run_queue q ≡ true → first_of q o ≡ q
unfolding in_run_queue
queue_kept none o h = cc
queue_kept (some x) o h = refl

-- What the statement asks of a row that it moves.
record Movable (flow : String) (row : JobRow) : Type 0 where
  task : row.task ≡ flow
  queued : in_run_queue row.queue_name ≡ true
  unlocked : row.locked ≡ false
  untried : row.attempts ≡ 0
  readable : is_some row.payload ≡ true

moves-Movable :
    (now : Time) (flow : String) (horizon : ℕ) (row : JobRow)
    → moves now flow horizon row ≡ true
    → Movable flow row
unfolding moves
moves-Movable now flow horizon row h = record {
  task = ground (arith, eq_iff row.task flow);
  queued = ground (arith, h);
  unlocked = ground (arith, h);
  untried = ground (arith, h);
  readable = ground (arith, h);
}

promoted-held :
    (wire : Wire) (flow timer : String) (row : JobRow) (p : Option MessageData)
    → Movable flow row
    → IsOwnJob row
    → row.payload ≡ p
    → promoted wire flow (held timer row) p ≡ as_it_is row
unfolding held timer_handler
promoted-held wire flow timer row none m own e = let r = m.readable in cc
promoted-held wire flow timer row (some x) m own e = rw (
  e,
  m.task,
  m.unlocked,
  m.untried,
  own.flagged x e m.queued,
  keys_kept row.job_key own.keyed,
  queue_kept row.queue_name (run_queue_of_message wire x) m.queued,
)

arrival-held :
    (wire : Wire) (now : Time) (flow timer : String) (horizon : ℕ) (row : JobRow)
    → flow ≢ timer
    → IsOwnJob row
    → moves now flow horizon row ≡ true
    → arrival wire flow timer (held timer row) ≡ arrival wire flow timer row
unfolding arrival held
arrival-held wire now flow timer horizon row apart own h =
    let m = moves-Movable now flow horizon row h in
    let other : str_eq row.task timer ≡ false = not_timer m.task in
    rw (str_eq_refl timer, other) (promoted-held wire flow timer row row.payload m own refl)
  where
    not_timer : row.task ≡ flow → str_eq row.task timer ≡ false
    not_timer e = ground (arith, e, eq_iff row.task timer)

-- Moving delayed jobs to the timers changes nothing in how any job of the world arrives at the flow task,
-- whatever is in the table: the task, the queue, the key, the message, the flag, the time when it is due,
-- the number of its attempts and whether it is locked. A moved job arrives through the timer's handler.
pub move_delayed_jobs_to_timers-arrival :
    (wire : Wire) (now : Time) (flow timer : String) (horizon : ℕ) (jobs : List JobRow)
    → flow ≢ timer
    → All IsOwnJob jobs
    → map (arrival wire flow timer) (move_delayed_jobs_to_timers now flow timer horizon jobs).1
      ≡ map (arrival wire flow timer) jobs
unfolding move_delayed_jobs_to_timers update_where
move_delayed_jobs_to_timers-arrival wire now flow timer horizon [] apart own = refl
move_delayed_jobs_to_timers-arrival wire now flow timer horizon (row ∷ jobs) apart own =
    let ih = move_delayed_jobs_to_timers-arrival wire now flow timer horizon jobs apart own.1 in
    elim (Bool-cases (moves now flow horizon row)) [
      | inl e ↦ (rw (e, arrival-held wire now flow timer horizon row apart own.0 e, ih))
      | inr e ↦ (rw (e, ih))
    ]

held-moves :
    (now : Time) (flow timer : String) (horizon : ℕ) (row : JobRow)
    → flow ≢ timer
    → moves now flow horizon (held timer row) ≡ false
unfolding moves held
held-moves now flow timer horizon row apart = ground (arith, eq_iff timer flow)

-- A second sweep at the same time moves nothing.
pub move_delayed_jobs_to_timers_again :
    (now : Time) (flow timer : String) (horizon : ℕ) (jobs : List JobRow)
    → flow ≢ timer
    → (move_delayed_jobs_to_timers now flow timer horizon
        (move_delayed_jobs_to_timers now flow timer horizon jobs).1).0
      ≡ 0
unfolding move_delayed_jobs_to_timers update_where select_where
move_delayed_jobs_to_timers_again now flow timer horizon [] apart = refl
move_delayed_jobs_to_timers_again now flow timer horizon (row ∷ jobs) apart =
    let ih = move_delayed_jobs_to_timers_again now flow timer horizon jobs apart in
    elim (Bool-cases (moves now flow horizon row)) [
      | inl e ↦ (rw (e, held-moves now flow timer horizon row apart)) ∙ ih
      | inr e ↦ (rw (e, e)) ∙ ih
    ]
