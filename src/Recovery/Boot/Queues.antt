-- ===== src/Recovery/Boot/Queues.antt =====
-- Where the messages of src/dispatcher/boot-recovery.ts wait.
use workflow_world.Prelude.{◌≡◌, Option, some, false}
use workflow_world.Storage.Schema.{Time, RunRow}
use workflow_world.Dispatch.Message.{Body, Wire, read_body, read_run_id_of}
use workflow_world.Dispatch.Contract.{run_queue_for, is_single_orchestrator_run_message}
use workflow_world.Dispatch.Timers.{run_queue_of_message}
use workflow_world.Recovery.Boot.{recovery_job, recovery_message}

-- A recovery job waits in the queue that the dispatch contract gives its own message, the run's: a
-- reschedule of it, which asks the contract, stays in the same queue. This needs that the parser reads
-- the printed body as one that names the run and carries no version.
recovery_job-run_queue_of_message :
    (wire : Wire) (body : Body) (due : Option Time) (r : RunRow)
    → wire.parse (wire.run_body r.run_id) ≡ some body
    → read_run_id_of (some body) ≡ some r.run_id
    → is_single_orchestrator_run_message wire body ≡ false
    → run_queue_of_message wire (recovery_job wire due r).message
      ≡ (recovery_job wire due r).queue_name
unfolding run_queue_of_message recovery_job recovery_message read_body run_queue_for
recovery_job-run_queue_of_message wire body due r parsed names plain = (rw (parsed, plain, names))
