-- ===== src/Expiry/Examples.antt =====
-- An archive with a run that has expired and one whose lineage is still at work, and the theorems on it.
use workflow_world.Prelude.{
  ◌≡◌, refl, none, some, true, false, [], ◌∷◌, select_where, has_row, delete_where,
}
use workflow_world.Retention.{interactive}
use workflow_world.Storage.Schema.{RunStatus}
use workflow_world.Expiry.Lineage.{
  ExpiryRun, Chunk, Owned, Archive, may_expire, has_live_token, has_expired,
}
use workflow_world.Expiry.Streams.{
  StreamRetentionResult, delete_first, is_victim, delete_checkpoints, prune_batch, prune_from,
  prune,
}
use workflow_world.Expiry.Streams.Kept.{is_protected, prune-is_protected}

abbrev ended : ExpiryRun
ended = record {
  tenant_id = "acme";
  run_id = "r1";
  retention_root_run_id = "r1";
  status = RunStatus.completed;
  retention_class = interactive;
  completed_at = some 100;
  updated_at = 100;
  expire_after = some 200;
  detail_expire_after = some 300;
}

abbrev parent : ExpiryRun
parent = record ended {
  run_id = "r2";
  retention_root_run_id = "r2";
  status = RunStatus.running;
  completed_at = none;
  expire_after = none;
  detail_expire_after = none;
}

abbrev child : ExpiryRun
child = record ended { run_id = "r3"; retention_root_run_id = "r2" }

abbrev chunk : Chunk
chunk = record { tenant_id = "acme"; run_id = "r1"; stream_id = "s"; chunk_id = "c1"; eof = false }

abbrev last_chunk : Chunk
last_chunk = record chunk { chunk_id = "c2"; eof = true }

abbrev child_chunk : Chunk
child_chunk = record chunk { run_id = "r3" }

abbrev event : Owned
event = record { tenant_id = "acme"; run_id = "r1" }

abbrev archive : Archive
archive = record {
  runs = ended ∷ parent ∷ child ∷ [];
  chunks = chunk ∷ last_chunk ∷ child_chunk ∷ [];
  checkpoints = [];
  events = event ∷ [];
  event_slots = [];
  steps = [];
  hooks = [];
  waits = [];
}

abbrev result : StreamRetentionResult
result = record { deleted_rows = 1; batches = 1; hit_batch_limit = false; lock_acquired = true }

abbrev swept : Archive
swept = record archive { chunks = last_chunk ∷ child_chunk ∷ [] }

it_prunes : prune has_expired true 10 3 (λ k. 250) archive ≡ some (result, swept)
unfolding prune prune_from prune_batch is_victim delete_first delete_checkpoints may_expire
    has_live_token has_row delete_where
it_prunes = refl

prune-is_protected_example :
    select_where (is_protected archive.runs) swept.chunks
    ≡ select_where (is_protected archive.runs) archive.chunks
prune-is_protected_example =
    prune-is_protected has_expired true 10 3 (λ k. 250) archive swept result it_prunes
