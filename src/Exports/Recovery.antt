-- ===== src/Exports/Recovery.antt =====
-- The recovery of jobs that a worker left, of exports/services/worker.py: by a new claim, or by
-- another place in the queue.
use svrx_pinry.Prelude.{
  ℕ, suc, Bool, true, false, not, ◌&&◌, ◌||◌, ◌+◌, Option, none, some, List, [], ◌∷◌, ◌==◌, ltb,
  is_none, is_some, select, any, Result, done, refused, refuse_if, ◌>>=◌, if◌then◌else◌,
}
use svrx_pinry.Exports.Contracts.{
  JobState, ErrorCode, snapshotting, archiving, verifying, same_state, permission_changed,
  worker_repeated_failure, export_storage_unsafe, WorkerLeaseToken, LeaseToken, ExportFault,
  lease_lost, storage_error,
}
use svrx_pinry.Exports.Tables.{Job, Item, ExportDb, save_job, has_unclean_attempt}
use svrx_pinry.Exports.Queries.{first_in, by_state, lock_current_worker_lease}
use svrx_pinry.Exports.Failures.{fail_locked}
use svrx_pinry.Exports.Worker.{worker_expiry, new_job_token}

-- `MAX_ABNORMAL_RESUMES`.
abbrev pub max_abnormal_resumes : ℕ
max_abnormal_resumes = 3

-- The job has no lease, or one of another generation of the worker: the filter of the candidates,
-- which holds just where `_takeover_kind` is not None.
abbrev pub is_left : WorkerLeaseToken → Job → Bool
is_left worker j = is_none j.lease_uuid || not (j.worker_generation == worker.worker_generation)

-- `_takeover_kind(...) == "abnormal"`.
abbrev pub is_abnormal : WorkerLeaseToken → Job → Bool
is_abnormal worker j = is_some j.lease_uuid && not (j.worker_generation == worker.worker_generation)

-- The resume count that a takeover writes.
abbrev pub resumes : WorkerLeaseToken → Job → ℕ
resumes worker j = if is_abnormal worker j then suc j.resume_count else j.resume_count

abbrev pub is_repeated : WorkerLeaseToken → Job → Bool
is_repeated worker j = is_abnormal worker j && ltb max_abnormal_resumes (suc j.resume_count)

-- The filter of `_claim_recovery`, with `require_cleanup`.
unfoldable pub is_recoverable : (JobState → Bool) → Bool → WorkerLeaseToken → ExportDb → Job → Bool
is_recoverable states require_cleanup worker db j =
    states j.state
    && (is_left worker j
        && (not require_cleanup
            || (is_some j.candidate_snapshot_generation || has_unclean_attempt db j)))

-- `RecoveryClaimOutcome`, with the database.
pub record RecoveryClaimOutcome : Type 0 where
  pub db : ExportDb
  pub lease : Option LeaseToken
  pub terminalized : Bool

-- The columns that a takeover writes.
abbrev pub resumed_by : WorkerLeaseToken → ℕ → ℕ → Job → Job
resumed_by worker new_uuid now j = record j {
  resume_count = resumes worker j;
  worker_generation = worker.worker_generation;
  lease_uuid = some new_uuid;
  lease_expires_at = some (worker_expiry now);
  heartbeat_at = some now;
}

abbrev pub terminalized_in : ExportDb → RecoveryClaimOutcome
terminalized_in db = record { db = db; lease = none; terminalized = true }

unfoldable pub terminalize :
    ℕ → ErrorCode → WorkerLeaseToken → ℕ → ExportDb → Result ExportFault RecoveryClaimOutcome
unfolding fail_locked
terminalize pk code worker now db =
    fail_locked pk code worker none now db >>= λ after. done (terminalized_in after)

-- What `_claim_recovery` does with its candidate.
unfoldable pub take_over :
    WorkerLeaseToken → ℕ → ℕ → ExportDb → Option Job → Result ExportFault RecoveryClaimOutcome
unfolding save_job terminalize
take_over worker new_uuid now db none =
    done (record { db = db; lease = none; terminalized = false })
take_over worker new_uuid now db (some current) =
    if is_none current.owner_id
    then terminalize current.pk permission_changed worker now db
    else if is_repeated worker current
    then terminalize current.pk worker_repeated_failure worker now db
    else done (record {
      db = save_job (resumed_by worker new_uuid now current) db;
      lease = some (new_job_token worker current new_uuid);
      terminalized = false;
    })

-- `_claim_recovery`.
unfoldable pub claim_recovery :
    (JobState → Bool)
    → Bool
    → WorkerLeaseToken
    → Option LeaseToken
    → ℕ
    → ℕ
    → ExportDb
    → Result ExportFault RecoveryClaimOutcome
unfolding refuse_if lock_current_worker_lease first_in is_recoverable take_over
claim_recovery states require_cleanup worker held new_uuid now db =
    refuse_if (is_some held) lease_lost (
      lock_current_worker_lease worker db >>= λ _.
      take_over worker new_uuid now db
        (first_in by_state (select (is_recoverable states require_cleanup worker db) db.jobs)))

abbrev pub is_working : JobState → Bool
is_working s = same_state s snapshotting || same_state s archiving

-- `claim_retiring_recovery`.
unfoldable pub claim_retiring_recovery :
    WorkerLeaseToken
    → Option LeaseToken
    → ℕ
    → ℕ
    → ExportDb
    → Result ExportFault RecoveryClaimOutcome
unfolding claim_recovery
claim_retiring_recovery = claim_recovery is_working true

-- `claim_verifying_recovery`.
unfoldable pub claim_verifying_recovery :
    WorkerLeaseToken
    → Option LeaseToken
    → ℕ
    → ℕ
    → ExportDb
    → Result ExportFault RecoveryClaimOutcome
unfolding claim_recovery
claim_verifying_recovery = claim_recovery (λ s. same_state s verifying) false

-- The sum of `_included_totals`, over the rows `(pk, blob__size)` one after the other.
unfoldable pub add_sizes : ℕ → ℕ → List Item → Result ExportFault (ℕ × ℕ)
add_sizes total size [] = done (total, size)
add_sizes total size (i ∷ is) = elim i.blob_size [
  | none ↦ refused (storage_error export_storage_unsafe)
  | some s ↦ add_sizes (suc total) (size + s) is
]

-- `_included_totals`; the pages of its loop are read one after the other.
unfoldable pub included_totals : Job → ExportDb → Result ExportFault (ℕ × ℕ)
unfolding add_sizes
included_totals j db = add_sizes 0 0 (select (λ i. i.job == j.pk && i.included) db.items)

abbrev pub has_items : Job → ExportDb → Bool
has_items j db = any (λ i. i.job == j.pk) db.items

-- `_reset_recovered_progress_locked`, with the totals and whether there are items.
unfoldable pub reset_recovered_progress : ℕ × ℕ → Bool → Job → Job
reset_recovered_progress totals items j = record j {
  archive_total = if items then totals.0 else j.archive_total;
  bytes_total = if items then totals.1 else j.bytes_total;
  archive_done = 0;
  bytes_done = 0;
  verifying_receipt = none;
}
