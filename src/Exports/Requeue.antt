-- ===== src/Exports/Requeue.antt =====
-- How a job goes back to the queue, after another worker has left it or at a normal stop, of
-- exports/services/worker.py.
use svrx_pinry.Prelude.{
  ℕ, suc, Bool, true, false, not, ◌&&◌, Option, none, some, ◌==◌, opt_eq, bool_eq, is_none, select,
  find, Result, done, ◌>>=◌, if◌then◌else◌,
}
use svrx_pinry.Exports.Contracts.{
  ErrorCode, queued, permission_changed, worker_repeated_failure, WorkerLeaseToken, ExportFault,
}
use svrx_pinry.Exports.Tables.{Job, ExportDb, save_job, has_unclean_attempt, has_current_tombstone}
use svrx_pinry.Exports.Queries.{first_in, by_state, lock_current_worker_lease}
use svrx_pinry.Exports.Failures.{fail_locked}
use svrx_pinry.Exports.Recovery.{
  is_left, is_repeated, resumes, is_working, included_totals, has_items, reset_recovered_progress,
}

-- The filter of `candidates`.
unfoldable pub is_requeueable : WorkerLeaseToken → ExportDb → Job → Bool
is_requeueable worker db j =
    is_working j.state
    && (is_none j.candidate_snapshot_generation
        && (not (has_unclean_attempt db j) && is_left worker j))

-- `RequeueOutcome`, with the database.
pub record RequeueOutcome : Type 0 where
  pub db : ExportDb
  pub requeued_count : ℕ
  pub terminalized : Bool

-- The totals and whether there are items, where they are read.
abbrev pub Totals : Type 0
Totals = Option ((ℕ × ℕ) × Bool)

-- What is read before the write fence: the totals, if the job's attempt has left a tombstone.
unfoldable pub totals_before : Job → ExportDb → Result ExportFault Totals
unfolding included_totals
totals_before j read =
    if has_current_tombstone read j
    then (included_totals j read >>= λ t. done (some (t, has_items j read)))
    else done none

-- The job's progress from the start, in another attempt, if its attempt has left a tombstone.
unfoldable pub next_attempt : Totals → Job → Job
unfolding reset_recovered_progress
next_attempt none j = j
next_attempt (some (totals, items)) j = record (reset_recovered_progress totals items j) {
  attempt_generation = suc j.attempt_generation;
}

-- The columns that go with the place in the queue.
abbrev pub queued_by : WorkerLeaseToken → ℕ → Job → Job
queued_by worker now j = record j {
  state = queued;
  resume_count = resumes worker j;
  worker_generation = worker.worker_generation;
  lease_uuid = none;
  lease_expires_at = none;
  heartbeat_at = some now;
}

abbrev pub not_requeued : ExportDb → RequeueOutcome
not_requeued db = record { db = db; requeued_count = 0; terminalized = false }

unfoldable pub terminalize_requeue :
    ℕ → ErrorCode → WorkerLeaseToken → ℕ → ExportDb → Result ExportFault RequeueOutcome
unfolding fail_locked
terminalize_requeue pk code worker now db = fail_locked pk code worker none now db >>= λ after.
    done (record { db = after; requeued_count = 0; terminalized = true })

-- The comparison of `expected` with `actual`.
unfoldable pub is_expected : ExportDb → Job → ExportDb → Job → Bool
is_expected read candidate db current =
    current.attempt_generation == candidate.attempt_generation
    && (current.worker_generation == candidate.worker_generation
        && (opt_eq current.lease_uuid candidate.lease_uuid
            && bool_eq (has_current_tombstone db current) (has_current_tombstone read candidate)))

-- What is done with the job that is still a candidate under the fence.
unfoldable pub requeue_job :
    WorkerLeaseToken → ℕ → Totals → ExportDb → Job → Result ExportFault RequeueOutcome
unfolding save_job terminalize_requeue next_attempt
requeue_job worker now totals db current =
    if is_none current.owner_id
    then terminalize_requeue current.pk permission_changed worker now db
    else if is_repeated worker current
    then terminalize_requeue current.pk worker_repeated_failure worker now db
    else done (record {
      db = save_job (next_attempt totals (queued_by worker now current)) db;
      requeued_count = 1;
      terminalized = false;
    })

unfoldable pub requeue_current :
    WorkerLeaseToken
    → ℕ
    → Totals
    → ExportDb
    → Job
    → ExportDb
    → Option Job
    → Result ExportFault RequeueOutcome
unfolding is_expected requeue_job
requeue_current worker now totals read candidate db none = done (not_requeued db)
requeue_current worker now totals read candidate db (some current) =
    if is_expected read candidate db current
    then requeue_job worker now totals db current
    else done (not_requeued db)

unfoldable pub requeue_candidate :
    WorkerLeaseToken → ℕ → ExportDb → ExportDb → Option Job → Result ExportFault RequeueOutcome
unfolding totals_before lock_current_worker_lease is_requeueable requeue_current
requeue_candidate worker now read db none = done (not_requeued db)
requeue_candidate worker now read db (some candidate) = totals_before candidate read >>= λ totals.
    lock_current_worker_lease worker db >>= λ _.
    requeue_current worker now totals read candidate db
      (find (λ j. j.pk == candidate.pk && is_requeueable worker db j) db.jobs)

-- `requeue_expired_nonverifying_jobs`: it reads one database, and writes under the fence to another
-- one, which holds what others have committed in between.
unfoldable pub requeue_expired_nonverifying_jobs :
    WorkerLeaseToken → ℕ → ExportDb → ExportDb → Result ExportFault RequeueOutcome
unfolding first_in is_requeueable requeue_candidate
requeue_expired_nonverifying_jobs worker now read db =
    requeue_candidate worker now read db
      (first_in by_state (select (is_requeueable worker read) read.jobs))
