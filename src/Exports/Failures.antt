-- ===== src/Exports/Failures.antt =====
-- The failure of a job, `_fail_locked` and `fail_job` of exports/services/worker.py.
use svrx_pinry.Prelude.{
  ℕ, Bool, true, false, not, ◌&&◌, ◌||◌, Option, none, some, ◌==◌, opt_eq, is_some, any, update,
  Result, done, refuse_if, ◌>>=◌, if◌then◌else◌,
}
use svrx_pinry.Exports.Contracts.{
  failed, is_active, ErrorCode, error_contract, WorkerLeaseToken, LeaseToken, worker_of, same_token,
  ExportFault, lease_lost, integrity_error, is_job_code,
}
use svrx_pinry.Exports.Tables.{
  Job, pending, AttemptState, attempt_writing, attempt_closed, attempt_verifying, attempt_retiring,
  FileKind, archive, quarantine, FileState, file_writing, file_closed, file_verifying,
  file_publishing, file_ready_candidate, file_retiring, ExportDb, save_job,
}
use svrx_pinry.Exports.Queries.{lock_current_worker_lease, job_fence, get_job}

-- `state__in=("writing", "closed", "verifying")`.
abbrev pub is_open_attempt : AttemptState → Bool
is_open_attempt attempt_writing = true
is_open_attempt attempt_closed = true
is_open_attempt attempt_verifying = true
is_open_attempt s = false

abbrev pub is_open_file : FileState → Bool
is_open_file file_writing = true
is_open_file file_closed = true
is_open_file file_verifying = true
is_open_file file_publishing = true
is_open_file file_ready_candidate = true
is_open_file s = false

abbrev pub is_archive : FileKind → Bool
is_archive archive = true
is_archive quarantine = false

-- `_mark_attempts_retiring_locked`.
unfoldable pub mark_attempts_retiring : ℕ → ExportDb → ExportDb
mark_attempts_retiring job db = record db {
  attempts =
      update (λ a. a.job == job && is_open_attempt a.state)
        (λ a. record a { state = attempt_retiring }) db.attempts;
  files =
      update
        (λ f.
          any (λ a. a.pk == f.attempt && a.job == job) db.attempts
          && (is_archive f.kind && is_open_file f.state))
        (λ f. record f { state = file_retiring }) db.files;
}

-- `ExportSlot.objects.filter(current_job=...).update(current_job=None)`.
unfoldable pub clear_slots : ℕ → ExportDb → ExportDb
clear_slots job db = record db {
  slots =
      update (λ s. opt_eq s.current_job (some job)) (λ s. record s { current_job = none }) db.slots;
}

-- The columns that a failure writes.
abbrev pub failed_with : ErrorCode → ℕ → Job → Job
failed_with code now j = record j {
  state = failed;
  error_code = some code;
  error_class = some (error_contract code).0;
  error_retryable = some (error_contract code).1;
  staging_cleanup_state = pending;
  lease_uuid = none;
  lease_expires_at = none;
  heartbeat_at = some now;
}

abbrev pub lost_token : Option LeaseToken → Job → Bool
lost_token none j = false
lost_token (some t) j = not (job_fence t j)

-- `_fail_locked`: the job is read again under its lock. A failed row takes only the codes of
-- `JOB_ERROR_CODES`.
unfoldable pub fail_locked :
    ℕ
    → ErrorCode
    → WorkerLeaseToken
    → Option LeaseToken
    → ℕ
    → ExportDb
    → Result ExportFault ExportDb
unfolding refuse_if save_job mark_attempts_retiring clear_slots lock_current_worker_lease get_job
fail_locked pk code worker token now db = do
  _ ← lock_current_worker_lease worker db
  current ← get_job pk db
  refuse_if (lost_token token current) lease_lost (
      refuse_if (not (is_job_code code)) integrity_error (
        done (
          clear_slots current.pk
            (mark_attempts_retiring current.pk (save_job (failed_with code now current) db)))))

-- The columns that the release of a lease writes.
abbrev pub released : ℕ → Job → Job
released now j = record j { lease_uuid = none; lease_expires_at = none; heartbeat_at = some now }

-- What `fail_job` does with a job that has ended: its lease is given back, where it is this one.
unfoldable pub release_ended : LeaseToken → ℕ → ExportDb → Job → Result ExportFault ExportDb
unfolding refuse_if save_job lock_current_worker_lease
release_ended lease now db job = lock_current_worker_lease (worker_of lease) db >>= λ _.
    refuse_if
      (not (job.worker_generation == lease.worker_generation)
        || (not (job.attempt_generation == lease.attempt_generation)
            || (is_some job.lease_uuid && not (opt_eq job.lease_uuid (some lease.job_lease_uuid)))))
      lease_lost (done (if is_some job.lease_uuid then save_job (released now job) db else db))

-- `fail_job`, on what the heartbeat holds; the token is cleared from it.
unfoldable pub fail_job :
    LeaseToken
    → ErrorCode
    → Option LeaseToken
    → ℕ
    → ExportDb
    → Result ExportFault (ExportDb × Option LeaseToken)
unfolding refuse_if get_job fail_locked release_ended
fail_job lease code held now db = refuse_if (not (same_token held (some lease))) lease_lost (
    get_job lease.job_id db >>= λ job.
    (if is_active job.state
      then fail_locked job.pk code (worker_of lease) (some lease) now db
      else release_ended lease now db job)
    >>= λ after. done (after, none))
