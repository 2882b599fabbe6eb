-- ===== src/Exports/Handoff.antt =====
-- The end of the work on a job, of exports/services/worker.py: the handoff at a normal stop and the
-- release of a lease.
use svrx_pinry.Prelude.{
  ℕ, Bool, not, ◌&&◌, ◌||◌, Option, none, some, ◌==◌, opt_eq, is_none, is_some, find, Result, done,
  refused, refuse_if, ◌>>=◌, if◌then◌else◌,
}
use svrx_pinry.Exports.Contracts.{
  queued, is_active, LeaseToken, worker_of, same_token, ExportFault, lease_lost,
}
use svrx_pinry.Exports.Tables.{
  Job, pending, ExportDb, save_job, has_unclean_attempt, has_current_tombstone,
}
use svrx_pinry.Exports.Queries.{get_or, lock_current_worker_lease, lock_current_lease}
use svrx_pinry.Exports.Failures.{mark_attempts_retiring, released}
use svrx_pinry.Exports.Recovery.{is_working, included_totals, has_items}
use svrx_pinry.Exports.Requeue.{Totals, totals_before, next_attempt}

-- The job has ended and its lease is given back already.
abbrev pub is_ended : LeaseToken → Job → Bool
is_ended lease j =
    j.pk == lease.job_id
    && (j.worker_generation == lease.worker_generation
        && (j.attempt_generation == lease.attempt_generation
            && (is_none j.lease_uuid && not (is_active j.state))))

unfoldable pub lock_ended : LeaseToken → ExportDb → Result ExportFault Job
unfolding get_or lock_current_worker_lease
lock_ended lease db = lock_current_worker_lease (worker_of lease) db >>= λ _.
    get_or lease_lost (find (is_ended lease) db.jobs)

-- `try: lock_current_lease(...) except LeaseLost: ...`.
unfoldable pub or_ended : LeaseToken → ExportDb → Result ExportFault Job → Result ExportFault Job
unfolding lock_ended
or_ended lease db (done j) = done j
or_ended lease db (refused fault) = lock_ended lease db

-- `_job_has_cleanup_work`.
abbrev pub has_cleanup_work : ExportDb → Job → Bool
has_cleanup_work db j = is_some j.candidate_snapshot_generation || has_unclean_attempt db j

-- The totals of the new attempt: those that were read before the fence, or new ones.
unfoldable pub totals_within : Totals → Job → ExportDb → Result ExportFault Totals
unfolding included_totals
totals_within totals j db =
    if has_current_tombstone db j
    then (if is_some totals
        then done totals
        else (included_totals j db >>= λ t. done (some (t, has_items j db))))
    else done none

-- The job and the database without its lease.
unfoldable pub hand_off : Totals → ℕ → ExportDb → Job → Result ExportFault ExportDb
unfolding save_job mark_attempts_retiring totals_within next_attempt
hand_off totals now db j =
    if is_working j.state
    then (if has_cleanup_work db j
        then done (
            save_job (record (released now j) { staging_cleanup_state = pending })
              (mark_attempts_retiring j.pk db))
        else (totals_within totals j db >>= λ t.
            done (save_job (record (next_attempt t (released now j)) { state = queued }) db)))
    else done (save_job (released now j) db)

-- The first check of `handoff`, on what it reads before the fence.
unfoldable pub is_handed : LeaseToken → Job → Bool
is_handed lease j =
    j.worker_generation == lease.worker_generation
    && (j.attempt_generation == lease.attempt_generation
        && (if is_none j.lease_uuid
            then not (is_active j.state)
            else opt_eq j.lease_uuid (some lease.job_lease_uuid)))

-- `handoff_after_normal_stop`, on what it reads and what it writes to; the token is cleared from the
-- heartbeat.
unfoldable pub handoff_after_normal_stop :
    LeaseToken
    → Option LeaseToken
    → ℕ
    → ExportDb
    → ExportDb
    → Result ExportFault (ExportDb × Option LeaseToken)
unfolding get_or refuse_if totals_before is_handed lock_current_lease or_ended hand_off
handoff_after_normal_stop lease held now read db =
    get_or lease_lost (find (λ j. j.pk == lease.job_id) read.jobs) >>= λ job.
    refuse_if (not (is_handed lease job)) lease_lost (
      totals_before job read >>= λ totals.
      refuse_if (not (same_token held (some lease))) lease_lost (
        or_ended lease db (lock_current_lease lease db) >>= λ current.
        hand_off totals now db current >>= λ after. done (after, none)))

-- The lock of `release_job_lease`: what it leaves of the job that it finds.
unfoldable pub release_found :
    LeaseToken → ℕ → Bool → ExportDb → Result ExportFault Job → Result ExportFault ExportDb
unfolding refuse_if save_job lock_ended
release_found lease now allow_released db (done j) = done (save_job (released now j) db)
release_found lease now allow_released db (refused fault) =
    refuse_if (not allow_released) fault (lock_ended lease db >>= λ _. done db)

-- `release_job_lease`; the token is cleared from the heartbeat.
unfoldable pub release_job_lease :
    LeaseToken
    → Option LeaseToken
    → ℕ
    → Bool
    → ExportDb
    → Result ExportFault (ExportDb × Option LeaseToken)
unfolding refuse_if lock_current_lease release_found
release_job_lease lease held now allow_released db =
    refuse_if (is_some held && not (same_token held (some lease))) lease_lost (
      release_found lease now allow_released db (lock_current_lease lease db) >>= λ after.
      done (after, none))
