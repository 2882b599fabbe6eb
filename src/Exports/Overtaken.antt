-- ===== src/Exports/Overtaken.antt =====
-- What a worker can no longer do once another one has the lease (exports/services/worker.py,
-- attempts.py, archive.py, snapshot.py).
use svrx_pinry.Prelude.{
  ℕ, ◌≡◌, refl, ap, Bool, false, not, ◌&&◌, ◌||◌, Option, none, some, is_some, List, ◌==◌, opt_eq,
  arith, Result, done, refused, refuse_if, refuse_if-true, refuse_if-refused, ◌>>=◌,
}
use svrx_pinry.Exports.Contracts.{
  WorkerLeaseToken, LeaseToken, worker_of, same_token, ExportFault, lease_lost,
}
use svrx_pinry.Exports.Tables.{ExportDb, DirectoryReceipt}
use svrx_pinry.Exports.Queries.{get_or, lock_current_worker_lease, lock_current_lease}
use svrx_pinry.Exports.Worker.{
  acquire_worker_lease, release_worker_lease, renew_once, claim_next_job, next_generation,
}
use svrx_pinry.Exports.Recovery.{claim_recovery, claim_retiring_recovery, claim_verifying_recovery}
use svrx_pinry.Exports.Handoff.{lock_ended, release_found, release_job_lease}
use svrx_pinry.Exports.Maintenance.{claim_complete_maintenance, expire_complete_jobs}
use svrx_pinry.Exports.Attempts.{record_directory_receipt, record_verifying}
use svrx_pinry.Exports.Permissions.{LivePin}
use svrx_pinry.Exports.Publication.{record_progress}
use svrx_pinry.Exports.Completion.{final_fence}
use svrx_pinry.Exports.Snapshots.{plan_candidate, SnapshotSeen, finalize}
use svrx_pinry.Exports.Removal.{delete_clean_orphans}

abbrev pub same_worker : WorkerLeaseToken → WorkerLeaseToken → Bool
same_worker s t =
    s.worker_generation == t.worker_generation && s.worker_lease_uuid == t.worker_lease_uuid

-- Whoever acquires the lease, another token does not pass its lock.
acquired-lock :
    (token : WorkerLeaseToken) (new_uuid now : ℕ) (db : ExportDb)
    → same_worker token (acquire_worker_lease new_uuid now db).1 ≡ false
    → lock_current_worker_lease token (acquire_worker_lease new_uuid now db).0 ≡ refused lease_lost
unfolding acquire_worker_lease lock_current_worker_lease get_or refuse_if
acquired-lock token new_uuid now db other =
    refuse_if-true
      (not (next_generation db.worker == token.worker_generation)
        || not (opt_eq (some new_uuid) (some token.worker_lease_uuid)))
      lease_lost _ (ground arith)

-- What the holder of a lease of another worker can no longer do; the worker itself is the lease's.
pub record IsOvertaken (lease : LeaseToken) (db : ExportDb) : Type 0 where
  pub claims :
      (new_uuid now : ℕ)
      → claim_next_job (worker_of lease) none new_uuid now db ≡ refused lease_lost
  pub recovers :
      (held : Option LeaseToken) (new_uuid now : ℕ)
      → claim_retiring_recovery (worker_of lease) held new_uuid now db ≡ refused lease_lost
  pub recovers_verifying :
      (held : Option LeaseToken) (new_uuid now : ℕ)
      → claim_verifying_recovery (worker_of lease) held new_uuid now db ≡ refused lease_lost
  pub maintains :
      (held : Option LeaseToken) (new_uuid now : ℕ)
      → claim_complete_maintenance (worker_of lease) held new_uuid now db ≡ refused lease_lost
  pub expires : (now : ℕ) → expire_complete_jobs (worker_of lease) now db ≡ refused lease_lost
  pub deletes : delete_clean_orphans (worker_of lease) db ≡ refused lease_lost
  pub renews :
      (token : Option LeaseToken) (now : ℕ)
      → renew_once (worker_of lease) token now db ≡ refused lease_lost
  pub releases_worker :
      (now : ℕ) → release_worker_lease (worker_of lease) now db ≡ refused lease_lost
  pub releases :
      (held : Option LeaseToken) (now : ℕ) (allow_released : Bool)
      → release_job_lease lease held now allow_released db ≡ refused lease_lost
  pub plans : (generation : ℕ) → plan_candidate lease generation db ≡ refused lease_lost
  pub finalizes :
      (seen : SnapshotSeen) (generation snapshot_at included excluded bytes : ℕ)
      → finalize lease seen generation snapshot_at included excluded bytes db ≡ refused lease_lost
  pub starts_attempt :
      (new_pk : ℕ) (receipt : DirectoryReceipt)
      → record_directory_receipt lease new_pk receipt db ≡ refused lease_lost
  pub progresses :
      (written bytes now : ℕ) → record_progress lease written bytes now db ≡ refused lease_lost
  pub verifies :
      (attempt file size sha256 exported_at : ℕ)
      → record_verifying lease attempt file size sha256 exported_at db ≡ refused lease_lost
  pub decides :
      (held : Option LeaseToken) (attempt file exported_at : ℕ) (pins : List LivePin)
      → final_fence lease held attempt file exported_at pins db ≡ refused lease_lost

lock-lost :
    (lease : LeaseToken) (db : ExportDb)
    → lock_current_worker_lease (worker_of lease) db ≡ refused lease_lost
    → lock_current_lease lease db ≡ refused lease_lost
unfolding lock_current_lease
lock-lost lease db lost = rw lost refl

lost-IsOvertaken :
    (lease : LeaseToken) (db : ExportDb)
    → lock_current_worker_lease (worker_of lease) db ≡ refused lease_lost
    → IsOvertaken lease db
unfolding claim_next_job claim_retiring_recovery claim_verifying_recovery claim_recovery
    claim_complete_maintenance expire_complete_jobs delete_clean_orphans renew_once
    release_worker_lease release_job_lease release_found lock_ended plan_candidate finalize
    record_directory_receipt record_progress record_verifying final_fence
lost-IsOvertaken lease db lost =
    let lost' = lock-lost lease db lost in
    record {
      claims = λ new_uuid now. rw lost refl;
      recovers = λ held new_uuid now.
          rw lost (refuse_if-refused (is_some held) lease_lost (refused lease_lost) refl);
      recovers_verifying = λ held new_uuid now.
          rw lost (refuse_if-refused (is_some held) lease_lost (refused lease_lost) refl);
      maintains = λ held new_uuid now.
          rw lost (refuse_if-refused (is_some held) lease_lost (refused lease_lost) refl);
      expires = λ now. rw lost refl;
      deletes = rw lost refl;
      renews = λ token now. rw lost refl;
      releases_worker = λ now. rw lost refl;
      releases = λ held now allow_released.
          rw (lost', lost)
            (refuse_if-refused (is_some held && not (same_token held (some lease))) lease_lost _ (
              ap (λ (r : Result ExportFault ExportDb). r >>= λ after. done (after, none))
                (refuse_if-refused (not allow_released) lease_lost (refused lease_lost) refl)));
      plans = λ generation. rw lost' refl;
      finalizes = λ seen generation snapshot_at included excluded bytes. rw lost' refl;
      starts_attempt = λ new_pk receipt. rw lost' refl;
      progresses = λ written bytes now. rw lost' refl;
      verifies = λ attempt file size sha256 exported_at. rw lost' refl;
      decides = λ held attempt file exported_at pins. rw lost' (
          refuse_if-refused (not (same_token held (some lease))) lease_lost (refused lease_lost)
            refl);
    }

-- Once a worker has acquired the lease, whoever holds a lease on a job under another worker's token can
-- neither claim, recover, maintain, expire or delete jobs, nor renew or release a lease, plan or commit
-- a snapshot, start or verify an attempt, report progress or publish: each of these is refused with a
-- lost lease, which leaves the tables as they are.
pub acquire_worker_lease-IsOvertaken :
    (lease : LeaseToken) (new_uuid now : ℕ) (db : ExportDb)
    → same_worker (worker_of lease) (acquire_worker_lease new_uuid now db).1 ≡ false
    → IsOvertaken lease (acquire_worker_lease new_uuid now db).0
acquire_worker_lease-IsOvertaken lease new_uuid now db other =
    lost-IsOvertaken lease (acquire_worker_lease new_uuid now db).0
      (acquired-lock (worker_of lease) new_uuid now db other)
