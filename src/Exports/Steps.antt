-- ===== src/Exports/Steps.antt =====
-- Histories of the operations on exports (exports/services/), as a relation on their tables.
use svrx_pinry.Prelude.{ℕ, ◌≡◌, Bool, Option, List, String, done}
use svrx_pinry.Exports.Contracts.{JobState, verifying, ErrorCode, WorkerLeaseToken, LeaseToken}
use svrx_pinry.Exports.Tables.{
  Job, DirectoryReceipt, OpenFileReceipt, FullReceipt, ReadyReceipt, Attempt, AttemptFile, ExportDb,
}
use svrx_pinry.Exports.Queries.{lock_current_lease}
use svrx_pinry.Exports.Failures.{fail_job}
use svrx_pinry.Exports.Worker.{
  acquire_worker_lease, release_worker_lease, renew_once, claim_next_job,
}
use svrx_pinry.Exports.Recovery.{
  RecoveryClaimOutcome, claim_retiring_recovery, claim_verifying_recovery,
}
use svrx_pinry.Exports.Requeue.{RequeueOutcome, requeue_expired_nonverifying_jobs}
use svrx_pinry.Exports.Handoff.{handoff_after_normal_stop, release_job_lease}
use svrx_pinry.Exports.Maintenance.{
  claim_complete_maintenance, terminalize_ownerless_active, expire_complete_jobs,
}
use svrx_pinry.Exports.Attempts.{
  record_directory_receipt, record_open_file_receipt, ensure_exported_at,
  record_closed_file_receipt, record_verifying,
}
use svrx_pinry.Exports.Permissions.{LivePin}
use svrx_pinry.Exports.Publication.{record_progress, apply_revocation_batch}
use svrx_pinry.Exports.Completion.{final_fence}
use svrx_pinry.Exports.Snapshots.{plan_candidate, SnapshotSeen, finalize}
use svrx_pinry.Exports.Targets.{ExportSettings, TargetRequest, TargetDb}
use svrx_pinry.Exports.Sizes.{ObservedTargets}
use svrx_pinry.Exports.Removal.{delete_clean_orphans, delete_user, mark_ready_cleanup}
use svrx_pinry.Exports.Creation.{commit_locked}
use svrx_pinry.Exports.Downloads.{DownloadExpectation, PhysicalReceipt, final_authorize}

-- The operations that have returned, one after the other. The archive service takes the last decision
-- only for a lease that locks a job in verifying: it has read that state under the same lease.
pub data ExportReach (a : ExportDb) : ExportDb → Type 0 where
  here : ExportReach a a
  acquires :
      {b : ExportDb} (new_uuid now : ℕ)
      → ExportReach a b
      → ExportReach a (acquire_worker_lease new_uuid now b).0
  authorizes :
      {b : ExportDb} (e : DownloadExpectation) (seen : PhysicalReceipt) (first second : ℕ)
      (pins : List LivePin)
      → ExportReach a b
      → ExportReach a (final_authorize e seen first second pins b).0
  loses_user : {b : ExportDb} (user : ℕ) → ExportReach a b → ExportReach a (delete_user user b)
  creates :
      {b c : ExportDb} (encoded_size : String → ℕ) (settings : ExportSettings) (user : ℕ)
      (request : TargetRequest) (observed : ObservedTargets) (available pk health_now now : ℕ)
      (source : TargetDb) (job : Job)
      → ExportReach a b
      → commit_locked encoded_size settings user request observed available pk health_now now source
          b
        ≡ done (c, job)
      → ExportReach a c
  releases_worker :
      {b c : ExportDb} (token : WorkerLeaseToken) (now : ℕ)
      → ExportReach a b
      → release_worker_lease token now b ≡ done c
      → ExportReach a c
  renews :
      {b c : ExportDb} (worker : WorkerLeaseToken) (token : Option LeaseToken) (now : ℕ)
      → ExportReach a b
      → renew_once worker token now b ≡ done c
      → ExportReach a c
  claims :
      {b c : ExportDb} (worker : WorkerLeaseToken) (held : Option LeaseToken) (new_uuid now : ℕ)
      (lease : Option LeaseToken)
      → ExportReach a b
      → claim_next_job worker held new_uuid now b ≡ done (c, lease)
      → ExportReach a c
  takes_over :
      {b : ExportDb} (worker : WorkerLeaseToken) (held : Option LeaseToken) (new_uuid now : ℕ)
      (outcome : RecoveryClaimOutcome)
      → ExportReach a b
      → claim_retiring_recovery worker held new_uuid now b ≡ done outcome
      → ExportReach a outcome.db
  takes_verifying :
      {b : ExportDb} (worker : WorkerLeaseToken) (held : Option LeaseToken) (new_uuid now : ℕ)
      (outcome : RecoveryClaimOutcome)
      → ExportReach a b
      → claim_verifying_recovery worker held new_uuid now b ≡ done outcome
      → ExportReach a outcome.db
  requeues :
      {b : ExportDb} (worker : WorkerLeaseToken) (now : ℕ) (read : ExportDb)
      (outcome : RequeueOutcome)
      → ExportReach a b
      → requeue_expired_nonverifying_jobs worker now read b ≡ done outcome
      → ExportReach a outcome.db
  hands_off :
      {b c : ExportDb} (lease : LeaseToken) (held after : Option LeaseToken) (now : ℕ)
      (read : ExportDb)
      → ExportReach a b
      → handoff_after_normal_stop lease held now read b ≡ done (c, after)
      → ExportReach a c
  releases :
      {b c : ExportDb} (lease : LeaseToken) (held after : Option LeaseToken) (now : ℕ)
      (allow_released : Bool)
      → ExportReach a b
      → release_job_lease lease held now allow_released b ≡ done (c, after)
      → ExportReach a c
  fails :
      {b c : ExportDb} (lease : LeaseToken) (code : ErrorCode) (held after : Option LeaseToken)
      (now : ℕ)
      → ExportReach a b
      → fail_job lease code held now b ≡ done (c, after)
      → ExportReach a c
  maintains :
      {b c : ExportDb} (worker : WorkerLeaseToken) (held : Option LeaseToken) (new_uuid now : ℕ)
      (lease : Option LeaseToken)
      → ExportReach a b
      → claim_complete_maintenance worker held new_uuid now b ≡ done (c, lease)
      → ExportReach a c
  terminalizes :
      {b c : ExportDb} (worker : WorkerLeaseToken) (now : ℕ) (found : Bool)
      → ExportReach a b
      → terminalize_ownerless_active worker now b ≡ done (c, found)
      → ExportReach a c
  expires :
      {b c : ExportDb} (worker : WorkerLeaseToken) (now : ℕ)
      → ExportReach a b
      → expire_complete_jobs worker now b ≡ done c
      → ExportReach a c
  removes :
      {b c : ExportDb} (worker : WorkerLeaseToken) (pk : ℕ) (seen : Option ReadyReceipt)
      (succeeded : Bool)
      → ExportReach a b
      → mark_ready_cleanup worker pk seen succeeded b ≡ done c
      → ExportReach a c
  deletes :
      {b c : ExportDb} (worker : WorkerLeaseToken)
      → ExportReach a b
      → delete_clean_orphans worker b ≡ done c
      → ExportReach a c
  plans :
      {b c : ExportDb} (lease : LeaseToken) (generation : ℕ) (generations : Option ℕ × Option ℕ)
      → ExportReach a b
      → plan_candidate lease generation b ≡ done (c, generations)
      → ExportReach a c
  finalizes :
      {b c : ExportDb} (lease : LeaseToken) (seen : SnapshotSeen)
      (generation snapshot_at included excluded bytes : ℕ)
      → ExportReach a b
      → finalize lease seen generation snapshot_at included excluded bytes b ≡ done c
      → ExportReach a c
  starts_attempt :
      {b c : ExportDb} (lease : LeaseToken) (new_pk : ℕ) (receipt : DirectoryReceipt)
      (attempt : Attempt)
      → ExportReach a b
      → record_directory_receipt lease new_pk receipt b ≡ done (c, attempt)
      → ExportReach a c
  opens_file :
      {b c : ExportDb} (lease : LeaseToken) (attempt new_pk : ℕ) (receipt : OpenFileReceipt)
      (file : AttemptFile)
      → ExportReach a b
      → record_open_file_receipt lease attempt new_pk receipt b ≡ done (c, file)
      → ExportReach a c
  dates :
      {b c : ExportDb} (lease : LeaseToken) (attempt value : ℕ) (dated : Option ℕ)
      → ExportReach a b
      → ensure_exported_at lease attempt value b ≡ done (c, dated)
      → ExportReach a c
  progresses :
      {b c : ExportDb} (lease : LeaseToken) (written bytes now : ℕ)
      → ExportReach a b
      → record_progress lease written bytes now b ≡ done c
      → ExportReach a c
  revokes :
      {b c : ExportDb} (lease : LeaseToken) (ids : List ℕ) (expected : JobState)
      → ExportReach a b
      → apply_revocation_batch lease ids expected b ≡ done c
      → ExportReach a c
  closes_file :
      {b c : ExportDb} (lease : LeaseToken) (attempt file : ℕ) (opened : OpenFileReceipt)
      (full : FullReceipt) (sha256 : Option ℕ)
      → ExportReach a b
      → record_closed_file_receipt lease attempt file opened full sha256 b ≡ done c
      → ExportReach a c
  verifies :
      {b c : ExportDb} (lease : LeaseToken) (attempt file size sha256 exported_at : ℕ)
      → ExportReach a b
      → record_verifying lease attempt file size sha256 exported_at b ≡ done c
      → ExportReach a c
  decides :
      {b c : ExportDb} (lease : LeaseToken) (held after : Option LeaseToken)
      (attempt file exported_at : ℕ) (pins : List LivePin)
      → ExportReach a b
      → ((j : Job) → lock_current_lease lease b ≡ done j → j.state ≡ verifying)
      → final_fence lease held attempt file exported_at pins b ≡ done (c, after)
      → ExportReach a c
