-- ===== src/Exports/Claimed.antt =====
-- The claims of exports/services/worker.py keep the invariant of the tables.
use svrx_pinry.Prelude.{
  ℕ, ◌≡◌, refl, inl, inr, Bool, true, false, ◌&&◌, Option, none, some, is_none, is_some, if_cases,
  if_elim, Option-cases, select, arith, done, Ensures, returns, Ensures-refuse_if, Ensures-bind,
  Ensures-then, ◌||◌,
}
use svrx_pinry.Exports.Contracts.{
  JobState, queued, verifying, complete, same_state, is_active, lease_lost, ErrorCode, is_job_code,
  permission_changed, worker_repeated_failure, WorkerLeaseToken, LeaseToken,
}
use svrx_pinry.Exports.Tables.{Job, ExportDb, save_job}
use svrx_pinry.Exports.Queries.{first_in, by_age, by_state, lock_current_worker_lease}
use svrx_pinry.Exports.Failures.{fail_locked}
use svrx_pinry.Exports.Worker.{
  is_claimable, new_job_token, claimed_by, take_claimed, claim_next_job, renewed,
}
use svrx_pinry.Exports.Recovery.{
  is_working, is_repeated, is_recoverable, resumed_by, RecoveryClaimOutcome, terminalize, take_over,
  claim_recovery, claim_retiring_recovery, claim_verifying_recovery,
}
use svrx_pinry.Exports.Maintenance.{
  is_maintained, leased_by, own_lease, lease_complete, take_maintained, claim_complete_maintenance,
  terminalize_first, terminalize_ownerless_active,
}
use svrx_pinry.Exports.Invariant.{IsJob, HoldsSlot, IsExport}
use svrx_pinry.Exports.Saves.{same-HoldsSlot, save_job-IsExport, first-job}
use svrx_pinry.Exports.Phases.{same_state-eq, renewed-IsJob, active-failed, is_working-active}
use svrx_pinry.Exports.Leased.{claimed_by-IsJob, resumed_by-IsJob, leased_by-IsJob}
use svrx_pinry.Exports.Failed.{IsActive, first-IsActive, fail_locked-IsExport}

-- A job that stays active keeps its owner's slot.
pub kept-IsExport :
    (j job : Job) (db : ExportDb)
    → job.pk ≡ j.pk
    → job.owner_id ≡ j.owner_id
    → is_active j.state ≡ true
    → IsJob job
    → HoldsSlot db.slots j
    → IsExport db
    → IsExport (save_job job db)
kept-IsExport j job db pk owner a good holds h =
    save_job-IsExport job db good (same-HoldsSlot db.slots j job pk owner (λ _. a) holds) h

take_claimed-IsExport :
    (worker : WorkerLeaseToken) (new_uuid now : ℕ) (db : ExportDb)
    → IsExport db
    → IsExport
        (take_claimed worker new_uuid now db (first_in by_age (select (is_claimable db) db.jobs))).0
unfolding take_claimed is_claimable
take_claimed-IsExport worker new_uuid now db h =
    elim (Option-cases (first_in by_age (select (is_claimable db) db.jobs))) [
      | inl e ↦ rw e h
      | inr (j, e) ↦
          let (good, holds, t) = first-job by_age (is_claimable db) db h e in
          let s = same_state-eq j.state queued (ground arith) in
          rw e (
            kept-IsExport j (claimed_by worker new_uuid now j) db refl refl (rw s refl)
              (claimed_by-IsJob worker new_uuid now j s (ground arith) good) holds h)
    ]

pub claim_next_job-IsExport :
    (worker : WorkerLeaseToken) (held : Option LeaseToken) (new_uuid now : ℕ) (db : ExportDb)
    → IsExport db
    → Ensures (λ r. IsExport r.0) (claim_next_job worker held new_uuid now db)
unfolding claim_next_job
claim_next_job-IsExport worker held new_uuid now db h =
    if_elim (Ensures (λ (r : ExportDb × Option LeaseToken). IsExport r.0)) (is_some held) _ _
      (returns h)
      (Ensures-bind (lock_current_worker_lease worker db) _
        λ _ _. returns (take_claimed-IsExport worker new_uuid now db h))

terminalize-IsExport :
    (pk : ℕ) (code : ErrorCode) (worker : WorkerLeaseToken) (now : ℕ) (db : ExportDb)
    → is_job_code code ≡ true
    → IsActive db pk
    → IsExport db
    → Ensures (λ r. IsExport r.db) (terminalize pk code worker now db)
unfolding terminalize
terminalize-IsExport pk code worker now db c live h =
    Ensures-then IsExport (λ (r : RecoveryClaimOutcome). IsExport r.db)
      (fail_locked pk code worker none now db) _
      (fail_locked-IsExport pk code worker none now db live h) (λ after kept. returns kept)

-- A candidate of a recovery is active where its states are.
module _ (states : JobState → Bool) (active : (s : JobState) → states s ≡ true → is_active s ≡ true)
    (working : (s : JobState)
      → states s ≡ true
      → (is_working s || same_state s verifying) ≡ true) where
  take_over-IsExport :
      (clean : Bool) (worker : WorkerLeaseToken) (new_uuid now : ℕ) (db : ExportDb)
      → IsExport db
      → Ensures
          (λ r. IsExport r.db)
          (take_over worker new_uuid now db
            (first_in by_state (select (is_recoverable states clean worker db) db.jobs)))
  unfolding take_over is_recoverable
  take_over-IsExport clean worker new_uuid now db h =
      elim (Option-cases
        (first_in by_state (select (is_recoverable states clean worker db) db.jobs))) [
          | inl e ↦ rw e (returns h)
          | inr (j, e) ↦
              let (good, holds, t) =
                first-job by_state (is_recoverable states clean worker db) db h e in
              let a = active j.state (ground arith) in
              let live = first-IsActive by_state (is_recoverable states clean worker db) db h e a in
              rw e (
                if_cases (Ensures (λ (r : RecoveryClaimOutcome). IsExport r.db))
                  (is_none j.owner_id) (terminalize j.pk permission_changed worker now db) _
                  (λ _. terminalize-IsExport j.pk permission_changed worker now db refl live h)
                  (λ _.
                    if_cases (Ensures (λ (r : RecoveryClaimOutcome). IsExport r.db))
                      (is_repeated worker j)
                      (terminalize j.pk worker_repeated_failure worker now db)
                      (done (record {
                        db = save_job (resumed_by worker new_uuid now j) db;
                        lease = some (new_job_token worker j new_uuid);
                        terminalized = false;
                      }))
                      (λ _.
                        terminalize-IsExport j.pk worker_repeated_failure worker now db refl live h)
                      (λ r. returns (
                        kept-IsExport j (resumed_by worker new_uuid now j) db refl refl a
                          (resumed_by-IsJob worker new_uuid now j (active-failed j.state a)
                            (working j.state (ground arith)) r good)
                          holds h))))
        ]

  claim_recovery-IsExport :
      (clean : Bool) (worker : WorkerLeaseToken) (held : Option LeaseToken) (new_uuid now : ℕ)
      (db : ExportDb)
      → IsExport db
      → Ensures (λ r. IsExport r.db) (claim_recovery states clean worker held new_uuid now db)
  unfolding claim_recovery
  claim_recovery-IsExport clean worker held new_uuid now db h = Ensures-refuse_if _ _ _ λ _.
      Ensures-bind (lock_current_worker_lease worker db) _
        λ _ _. take_over-IsExport clean worker new_uuid now db h

pub claim_retiring_recovery-IsExport :
    (worker : WorkerLeaseToken) (held : Option LeaseToken) (new_uuid now : ℕ) (db : ExportDb)
    → IsExport db
    → Ensures (λ r. IsExport r.db) (claim_retiring_recovery worker held new_uuid now db)
unfolding claim_retiring_recovery
claim_retiring_recovery-IsExport worker held new_uuid now db h =
    claim_recovery-IsExport is_working is_working-active (λ s e. ground arith) true worker held
      new_uuid now db h

pub claim_verifying_recovery-IsExport :
    (worker : WorkerLeaseToken) (held : Option LeaseToken) (new_uuid now : ℕ) (db : ExportDb)
    → IsExport db
    → Ensures (λ r. IsExport r.db) (claim_verifying_recovery worker held new_uuid now db)
unfolding claim_verifying_recovery
claim_verifying_recovery-IsExport worker held new_uuid now db h =
    claim_recovery-IsExport (λ s. same_state s verifying)
      (λ s e. rw (same_state-eq s verifying e) refl) (λ s e. ground arith) false worker held
      new_uuid now db h

take_maintained-IsExport :
    (worker : WorkerLeaseToken) (new_uuid now : ℕ) (db : ExportDb)
    → IsExport db
    → IsExport
        (take_maintained worker new_uuid now db (first_in by_age (select is_maintained db.jobs))).0
unfolding take_maintained lease_complete
take_maintained-IsExport worker new_uuid now db h =
    elim (Option-cases (first_in by_age (select is_maintained db.jobs))) [
      | inl e ↦ rw e h
      | inr (j, e) ↦
          let (good, holds, t) = first-job by_age is_maintained db h e in
          let s = same_state-eq j.state complete (ground arith) in
          rw e (elim (Option-cases (own_lease worker j)) [
            | inl o ↦ rw o (
                save_job-IsExport (leased_by worker new_uuid now j) db
                  (leased_by-IsJob worker new_uuid now j s good)
                  (same-HoldsSlot db.slots j (leased_by worker new_uuid now j) refl refl (λ a. a)
                    holds)
                  h)
            | inr (uuid, o) ↦ rw o (
                save_job-IsExport (renewed now j) db (renewed-IsJob now j good)
                  (same-HoldsSlot db.slots j (renewed now j) refl refl (λ a. a) holds) h)
          ])
    ]

pub claim_complete_maintenance-IsExport :
    (worker : WorkerLeaseToken) (held : Option LeaseToken) (new_uuid now : ℕ) (db : ExportDb)
    → IsExport db
    → Ensures (λ r. IsExport r.0) (claim_complete_maintenance worker held new_uuid now db)
unfolding claim_complete_maintenance
claim_complete_maintenance-IsExport worker held new_uuid now db h =
    Ensures-refuse_if (is_some held) lease_lost _ λ _.
      Ensures-bind (lock_current_worker_lease worker db) _
        λ _ _. returns (take_maintained-IsExport worker new_uuid now db h)

pub terminalize_ownerless_active-IsExport :
    (worker : WorkerLeaseToken) (now : ℕ) (db : ExportDb)
    → IsExport db
    → Ensures (λ r. IsExport r.0) (terminalize_ownerless_active worker now db)
unfolding terminalize_ownerless_active terminalize_first
terminalize_ownerless_active-IsExport worker now db h =
    Ensures-bind (lock_current_worker_lease worker db) _ λ _ _.
      elim (Option-cases
        (first_in by_state (select (λ j. is_none j.owner_id && is_active j.state) db.jobs))) [
          | inl e ↦ rw e (returns h)
          | inr (j, e) ↦
              let test = λ (k : Job). is_none k.owner_id && is_active k.state in
              let (good, holds, t) = first-job by_state test db h e in
              let a : is_active j.state ≡ true = ground arith in
              rw e (
                Ensures-then IsExport (λ (r : ExportDb × Bool). IsExport r.0) _ _
                  (fail_locked-IsExport j.pk permission_changed worker none now db
                    (first-IsActive by_state test db h e a) h)
                  (λ after kept. returns kept))
        ]
