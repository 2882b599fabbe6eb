-- ===== src/Exports/Decided.antt =====
-- The last decision on an archive and the snapshot of a job keep the invariant of the tables
-- (exports/services/archive.py and snapshot.py).
use svrx_pinry.Prelude.{
  ℕ, ◌≡◌, refl, true, not, Option, none, some, is_some, List, [], ◌∷◌, opt_eq, if_elim, arith, done,
  refuse_if, ◌>>=◌, Ensures, returns, Ensures-refuse_if, Ensures-bind, Ensures-then, false,
  if_cases, ltb,
}
use svrx_pinry.Exports.Contracts.{
  snapshotting, verifying, LeaseToken, lease_lost, export_error, permission_changed,
  snapshot_failed, export_storage_unsafe, same_token, JobState, queued, archiving, complete, failed,
  expired, integrity_error,
}
use svrx_pinry.Exports.Tables.{Job, Attempt, AttemptFile, ExportDb}
use svrx_pinry.Exports.Queries.{lock_current_lease}
use svrx_pinry.Exports.Attempts.{get_attempt, get_file}
use svrx_pinry.Exports.Permissions.{LivePin, revoked_item_ids}
use svrx_pinry.Exports.Completion.{
  complete_locked, record_owner_deleted, is_ownerless, decide, final_decision, final_fence,
}
use svrx_pinry.Exports.Snapshots.{
  is_unplannable, planned, plan_candidate, SnapshotSeen, finalized, finalize,
}
use svrx_pinry.Exports.Invariant.{IsJob, HoldsSlot, IsExport, led_ok}
use svrx_pinry.Exports.Claimed.{kept-IsExport}
use svrx_pinry.Exports.Published.{candidate-snapshotting, planned-IsJob, finalized-IsJob}
use svrx_pinry.Exports.Returned.{locked-job}
use svrx_pinry.Exports.Concluded.{
  complete_locked-IsExport, record_owner_deleted-IsExport, rotate_locked-IsExport,
}

eq-some : (o : Option ℕ) (n : ℕ) → opt_eq o (some n) ≡ true → is_some o ≡ true
eq-some none n h = cc
eq-some (some m) n h = refl

decided-IsExport :
    (lease : LeaseToken) (exported_at : ℕ) (db : ExportDb) (j : Job) (a : Attempt) (f : AttemptFile)
    (revoked : List ℕ)
    → j.state ≡ verifying
    → IsJob j
    → HoldsSlot db.slots j
    → IsExport db
    → Ensures (λ r. IsExport r.0) (decide lease exported_at db j a f revoked)
unfolding decide
decided-IsExport lease exported_at db j a f [] e good holds h =
    Ensures-then IsExport (λ (r : ExportDb × Option LeaseToken). IsExport r.0)
      (complete_locked j a f exported_at db) _
      (complete_locked-IsExport j a f exported_at db good h) (λ after kept. returns kept)
decided-IsExport lease exported_at db j a f (r ∷ rs) e good holds h =
    rotate_locked-IsExport j a f (r ∷ rs) lease db e good holds h

-- `_final_fence` of a job that is verified.
pub final_fence-IsExport :
    (lease : LeaseToken) (held : Option LeaseToken) (attempt file exported_at : ℕ)
    (pins : List LivePin) (db : ExportDb)
    → ((j : Job) → lock_current_lease lease db ≡ done j → j.state ≡ verifying)
    → IsExport db
    → Ensures (λ r. IsExport r.0) (final_fence lease held attempt file exported_at pins db)
unfolding final_fence final_decision
final_fence-IsExport lease held attempt file exported_at pins db verified h =
    Ensures-refuse_if (not (same_token held (some lease))) lease_lost _ λ _.
      Ensures-bind (lock_current_lease lease db) _ λ j l.
        Ensures-bind (get_attempt attempt db) _ λ a _. Ensures-bind (get_file file db) _ λ f _.
          let (good, holds, t) = locked-job lease db h l in
          if_elim (Ensures (λ (r : ExportDb × Option LeaseToken). IsExport r.0))
            (is_ownerless db j.owner_id)
            (record_owner_deleted j a f db >>= λ after. done (after, none)) _
            (Ensures-then IsExport (λ (r : ExportDb × Option LeaseToken). IsExport r.0)
              (record_owner_deleted j a f db) _ (record_owner_deleted-IsExport j a f db good h)
              (λ after kept. returns kept))
            (decided-IsExport lease exported_at db j a f (revoked_item_ids j true db.items pins)
              (verified j l) good holds h)

-- A job with a lease and no snapshot is taking one.
led-snapshotting :
    (s : JobState) (lease snapshot : Option ℕ)
    → is_some lease ≡ true
    → is_some snapshot ≡ false
    → led_ok s lease snapshot ≡ true
    → s ≡ snapshotting
unfolding led_ok
led-snapshotting snapshotting lease snapshot l n h = refl
led-snapshotting queued (some u) none l n h = cc
led-snapshotting archiving (some u) none l n h = cc
led-snapshotting verifying (some u) none l n h = cc
led-snapshotting complete (some u) none l n h = cc
led-snapshotting failed (some u) none l n h = cc
led-snapshotting expired (some u) none l n h = cc
led-snapshotting s none snapshot l n h = cc
led-snapshotting s lease (some g) l n h = cc

pub plan_candidate-IsExport :
    (lease : LeaseToken) (generation : ℕ) (db : ExportDb)
    → IsExport db
    → Ensures (λ r. IsExport r.0) (plan_candidate lease generation db)
unfolding plan_candidate
plan_candidate-IsExport lease generation db h = Ensures-bind (lock_current_lease lease db) _ λ j l.
    let (good, holds, t) = locked-job lease db h l in
    if_cases (Ensures (λ (r : ExportDb × (Option ℕ × Option ℕ)). IsExport r.0))
      (is_some j.snapshot_generation) _
      (refuse_if (is_unplannable db j) (export_error permission_changed) _) (λ _. returns h)
      (λ bare.
        let e =
          led-snapshotting j.state j.lease_uuid j.snapshot_generation
            (eq-some j.lease_uuid lease.job_lease_uuid (ground arith)) bare good.led in
        Ensures-refuse_if (is_unplannable db j) (export_error permission_changed) _ λ _. returns (
          if_elim (λ (r : ExportDb × (Option ℕ × Option ℕ)). IsExport r.0)
            (is_some j.candidate_snapshot_generation) _ _ h
            (kept-IsExport j (planned generation j) db refl refl (rw e refl)
              (planned-IsJob generation j e good) holds h)))

pub finalize-IsExport :
    (lease : LeaseToken) (seen : SnapshotSeen) (generation snapshot_at included excluded bytes : ℕ)
    (db : ExportDb)
    → IsExport db
    → Ensures IsExport (finalize lease seen generation snapshot_at included excluded bytes db)
unfolding finalize
finalize-IsExport lease seen generation snapshot_at included excluded bytes db h =
    Ensures-bind (lock_current_lease lease db) _ λ j l.
      Ensures-refuse_if (not (opt_eq j.candidate_snapshot_generation (some generation))) lease_lost
        _
        λ checked.
          let (good, holds, t) = locked-job lease db h l in
          let e =
            candidate-snapshotting j.state j.candidate_snapshot_generation j.lease_uuid
              (eq-some j.candidate_snapshot_generation generation (ground arith))
              (eq-some j.lease_uuid lease.job_lease_uuid (ground arith)) good.candidate in
          Ensures-refuse_if (not seen.directory_kept) (export_error export_storage_unsafe) _ λ _.
            Ensures-refuse_if (not seen.blobs_closed) (export_error snapshot_failed) _ λ _.
              Ensures-refuse_if (not seen.items_counted) lease_lost _ λ _.
                Ensures-refuse_if (ltb j.requested_total included) integrity_error _ λ fits.
                  returns (
                    kept-IsExport j (finalized generation snapshot_at included excluded bytes j) db
                      refl refl (rw e refl)
                      (finalized-IsJob generation snapshot_at included excluded bytes j e
                        (ground arith) good)
                      holds h)
