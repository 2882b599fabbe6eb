-- ===== src/Exports/Snapshots.antt =====
-- The plan and the commit of a snapshot, of exports/services/snapshot.py.
use svrx_pinry.Prelude.{
  ℕ, Bool, not, ◌&&◌, ◌||◌, ◌+◌, ◌-◌, Option, none, some, ◌==◌, opt_eq, is_none, is_some, any,
  Result, done, refuse_if, ◌>>=◌, if◌then◌else◌, ltb,
}
use svrx_pinry.Exports.Contracts.{
  archiving, permission_changed, snapshot_failed, export_storage_unsafe, LeaseToken, ExportFault,
  lease_lost, export_error, integrity_error,
}
use svrx_pinry.Exports.Tables.{Job, pending, ExportDb, save_job}
use svrx_pinry.Exports.Queries.{lock_current_lease}

-- The columns that `_plan_candidate` writes.
abbrev pub planned : ℕ → Job → Job
planned generation j = record j {
  candidate_snapshot_generation = some generation;
  staging_cleanup_state = pending;
}

-- The owner or the identity of a target is not there.
abbrev pub is_unplannable : ExportDb → Job → Bool
is_unplannable db j =
    is_none j.owner_id
    || any
        (λ t.
          t.job == j.pk && (is_none t.pin_owner_id_snapshot || is_none t.pin_published_at_snapshot))
        db.targets

-- `_plan_candidate`: the generation of the snapshot that is there, or of the candidate.
unfoldable pub plan_candidate :
    LeaseToken → ℕ → ExportDb → Result ExportFault (ExportDb × (Option ℕ × Option ℕ))
unfolding refuse_if lock_current_lease save_job
plan_candidate lease generation db = lock_current_lease lease db >>= λ j.
    if is_some j.snapshot_generation
    then done (db, (j.snapshot_generation, none))
    else refuse_if (is_unplannable db j) (export_error permission_changed) (
        done (
          if is_some j.candidate_snapshot_generation
          then (db, (none, j.candidate_snapshot_generation))
          else (save_job (planned generation j) db, (some generation, some generation))))

-- The columns that the commit of `_finalize` writes.
abbrev pub finalized : ℕ → ℕ → ℕ → ℕ → ℕ → Job → Job
finalized generation snapshot_at included excluded bytes j = record j {
  snapshot_generation = some generation;
  candidate_snapshot_generation = none;
  snapshot_at = some snapshot_at;
  snapshot_done = j.target_total;
  archive_total = included;
  bytes_total = bytes;
  included_total = included;
  excluded_total = j.requested_total - included;
  excluded_permission_revoked_total = j.excluded_permission_revoked_total + excluded;
  state = archiving;
}

-- What `_finalize` finds of the snapshot's path, directory, blobs and items.
pub record SnapshotSeen : Type 0 where
  pub directory_kept : Bool
  pub blobs_closed : Bool
  pub items_counted : Bool

-- The commit of `_finalize`, on what it finds under its lease. The column `excluded_total` takes no
-- number below zero.
unfoldable pub finalize :
    LeaseToken → SnapshotSeen → ℕ → ℕ → ℕ → ℕ → ℕ → ExportDb → Result ExportFault ExportDb
unfolding refuse_if lock_current_lease save_job
finalize lease seen generation snapshot_at included excluded bytes db =
    lock_current_lease lease db >>= λ j.
    refuse_if (not (opt_eq j.candidate_snapshot_generation (some generation))) lease_lost (
      refuse_if (not seen.directory_kept) (export_error export_storage_unsafe) (
        refuse_if (not seen.blobs_closed) (export_error snapshot_failed) (
          refuse_if (not seen.items_counted) lease_lost (
            refuse_if (ltb j.requested_total included) integrity_error
              (done (save_job (finalized generation snapshot_at included excluded bytes j) db))))))
