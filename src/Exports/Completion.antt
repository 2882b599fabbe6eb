-- ===== src/Exports/Completion.antt =====
-- The last decision on an archive, of exports/services/archive.py (`_final_fence`).
use svrx_pinry.Prelude.{
  ℕ, Bool, true, not, ◌&&◌, ◌+◌, Option, none, some, List, [], ◌∷◌, ◌==◌, opt_eq, contains, update,
  Result, done, refuse_if, ◌>>=◌, if◌then◌else◌,
}
use svrx_pinry.Exports.Contracts.{
  verifying, complete, failed, same_state, permission_changed, error_contract, LeaseToken,
  ExportFault, lease_lost, same_token,
}
use svrx_pinry.Exports.Tables.{
  Job, Verifying, OpenFileReceipt, ReadyReceipt, ready_retained, pending, Attempt,
  attempt_published, attempt_retiring, AttemptFile, file_published, file_retiring, FullReceipt,
  ExportDb, save_job,
}
use svrx_pinry.Exports.Queries.{lock_current_lease}
use svrx_pinry.Exports.Failures.{clear_slots}
use svrx_pinry.Exports.Attempts.{save_attempt, save_file, get_attempt, get_file, receipt_size}
use svrx_pinry.Exports.Maintenance.{expire_job}
use svrx_pinry.Exports.Permissions.{LivePin, revoked_item_ids}
use svrx_pinry.Exports.Publication.{
  apply_revocations, rotated_job, rotated_token, is_verifying, is_candidate,
}

abbrev pub verifying_size : Option Verifying → Option ℕ
verifying_size none = none
verifying_size (some v) = some v.size

abbrev pub verifying_sha256 : Option Verifying → Option ℕ
verifying_sha256 none = none
verifying_sha256 (some v) = some v.sha256

-- The columns `ready_*` from those of the file, which may be NULL until it is verified.
unfoldable pub ready_from : OpenFileReceipt → Option FullReceipt → Option ℕ → Option ReadyReceipt
ready_from opened (some full) (some sha256) = some (record {
  size = full.size;
  sha256 = sha256;
  file = opened;
  mtime_ns = full.mtime_ns;
  ctime_ns = full.ctime_ns;
})
ready_from opened full sha256 = none

-- The first check of `_complete_locked`.
abbrev pub is_complete_ready : Job → Attempt → AttemptFile → ℕ → Bool
is_complete_ready j a f exported_at =
    same_state j.state verifying
    && (is_verifying a.state
        && (is_candidate f.state
            && (opt_eq (receipt_size f) (verifying_size j.verifying_receipt)
                && (opt_eq f.receipt_sha256 (verifying_sha256 j.verifying_receipt)
                    && opt_eq a.exported_at (some exported_at)))))

-- The columns that the completion writes; the file is kept for 24 hours.
unfoldable pub completed_job : AttemptFile → ℕ → Job → Job
unfolding ready_from
completed_job f exported_at j = record j {
  state = complete;
  completed_at = some exported_at;
  expires_at = some (exported_at + 86400);
  ready_cleanup_state = ready_retained;
  ready = ready_from f.opened f.full f.receipt_sha256;
  archive_done = j.archive_total;
  bytes_done = j.bytes_total;
}

-- `_expire_previous_complete_locked`.
unfoldable pub expire_previous : Job → ExportDb → ExportDb
expire_previous j db = record db {
  jobs =
      update
        (λ k. opt_eq k.owner_id j.owner_id && (same_state k.state complete && not (k.pk == j.pk)))
        expire_job db.jobs;
}

-- `_complete_locked`.
unfoldable pub complete_locked :
    Job → Attempt → AttemptFile → ℕ → ExportDb → Result ExportFault ExportDb
unfolding refuse_if save_job save_attempt save_file clear_slots completed_job expire_previous
complete_locked j a f exported_at db =
    refuse_if (not (is_complete_ready j a f exported_at)) lease_lost (
      done (
        clear_slots j.pk (
          save_attempt (record a { state = attempt_published })
            (save_file (record f { state = file_published })
              (expire_previous j (save_job (completed_job f exported_at j) db))))))

-- The columns that the failure of an ownerless job writes.
abbrev pub ownerless_failure : Job → Job
ownerless_failure j = record j {
  state = failed;
  error_code = some permission_changed;
  error_class = some (error_contract permission_changed).0;
  error_retryable = some (error_contract permission_changed).1;
  staging_cleanup_state = pending;
  lease_uuid = none;
  lease_expires_at = none;
}

-- The check of `_record_owner_deleted_locked`.
abbrev pub is_decidable : Job → Attempt → AttemptFile → Bool
is_decidable j a f = same_state j.state verifying && (is_verifying a.state && is_candidate f.state)

-- `_record_owner_deleted_locked`.
unfoldable pub record_owner_deleted :
    Job → Attempt → AttemptFile → ExportDb → Result ExportFault ExportDb
unfolding refuse_if save_job save_attempt save_file clear_slots
record_owner_deleted j a f db = refuse_if (not (is_decidable j a f)) lease_lost (
    done (
      clear_slots j.pk (
        save_attempt (record a { state = attempt_retiring })
          (save_file (record f { state = file_retiring }) (save_job (ownerless_failure j) db)))))

-- `_rotate_locked`: no rotation where the revocations change nothing.
unfoldable pub rotate_locked :
    Job
    → Attempt
    → AttemptFile
    → List ℕ
    → LeaseToken
    → ExportDb
    → Result ExportFault (ExportDb × Option LeaseToken)
unfolding apply_revocations save_job save_attempt save_file
rotate_locked j a f revoked lease db = apply_revocations j revoked db >>= λ r. done (
    if r.1.changed == 0 then (record db { items = r.1.items }, none) else (
      record (save_job (rotated_job r.0) (
          save_file (record f { state = file_retiring })
            (save_attempt (record a { state = attempt_retiring }) db))) { items = r.1.items },
      some (rotated_token lease j),
    ))

-- The owner is there no longer.
abbrev pub is_ownerless : ExportDb → Option ℕ → Bool
is_ownerless db none = true
is_ownerless db (some u) = not (contains u db.users)

-- The archive is published if no item is revoked, and made again if one is.
unfoldable pub decide :
    LeaseToken
    → ℕ
    → ExportDb
    → Job
    → Attempt
    → AttemptFile
    → List ℕ
    → Result ExportFault (ExportDb × Option LeaseToken)
unfolding rotate_locked complete_locked
decide lease exported_at db j a f [] =
    complete_locked j a f exported_at db >>= λ after. done (after, none)
decide lease exported_at db j a f (r ∷ rs) = rotate_locked j a f (r ∷ rs) lease db

unfoldable pub final_decision :
    LeaseToken
    → ℕ
    → List LivePin
    → ExportDb
    → Job
    → Attempt
    → AttemptFile
    → Result ExportFault (ExportDb × Option LeaseToken)
unfolding record_owner_deleted revoked_item_ids decide
final_decision lease exported_at pins db j a f =
    if is_ownerless db j.owner_id
    then (record_owner_deleted j a f db >>= λ after. done (after, none))
    else decide lease exported_at db j a f (revoked_item_ids j true db.items pins)

-- `_final_fence`, on what the heartbeat holds; it holds the rotated lease afterwards, if there is one.
unfoldable pub final_fence :
    LeaseToken
    → Option LeaseToken
    → ℕ
    → ℕ
    → ℕ
    → List LivePin
    → ExportDb
    → Result ExportFault (ExportDb × Option LeaseToken)
unfolding refuse_if lock_current_lease get_attempt get_file final_decision
final_fence lease held attempt file exported_at pins db =
    refuse_if (not (same_token held (some lease))) lease_lost (
      lock_current_lease lease db >>= λ j. get_attempt attempt db >>= λ a.
      get_file file db >>= λ f. final_decision lease exported_at pins db j a f)
