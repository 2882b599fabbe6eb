-- ===== src/Exports/Attempted.antt =====
-- The attempts, the revocations and the publication of an archive keep the invariant of the tables
-- (exports/services/attempts.py, archive.py and snapshot.py).
use svrx_pinry.Prelude.{
  ℕ, ◌≡◌, refl, sym, subst, true, not, ◌&&◌, ◌||◌, Option, none, some, List, map, ◌==◌, is_none,
  if_elim, All, find, length, arith, Ensures, returns, Ensures-refuse_if, Ensures-bind,
  Ensures-then, ltb,
}
use svrx_pinry.Order.Positions.{Distinct}
use svrx_pinry.Exports.Contracts.{
  JobState, archiving, same_state, is_active, LeaseToken, lease_lost, export_error,
  export_storage_unsafe, integrity_error,
}
use svrx_pinry.Exports.Tables.{
  Job, Slot, DirectoryReceipt, OpenFileReceipt, FullReceipt, Attempt, attempt_verifying,
  AttemptFile, file_verifying, same_receipt, ExportDb, save_job,
}
use svrx_pinry.Exports.Queries.{lock_current_lease}
use svrx_pinry.Exports.Failures.{is_archive}
use svrx_pinry.Exports.Attempts.{
  save_attempt, save_file, get_attempt, get_file, is_writing, directory_row,
  record_directory_receipt, file_row, record_open_file_receipt, ensure_exported_at, is_closing,
  has_directory, is_verifiable, record_closed_file_receipt, verifying_by, record_verifying,
}
use svrx_pinry.Exports.Chunks.{query_chunk_size, slices}
use svrx_pinry.Exports.Publication.{
  progressed, record_progress, Excluded, exclude_chunks, is_countable, apply_revocations,
  apply_revocation_batch,
}
use svrx_pinry.Exports.Invariant.{IsJob, HoldsSlot, IsExport}
use svrx_pinry.Exports.Saves.{same-HoldsSlot, save_job-IsExport}
use svrx_pinry.Exports.Phases.{same_state-eq}
use svrx_pinry.Exports.Claimed.{kept-IsExport}
use svrx_pinry.Exports.Packed.{verifying_by-IsJob, without-IsJob}
use svrx_pinry.Exports.Published.{progressed-IsJob}
use svrx_pinry.Exports.Returned.{locked-job}

-- The tables of jobs and slots are the same.
pub other-IsExport :
    (db after : ExportDb)
    → after.jobs ≡ db.jobs
    → after.slots ≡ db.slots
    → IsExport db
    → IsExport after
other-IsExport db after j s h = record {
  rows = subst (All IsJob) (sym j) h.rows;
  slots =
      subst (λ js. All (HoldsSlot after.slots) js) (sym j)
        (subst (λ l. All (HoldsSlot l) db.jobs) (sym s) h.slots);
  distinct = subst (λ (js : List Job). Distinct (map (λ j. j.pk) js)) (sym j) h.distinct;
  owners = subst (λ (l : List Slot). Distinct (map (λ x. x.owner) l)) (sym s) h.owners;
}

directory_row-IsExport :
    (new_pk : ℕ) (lease : LeaseToken) (receipt : DirectoryReceipt) (db : ExportDb)
    (found : Option Attempt)
    → IsExport db
    → Ensures (λ r. IsExport r.0) (directory_row new_pk lease receipt db found)
unfolding directory_row
directory_row-IsExport new_pk lease receipt db none h = returns (other-IsExport db _ refl refl h)
directory_row-IsExport new_pk lease receipt db (some a) h =
    Ensures-refuse_if (not (has_directory receipt a.directory && is_writing a.state)) lease_lost _
      λ _. returns h

pub record_directory_receipt-IsExport :
    (lease : LeaseToken) (new_pk : ℕ) (receipt : DirectoryReceipt) (db : ExportDb)
    → IsExport db
    → Ensures (λ r. IsExport r.0) (record_directory_receipt lease new_pk receipt db)
unfolding record_directory_receipt
record_directory_receipt-IsExport lease new_pk receipt db h =
    Ensures-bind (lock_current_lease lease db) _ λ j _.
      Ensures-refuse_if (not (same_state j.state archiving)) lease_lost _ λ _.
        directory_row-IsExport new_pk lease receipt db
          (find (λ a. a.job == j.pk && a.attempt_generation == lease.attempt_generation)
            db.attempts)
          h

file_row-IsExport :
    (new_pk : ℕ) (a : Attempt) (receipt : OpenFileReceipt) (db : ExportDb)
    (found : Option AttemptFile)
    → IsExport db
    → Ensures (λ r. IsExport r.0) (file_row new_pk a receipt db found)
unfolding file_row
file_row-IsExport new_pk a receipt db none h = returns (other-IsExport db _ refl refl h)
file_row-IsExport new_pk a receipt db (some f) h =
    Ensures-refuse_if (not (same_receipt f.opened receipt)) lease_lost _ λ _. returns h

pub record_open_file_receipt-IsExport :
    (lease : LeaseToken) (attempt new_pk : ℕ) (receipt : OpenFileReceipt) (db : ExportDb)
    → IsExport db
    → Ensures (λ r. IsExport r.0) (record_open_file_receipt lease attempt new_pk receipt db)
unfolding record_open_file_receipt
record_open_file_receipt-IsExport lease attempt new_pk receipt db h =
    Ensures-bind (lock_current_lease lease db) _ λ _ _.
      Ensures-bind (get_attempt attempt db) _ λ a _.
        Ensures-refuse_if
          (not (a.attempt_generation == lease.attempt_generation) || not (is_writing a.state))
          lease_lost _
          λ _.
            file_row-IsExport new_pk a receipt db
              (find (λ f. f.attempt == a.pk && is_archive f.kind) db.files) h

pub ensure_exported_at-IsExport :
    (lease : LeaseToken) (attempt value : ℕ) (db : ExportDb)
    → IsExport db
    → Ensures (λ r. IsExport r.0) (ensure_exported_at lease attempt value db)
unfolding ensure_exported_at save_attempt
ensure_exported_at-IsExport lease attempt value db h =
    Ensures-bind (lock_current_lease lease db) _ λ _ _.
      Ensures-bind (get_attempt attempt db) _ λ a _.
        Ensures-refuse_if (not (is_writing a.state)) lease_lost _ λ _. returns (
          if_elim (λ (r : ExportDb × Option ℕ). IsExport r.0) (is_none a.exported_at) _ _
            (other-IsExport db _ refl refl h) h)

pub record_closed_file_receipt-IsExport :
    (lease : LeaseToken) (attempt file : ℕ) (opened : OpenFileReceipt) (full : FullReceipt)
    (sha256 : Option ℕ) (db : ExportDb)
    → IsExport db
    → Ensures IsExport (record_closed_file_receipt lease attempt file opened full sha256 db)
unfolding record_closed_file_receipt save_attempt save_file
record_closed_file_receipt-IsExport lease attempt file opened full sha256 db h =
    Ensures-bind (lock_current_lease lease db) _ λ _ _.
      Ensures-bind (get_attempt attempt db) _ λ a _. Ensures-bind (get_file file db) _ λ f _.
        Ensures-refuse_if (not (is_closing opened a f)) lease_lost _
          λ _. returns (other-IsExport db _ refl refl h)

pub record_verifying-IsExport :
    (lease : LeaseToken) (attempt file size sha256 exported_at : ℕ) (db : ExportDb)
    → IsExport db
    → Ensures IsExport (record_verifying lease attempt file size sha256 exported_at db)
unfolding record_verifying save_attempt save_file
record_verifying-IsExport lease attempt file size sha256 exported_at db h =
    Ensures-bind (lock_current_lease lease db) _ λ j l.
      Ensures-bind (get_attempt attempt db) _ λ a _. Ensures-bind (get_file file db) _ λ f _.
        Ensures-refuse_if (not (is_verifiable size exported_at j a f)) lease_lost _ λ checked.
          let (good, holds, t) = locked-job lease db h l in
          let e = same_state-eq j.state archiving (ground arith) in
          let after =
            save_attempt (record a { state = attempt_verifying })
              (save_file (record f { state = file_verifying; receipt_sha256 = some sha256 }) db) in
          returns (
            kept-IsExport j (verifying_by lease size sha256 exported_at j) after refl refl
              (rw e refl) (verifying_by-IsJob lease size sha256 exported_at j e good) holds
              (other-IsExport db after refl refl h))

pub record_progress-IsExport :
    (lease : LeaseToken) (written bytes now : ℕ) (db : ExportDb)
    → IsExport db
    → Ensures IsExport (record_progress lease written bytes now db)
unfolding record_progress
record_progress-IsExport lease written bytes now db h =
    Ensures-bind (lock_current_lease lease db) _ λ j l.
      Ensures-refuse_if (not (same_state j.state archiving)) lease_lost _ λ checked.
        let (good, holds, t) = locked-job lease db h l in
        let e = same_state-eq j.state archiving (ground arith) in
        Ensures-refuse_if (ltb j.archive_total written || ltb j.bytes_total bytes) integrity_error _
          λ fits. returns (
            kept-IsExport j (progressed written bytes now j) db refl refl (rw e refl)
              (progressed-IsJob written bytes now j e (ground arith) (ground arith) good) holds h)

-- The revocations leave a job like the one they start from.
pub apply_revocations-IsJob :
    (j : Job) (revoked : List ℕ) (db : ExportDb)
    → IsJob j
    → Ensures
        (λ r. IsJob r.0 × (r.0.pk ≡ j.pk) × (r.0.owner_id ≡ j.owner_id) × (r.0.state ≡ j.state))
        (apply_revocations j revoked db)
unfolding apply_revocations
apply_revocations-IsJob j revoked db good =
    Ensures-bind
      (exclude_chunks j.pk (slices (length revoked) query_chunk_size revoked)
        (record { items = db.items; changed = 0; removed_bytes = 0 }))
      _
      λ e _.
        Ensures-refuse_if (not (is_countable j e)) (export_error export_storage_unsafe) _
          λ checked. returns (without-IsJob e j (ground arith) good, refl, refl, refl)

pub apply_revocation_batch-IsExport :
    (lease : LeaseToken) (ids : List ℕ) (expected : JobState) (db : ExportDb)
    → IsExport db
    → Ensures IsExport (apply_revocation_batch lease ids expected db)
unfolding apply_revocation_batch
apply_revocation_batch-IsExport lease ids expected db h =
    Ensures-bind (lock_current_lease lease db) _ λ j l.
      Ensures-refuse_if (not (same_state j.state expected)) lease_lost _ λ _.
        let (good, holds, t) = locked-job lease db h l in
        Ensures-then
          (λ (r : Job × Excluded).
            IsJob r.0 × (r.0.pk ≡ j.pk) × (r.0.owner_id ≡ j.owner_id) × (r.0.state ≡ j.state))
          IsExport (apply_revocations j ids db) _ (apply_revocations-IsJob j ids db good)
          λ r (good', pk, owner, state). returns (
            other-IsExport (save_job r.0 db) _ refl refl (
              save_job-IsExport r.0 db good'
                (same-HoldsSlot db.slots j r.0 pk owner
                  (λ a. subst (λ s. is_active s ≡ true) state a) holds)
                h))
