-- ===== src/Exports/Concluded.antt =====
-- The end of a job and what the snapshot writes keep the invariant of the tables
-- (exports/services/archive.py, snapshot.py, worker.py).
use svrx_pinry.Prelude.{
  ℕ, ◌≡◌, refl, sym, ap, ◌∙◌, subst, Bool, true, false, not, ◌&&◌, Option, List, [], ◌∷◌, map, ◌==◌,
  opt_eq, if_cases, if_elim, All, All-always, All-write, contains, update, select, arith, Ensures,
  returns, Ensures-refuse_if, Ensures-bind, Ensures-then,
}
use svrx_pinry.Order.Positions.{Distinct}
use svrx_pinry.Exports.Contracts.{
  verifying, complete, same_state, is_active, WorkerLeaseToken, LeaseToken, lease_lost,
}
use svrx_pinry.Exports.Tables.{
  Job, Attempt, attempt_published, attempt_retiring, AttemptFile, file_published, file_retiring,
  ExportDb, save_job,
}
use svrx_pinry.Exports.Queries.{lock_current_worker_lease, by_age}
use svrx_pinry.Exports.Attempts.{save_attempt, save_file}
use svrx_pinry.Exports.Maintenance.{expire_job, is_due, first_of, sort_in, expire_complete_jobs}
use svrx_pinry.Exports.Publication.{Excluded, apply_revocations, rotated_job}
use svrx_pinry.Exports.Completion.{
  is_complete_ready, completed_job, expire_previous, complete_locked, ownerless_failure,
  is_decidable, record_owner_deleted, rotate_locked,
}
use svrx_pinry.Exports.Invariant.{IsJob, HoldsSlot, IsExport}
use svrx_pinry.Exports.Saves.{save_job-IsExport, clear_slots-IsExport}
use svrx_pinry.Exports.Phases.{same_state-eq}
use svrx_pinry.Exports.Claimed.{kept-IsExport}
use svrx_pinry.Exports.Rounds.{expire_job-IsJob}
use svrx_pinry.Exports.Packed.{rotated_job-IsJob, completed_job-IsJob}
use svrx_pinry.Exports.Published.{ownerless_failure-IsJob}
use svrx_pinry.Exports.Attempted.{other-IsExport, apply_revocations-IsJob}

expired-pks :
    (test : Job → Bool) (js : List Job)
    → map (λ j. j.pk) (update test expire_job js) ≡ map (λ j. j.pk) js
expired-pks test [] = refl
expired-pks test (j ∷ js) =
    if_elim
      (λ (x : Job). x.pk ∷ map (λ k. k.pk) (update test expire_job js) ≡ j.pk ∷ map (λ k. k.pk) js)
      (test j) _ _ (ap (λ (l : List ℕ). j.pk ∷ l) (expired-pks test js))
      (ap (λ (l : List ℕ). j.pk ∷ l) (expired-pks test js))

-- Complete jobs that expire.
pub expire-IsExport :
    (test : Job → Bool) (db : ExportDb)
    → ((j : Job) → test j ≡ true → j.state ≡ complete)
    → IsExport db
    → IsExport (record db { jobs = update test expire_job db.jobs })
expire-IsExport test db ends h = record {
  rows =
      All-write IsJob IsJob test expire_job db.jobs
        (λ j g. if_cases IsJob (test j) _ _ (λ e. expire_job-IsJob j (ends j e) g) (λ _. g)) h.rows;
  slots =
      All-write (HoldsSlot db.slots) (HoldsSlot db.slots) test expire_job db.jobs
        (λ j g. if_elim (HoldsSlot db.slots) (test j) _ _ (λ a. cc) g) h.slots;
  distinct = subst Distinct (sym (expired-pks test db.jobs)) h.distinct;
  owners = h.owners;
}

pub expire_complete_jobs-IsExport :
    (worker : WorkerLeaseToken) (now : ℕ) (db : ExportDb)
    → IsExport db
    → Ensures IsExport (expire_complete_jobs worker now db)
unfolding expire_complete_jobs is_due
expire_complete_jobs-IsExport worker now db h =
    Ensures-bind (lock_current_worker_lease worker db) _ λ _ _. returns (
      expire-IsExport
        (λ j.
          is_due now j
          && contains j.pk
              (map (λ j. j.pk) (first_of 100 (sort_in by_age (select (is_due now) db.jobs)))))
        db (λ j e. same_state-eq j.state complete (ground arith)) h)

-- No active job has the key of one that has ended.
abbrev IsEnded : ℕ → Job → Type 0
IsEnded pk k = (k.pk == pk) ≡ true → is_active k.state ≡ false

saved-IsEnded :
    (job : Job) (js : List Job)
    → is_active job.state ≡ false
    → All (IsEnded job.pk) (update (λ k. k.pk == job.pk) (λ _. job) js)
saved-IsEnded job js a =
    All-write (λ (k : Job). k.pk ≡ k.pk) (IsEnded job.pk) (λ k. k.pk == job.pk) (λ _. job) js
      (λ k _. if_cases (IsEnded job.pk) (k.pk == job.pk) _ _ (λ _ _. a) (λ e t. cc))
      (All-always (λ (k : Job). k.pk ≡ k.pk) js λ _. refl)

pub complete_locked-IsExport :
    (j : Job) (a : Attempt) (f : AttemptFile) (exported_at : ℕ) (db : ExportDb)
    → IsJob j
    → IsExport db
    → Ensures IsExport (complete_locked j a f exported_at db)
unfolding complete_locked save_job save_attempt save_file expire_previous completed_job
complete_locked-IsExport j a f exported_at db good h =
    Ensures-refuse_if (not (is_complete_ready j a f exported_at)) lease_lost _ λ checked.
      let e = same_state-eq j.state verifying (ground arith) in
      let job = completed_job f exported_at j in
      let saved = save_job job db in
      let kept =
        save_job-IsExport job db
          (completed_job-IsJob f exported_at j e (ground arith) (ground arith) good) (λ x. cc) h in
      let test = λ (k : Job).
        opt_eq k.owner_id j.owner_id && (same_state k.state complete && not (k.pk == j.pk)) in
      let expired =
        expire-IsExport test saved (λ k t. same_state-eq k.state complete (ground arith)) kept in
      let after =
        save_attempt (record a { state = attempt_published })
          (save_file (record f { state = file_published }) (expire_previous j saved)) in
      returns (
        clear_slots-IsExport j.pk after
          (All-write (IsEnded j.pk) (IsEnded j.pk) test expire_job saved.jobs
            (λ k g. if_elim (IsEnded j.pk) (test k) _ _ (λ _. refl) g)
            (saved-IsEnded job db.jobs refl))
          (other-IsExport (expire_previous j saved) after refl refl expired))

pub record_owner_deleted-IsExport :
    (j : Job) (a : Attempt) (f : AttemptFile) (db : ExportDb)
    → IsJob j
    → IsExport db
    → Ensures IsExport (record_owner_deleted j a f db)
unfolding record_owner_deleted save_job save_attempt save_file
record_owner_deleted-IsExport j a f db good h =
    Ensures-refuse_if (not (is_decidable j a f)) lease_lost _ λ checked.
      let e = same_state-eq j.state verifying (ground arith) in
      let saved = save_job (ownerless_failure j) db in
      let after =
        save_attempt (record a { state = attempt_retiring })
          (save_file (record f { state = file_retiring }) saved) in
      returns (
        clear_slots-IsExport j.pk after (saved-IsEnded (ownerless_failure j) db.jobs refl) (
          other-IsExport saved after refl refl (
            save_job-IsExport (ownerless_failure j) db (ownerless_failure-IsJob j e good) (λ x. cc)
              h)))

pub rotate_locked-IsExport :
    (j : Job) (a : Attempt) (f : AttemptFile) (revoked : List ℕ) (lease : LeaseToken)
    (db : ExportDb)
    → j.state ≡ verifying
    → IsJob j
    → HoldsSlot db.slots j
    → IsExport db
    → Ensures (λ r. IsExport r.0) (rotate_locked j a f revoked lease db)
unfolding rotate_locked save_job save_attempt save_file
rotate_locked-IsExport j a f revoked lease db e good holds h =
    Ensures-then
      (λ (r : Job × Excluded).
        IsJob r.0 × (r.0.pk ≡ j.pk) × (r.0.owner_id ≡ j.owner_id) × (r.0.state ≡ j.state))
      (λ (r : ExportDb × Option LeaseToken). IsExport r.0) (apply_revocations j revoked db) _
      (apply_revocations-IsJob j revoked db good)
      λ r (good', pk, owner, state).
        let base =
          save_file (record f { state = file_retiring })
            (save_attempt (record a { state = attempt_retiring }) db) in
        returns (
          if_elim (λ (x : ExportDb × Option LeaseToken). IsExport x.0) (r.1.changed == 0) _ _
            (other-IsExport db (record db { items = r.1.items }) refl refl h)
            (other-IsExport (save_job (rotated_job r.0) base) _ refl refl (
              kept-IsExport j (rotated_job r.0) base pk owner (rw e refl)
                (rotated_job-IsJob r.0 (state ∙ e) good') holds
                (other-IsExport db base refl refl h))))
