-- ===== src/Exports/Requeued.antt =====
-- The way back to the queue of exports/services/worker.py keeps the invariant of the tables.
use svrx_pinry.Prelude.{
  ℕ, ◌≡◌, refl, inl, inr, true, false, ◌&&◌, Option, none, some, ◌==◌, is_none, if_cases, if_elim,
  Option-cases, find, select, arith, done, Ensures, returns, Ensures-bind, Ensures-then,
}
use svrx_pinry.Exports.Contracts.{
  ErrorCode, is_job_code, permission_changed, worker_repeated_failure, WorkerLeaseToken,
}
use svrx_pinry.Exports.Tables.{Job, ExportDb, save_job}
use svrx_pinry.Exports.Queries.{first_in, by_state, lock_current_worker_lease}
use svrx_pinry.Exports.Failures.{fail_locked}
use svrx_pinry.Exports.Recovery.{is_working, is_repeated, reset_recovered_progress}
use svrx_pinry.Exports.Requeue.{
  is_requeueable, RequeueOutcome, Totals, totals_before, next_attempt, queued_by, is_expected,
  terminalize_requeue, requeue_job, requeue_current, requeue_candidate,
  requeue_expired_nonverifying_jobs,
}
use svrx_pinry.Exports.Invariant.{IsExport}
use svrx_pinry.Exports.Saves.{found-job}
use svrx_pinry.Exports.Phases.{is_working-active}
use svrx_pinry.Exports.Failed.{IsActive, found-IsActive, fail_locked-IsExport}
use svrx_pinry.Exports.Claimed.{kept-IsExport}
use svrx_pinry.Exports.Rounds.{queued_by-IsJob}

terminalize_requeue-IsExport :
    (pk : ℕ) (code : ErrorCode) (worker : WorkerLeaseToken) (now : ℕ) (db : ExportDb)
    → is_job_code code ≡ true
    → IsActive db pk
    → IsExport db
    → Ensures (λ r. IsExport r.db) (terminalize_requeue pk code worker now db)
unfolding terminalize_requeue
terminalize_requeue-IsExport pk code worker now db c live h =
    Ensures-then IsExport (λ (r : RequeueOutcome). IsExport r.db)
      (fail_locked pk code worker none now db) _
      (fail_locked-IsExport pk code worker none now db live h) (λ after kept. returns kept)

pub next_attempt-pk : (totals : Totals) (j : Job) → (next_attempt totals j).pk ≡ j.pk
unfolding next_attempt reset_recovered_progress
next_attempt-pk none j = refl
next_attempt-pk (some (t, items)) j = refl

pub next_attempt-owner : (totals : Totals) (j : Job) → (next_attempt totals j).owner_id ≡ j.owner_id
unfolding next_attempt reset_recovered_progress
next_attempt-owner none j = refl
next_attempt-owner (some (t, items)) j = refl

requeue_job-IsExport :
    (worker : WorkerLeaseToken) (now : ℕ) (totals : Totals) (db : ExportDb) (pk : ℕ) {j : Job}
    → IsExport db
    → find (λ j. j.pk == pk && is_requeueable worker db j) db.jobs ≡ some j
    → Ensures (λ r. IsExport r.db) (requeue_job worker now totals db j)
unfolding requeue_job is_requeueable
requeue_job-IsExport worker now totals db pk {j} h f =
    let test = λ (k : Job). k.pk == pk && is_requeueable worker db k in
    let (good, holds, t) = found-job test db h f in
    let w : is_working j.state ≡ true = ground arith in
    let a = is_working-active j.state w in
    let live = found-IsActive test db h f a in
    if_cases (Ensures (λ (r : RequeueOutcome). IsExport r.db)) (is_none j.owner_id)
      (terminalize_requeue j.pk permission_changed worker now db) _
      (λ _. terminalize_requeue-IsExport j.pk permission_changed worker now db refl live h)
      (λ _.
        if_cases (Ensures (λ (r : RequeueOutcome). IsExport r.db)) (is_repeated worker j)
          (terminalize_requeue j.pk worker_repeated_failure worker now db)
          (done (record {
            db = save_job (next_attempt totals (queued_by worker now j)) db;
            requeued_count = 1;
            terminalized = false;
          }))
          (λ _. terminalize_requeue-IsExport j.pk worker_repeated_failure worker now db refl live h)
          (λ r. returns (
            kept-IsExport j (next_attempt totals (queued_by worker now j)) db
              (next_attempt-pk totals (queued_by worker now j))
              (next_attempt-owner totals (queued_by worker now j)) a
              (queued_by-IsJob worker now totals j w a (ground arith) r good) holds h)))

requeue_current-IsExport :
    (worker : WorkerLeaseToken) (now : ℕ) (totals : Totals) (read : ExportDb) (candidate : Job)
    (db : ExportDb)
    → IsExport db
    → Ensures
        (λ r. IsExport r.db)
        (requeue_current worker now totals read candidate db
          (find (λ j. j.pk == candidate.pk && is_requeueable worker db j) db.jobs))
unfolding requeue_current
requeue_current-IsExport worker now totals read candidate db h =
    elim (Option-cases (find (λ j. j.pk == candidate.pk && is_requeueable worker db j) db.jobs)) [
      | inl e ↦ rw e (returns h)
      | inr (j, e) ↦ rw e (
          if_elim (Ensures (λ (r : RequeueOutcome). IsExport r.db))
            (is_expected read candidate db j) _ _
            (requeue_job-IsExport worker now totals db candidate.pk h e) (returns h))
    ]

requeue_candidate-IsExport :
    (worker : WorkerLeaseToken) (now : ℕ) (read db : ExportDb) (candidate : Option Job)
    → IsExport db
    → Ensures (λ r. IsExport r.db) (requeue_candidate worker now read db candidate)
unfolding requeue_candidate
requeue_candidate-IsExport worker now read db none h = returns h
requeue_candidate-IsExport worker now read db (some candidate) h =
    Ensures-bind (totals_before candidate read) _ λ totals _.
      Ensures-bind (lock_current_worker_lease worker db) _
        λ _ _. requeue_current-IsExport worker now totals read candidate db h

pub requeue-IsExport :
    (worker : WorkerLeaseToken) (now : ℕ) (read db : ExportDb)
    → IsExport db
    → Ensures (λ r. IsExport r.db) (requeue_expired_nonverifying_jobs worker now read db)
unfolding requeue_expired_nonverifying_jobs
requeue-IsExport worker now read db h =
    requeue_candidate-IsExport worker now read db
      (first_in by_state (select (is_requeueable worker read) read.jobs)) h
