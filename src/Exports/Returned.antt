-- ===== src/Exports/Returned.antt =====
-- The worker's lease, the handoff and the release of exports/services/worker.py keep the invariant of the tables.
use svrx_pinry.Prelude.{
  ℕ, ◌≡◌, refl, sym, subst, ap, inl, inr, Bool, true, not, ◌&&◌, Option, none, some, List, [], ◌∷◌,
  map, ◌==◌, is_some, if_cases, if_elim, All-write, find, update, count, arith, Result-cases, done,
  done_inj, Ensures, returns, Ensures-refuse_if, Ensures-bind, Ensures-then,
}
use svrx_pinry.Order.Positions.{Distinct}
use svrx_pinry.Exports.Contracts.{
  queued, WorkerLeaseToken, LeaseToken, worker_of, same_token, lease_lost,
}
use svrx_pinry.Exports.Tables.{Job, pending, ExportDb}
use svrx_pinry.Exports.Queries.{get_or, job_fence, lock_current_worker_lease, lock_current_lease}
use svrx_pinry.Exports.Failures.{mark_attempts_retiring, released}
use svrx_pinry.Exports.Worker.{acquire_worker_lease, release_worker_lease, renew_once, renewed}
use svrx_pinry.Exports.Recovery.{is_working}
use svrx_pinry.Exports.Requeue.{Totals, totals_before, next_attempt}
use svrx_pinry.Exports.Handoff.{
  is_ended, lock_ended, or_ended, has_cleanup_work, totals_within, hand_off, is_handed,
  handoff_after_normal_stop, release_found, release_job_lease,
}
use svrx_pinry.Exports.Invariant.{IsJob, HoldsSlot, IsExport}
use svrx_pinry.Exports.Saves.{same-HoldsSlot, save_job-IsExport, found-job}
use svrx_pinry.Exports.Phases.{renewed-IsJob, staged-IsJob, released-IsJob, is_working-active}
use svrx_pinry.Exports.Failed.{get_or-done, released-IsExport}
use svrx_pinry.Exports.Claimed.{kept-IsExport}
use svrx_pinry.Exports.Requeued.{next_attempt-pk, next_attempt-owner}
use svrx_pinry.Exports.Rounds.{handed-IsJob}

-- A job that a fence has found.
pub locked-job :
    (lease : LeaseToken) (db : ExportDb) {j : Job}
    → IsExport db
    → lock_current_lease lease db ≡ done j
    → IsJob j × HoldsSlot db.slots j × (job_fence lease j ≡ true)
unfolding lock_current_lease
locked-job lease db {j} h e = elim (Result-cases (lock_current_worker_lease (worker_of lease) db)) [
  | inl (w, l) ↦
      found-job (job_fence lease) db h
        (get_or-done lease_lost (find (job_fence lease) db.jobs) (rw l at e))
  | inr (fault, l) ↦ (let x = rw l at e in cc)
]

pub acquire_worker_lease-IsExport :
    (new_uuid now : ℕ) (db : ExportDb)
    → IsExport db
    → IsExport (acquire_worker_lease new_uuid now db).0
unfolding acquire_worker_lease
acquire_worker_lease-IsExport new_uuid now db h = record {
  rows = h.rows;
  slots = h.slots;
  distinct = h.distinct;
  owners = h.owners;
}

pub release_worker_lease-IsExport :
    (token : WorkerLeaseToken) (now : ℕ) (db : ExportDb)
    → IsExport db
    → Ensures IsExport (release_worker_lease token now db)
unfolding release_worker_lease
release_worker_lease-IsExport token now db h =
    Ensures-bind (lock_current_worker_lease token db) _ λ _ _.
      returns (record { rows = h.rows; slots = h.slots; distinct = h.distinct; owners = h.owners })

renewed-pks :
    (test : Job → Bool) (now : ℕ) (js : List Job)
    → map (λ j. j.pk) (update test (renewed now) js) ≡ map (λ j. j.pk) js
renewed-pks test now [] = refl
renewed-pks test now (j ∷ js) =
    if_elim
      (λ (x : Job).
        x.pk ∷ map (λ k. k.pk) (update test (renewed now) js) ≡ j.pk ∷ map (λ k. k.pk) js)
      (test j) _ _ (ap (λ (l : List ℕ). j.pk ∷ l) (renewed-pks test now js))
      (ap (λ (l : List ℕ). j.pk ∷ l) (renewed-pks test now js))

pub renew_once-IsExport :
    (worker : WorkerLeaseToken) (token : Option LeaseToken) (now : ℕ) (db : ExportDb)
    → IsExport db
    → Ensures IsExport (renew_once worker token now db)
unfolding renew_once
renew_once-IsExport worker none now db h =
    Ensures-bind (lock_current_worker_lease worker db) _ λ _ _.
      returns (record { rows = h.rows; slots = h.slots; distinct = h.distinct; owners = h.owners })
renew_once-IsExport worker (some t) now db h =
    Ensures-bind (lock_current_worker_lease worker db) _ λ _ _.
      Ensures-refuse_if (not (count (job_fence t) db.jobs == 1)) lease_lost _ λ _. returns (record {
        rows =
            All-write IsJob IsJob (job_fence t) (renewed now) db.jobs
              (λ j g. if_elim IsJob (job_fence t j) _ _ (renewed-IsJob now j g) g) h.rows;
        slots =
            All-write (HoldsSlot db.slots) (HoldsSlot db.slots) (job_fence t) (renewed now) db.jobs
              (λ j g.
                if_elim (HoldsSlot db.slots) (job_fence t j) _ _
                  (same-HoldsSlot db.slots j (renewed now j) refl refl (λ a. a) g) g)
              h.slots;
        distinct = subst Distinct (sym (renewed-pks (job_fence t) now db.jobs)) h.distinct;
        owners = h.owners;
      })

hand_off-IsExport :
    (totals : Totals) (now : ℕ) (db : ExportDb) (j : Job)
    → IsJob j
    → HoldsSlot db.slots j
    → IsExport db
    → Ensures IsExport (hand_off totals now db j)
unfolding hand_off mark_attempts_retiring
hand_off-IsExport totals now db j good holds h =
    if_cases (Ensures IsExport) (is_working j.state) _ _
      (λ w.
        if_cases (Ensures IsExport) (has_cleanup_work db j) _ _
          (λ _. returns (
            save_job-IsExport (record (released now j) { staging_cleanup_state = pending })
              (mark_attempts_retiring j.pk db)
              (staged-IsJob (released now j) (released-IsJob now j good))
              (same-HoldsSlot db.slots j
                (record (released now j) { staging_cleanup_state = pending }) refl refl (λ a. a)
                holds)
              (record {
                rows = h.rows;
                slots = h.slots;
                distinct = h.distinct;
                owners = h.owners;
              })))
          (λ c. Ensures-bind (totals_within totals j db) _ λ t _.
            let a = is_working-active j.state w in
            returns (
              kept-IsExport j (record (next_attempt t (released now j)) { state = queued }) db
                (next_attempt-pk t (released now j)) (next_attempt-owner t (released now j)) a
                (handed-IsJob now t j w a (ground arith) good) holds h)))
      (λ _. returns (released-IsExport now j db good holds h))

or_ended-job :
    (lease : LeaseToken) (db : ExportDb) {j : Job}
    → IsExport db
    → or_ended lease db (lock_current_lease lease db) ≡ done j
    → IsJob j × HoldsSlot db.slots j
unfolding or_ended lock_ended
or_ended-job lease db {j} h e = elim (Result-cases (lock_current_lease lease db)) [
  | inl (k, l) ↦
      let (good, holds, t) = locked-job lease db h l in
      subst (λ x. IsJob x × HoldsSlot db.slots x) (done_inj (rw l at e)) (good, holds)
  | inr (fault, l) ↦ elim (Result-cases (lock_current_worker_lease (worker_of lease) db)) [
    | inl (w, l') ↦
        let (good, holds, t) =
          found-job (is_ended lease) db h
            (get_or-done lease_lost (find (is_ended lease) db.jobs) (rw (l, l') at e)) in
        (good, holds)
    | inr (fault', l') ↦ (let x = rw (l, l') at e in cc)
  ]
]

pub handoff-IsExport :
    (lease : LeaseToken) (held : Option LeaseToken) (now : ℕ) (read db : ExportDb)
    → IsExport db
    → Ensures (λ r. IsExport r.0) (handoff_after_normal_stop lease held now read db)
unfolding handoff_after_normal_stop
handoff-IsExport lease held now read db h =
    Ensures-bind (get_or lease_lost (find (λ j. j.pk == lease.job_id) read.jobs)) _ λ job _.
      Ensures-refuse_if (not (is_handed lease job)) lease_lost _ λ _.
        Ensures-bind (totals_before job read) _ λ totals _.
          Ensures-refuse_if (not (same_token held (some lease))) lease_lost _ λ _.
            Ensures-bind (or_ended lease db (lock_current_lease lease db)) _ λ j e.
              let (good, holds) = or_ended-job lease db h e in
              Ensures-then IsExport (λ (r : ExportDb × Option LeaseToken). IsExport r.0)
                (hand_off totals now db j) _ (hand_off-IsExport totals now db j good holds h)
                (λ after kept. returns kept)

release_found-IsExport :
    (lease : LeaseToken) (now : ℕ) (allow_released : Bool) (db : ExportDb)
    → IsExport db
    → Ensures IsExport (release_found lease now allow_released db (lock_current_lease lease db))
unfolding release_found
release_found-IsExport lease now allow_released db h =
    elim (Result-cases (lock_current_lease lease db)) [
      | inl (j, l) ↦
          let (good, holds, t) = locked-job lease db h l in
          rw l (returns (released-IsExport now j db good holds h))
      | inr (fault, l) ↦ rw l (
          Ensures-refuse_if (not allow_released) fault _
            λ _. Ensures-bind (lock_ended lease db) _ λ _ _. returns h)
    ]

pub release_job_lease-IsExport :
    (lease : LeaseToken) (held : Option LeaseToken) (now : ℕ) (allow_released : Bool)
    (db : ExportDb)
    → IsExport db
    → Ensures (λ r. IsExport r.0) (release_job_lease lease held now allow_released db)
unfolding release_job_lease
release_job_lease-IsExport lease held now allow_released db h =
    Ensures-refuse_if (is_some held && not (same_token held (some lease))) lease_lost _ λ _.
      Ensures-then IsExport (λ (r : ExportDb × Option LeaseToken). IsExport r.0)
        (release_found lease now allow_released db (lock_current_lease lease db)) _
        (release_found-IsExport lease now allow_released db h) (λ after kept. returns kept)
