-- ===== src/Exports/Failed.antt =====
-- A failure of an active job keeps the invariant of the tables (exports/services/worker.py).
use svrx_pinry.Prelude.{
  ℕ, ◌≡◌, refl, ap, Bool, true, false, not, Option, none, some, List, [], ◌∷◌, map, ◌==◌, is_some,
  if_cases, if_elim, All, All-map, All-write, All-select, find, find-All, select, contains, arith,
  All-both, All-always, done_inj, done, Ensures, returns, Ensures-refuse_if, Ensures-bind,
  Ensures-then,
}
use svrx_pinry.Order.Positions.{Distinct}
use svrx_pinry.Exports.Contracts.{
  is_active, ErrorCode, is_job_code, WorkerLeaseToken, LeaseToken, worker_of, same_token,
  ExportFault, lease_lost, does_not_exist, integrity_error,
}
use svrx_pinry.Exports.Tables.{Job, ExportDb, save_job}
use svrx_pinry.Exports.Queries.{get_or, first_in, lock_current_worker_lease, get_job}
use svrx_pinry.Exports.Failures.{
  mark_attempts_retiring, failed_with, fail_locked, released, release_ended, fail_job,
}
use svrx_pinry.Exports.Invariant.{IsJob, HoldsSlot, IsExport}
use svrx_pinry.Exports.Saves.{
  same-HoldsSlot, save_job-IsExport, clear_slots-IsExport, found-job, first_in-All,
}
use svrx_pinry.Exports.Phases.{failed_with-IsJob, released-IsJob}

-- The rows with a key are that one row.
abbrev pub IsOnly : List Job → Job → Type 0
IsOnly js j = All (λ k. (k.pk == j.pk) ≡ true → k ≡ j) js

pub absent-pks :
    (a : ℕ) (js : List Job)
    → contains a (map (λ j. j.pk) js) ≡ false
    → All (λ k. (a == k.pk) ≡ false) js
absent-pks a [] h = tt
absent-pks a (j ∷ js) h = (ground arith, absent-pks a js (ground arith))

pub Distinct-IsOnly : (js : List Job) → Distinct (map (λ j. j.pk) js) → All (λ j. IsOnly js j) js
Distinct-IsOnly [] d = tt
Distinct-IsOnly (j ∷ js) (d, ds) =
    let absent = absent-pks j.pk js d in
    (
      (
        λ _. refl,
        All-map js (λ k (e : (j.pk == k.pk) ≡ false) t. (let x = e in ground arith)) absent,
      ),
      All-map js
          (λ k (r : ((j.pk == k.pk) ≡ false) × IsOnly js k).
            (λ t. (let e = r.0 in ground arith), r.1))
          (All-both (λ k. (j.pk == k.pk) ≡ false) (λ k. IsOnly js k) js absent
            (Distinct-IsOnly js ds)),
    )

-- The rows with the key of an active job are active.
abbrev pub IsActive : ExportDb → ℕ → Type 0
IsActive db pk = All (λ k. (k.pk == pk) ≡ true → is_active k.state ≡ true) db.jobs

only-IsActive :
    (db : ExportDb) (j : Job) → IsOnly db.jobs j → is_active j.state ≡ true → IsActive db j.pk
only-IsActive db j only a =
    All-map db.jobs (λ k (same : (k.pk == j.pk) ≡ true → k ≡ j) e. rw (same e) a) only

pub found-IsActive :
    (test : Job → Bool) (db : ExportDb) {j : Job}
    → IsExport db
    → find test db.jobs ≡ some j
    → is_active j.state ≡ true
    → IsActive db j.pk
found-IsActive test db {j} h f a =
    let (only, t) =
      find-All (λ k. IsOnly db.jobs k) test db.jobs {x = j} (Distinct-IsOnly db.jobs h.distinct)
        f in
    only-IsActive db j only a

pub first-IsActive :
    (before : Job → Job → Bool) (test : Job → Bool) (db : ExportDb) {j : Job}
    → IsExport db
    → first_in before (select test db.jobs) ≡ some j
    → is_active j.state ≡ true
    → IsActive db j.pk
first-IsActive before test db {j} h f a =
    only-IsActive db j
      (first_in-All (λ k. IsOnly db.jobs k) before (select test db.jobs)
        (All-select (λ k. IsOnly db.jobs k) test db.jobs (Distinct-IsOnly db.jobs h.distinct)) f)
      a

pub get_or-done {ℓ} :
    {A : Type ℓ} (fault : ExportFault) (o : Option A) {x : A} → get_or fault o ≡ done x → o ≡ some x
unfolding get_or
get_or-done fault none h = cc
get_or-done fault (some y) h = ap (λ z. some z) (done_inj h)

-- The failure of a job whose rows are active.
pub fail_locked-IsExport :
    (pk : ℕ) (code : ErrorCode) (worker : WorkerLeaseToken) (token : Option LeaseToken) (now : ℕ)
    (db : ExportDb)
    → IsActive db pk
    → IsExport db
    → Ensures IsExport (fail_locked pk code worker token now db)
unfolding fail_locked get_job mark_attempts_retiring save_job
fail_locked-IsExport pk code worker token now db active h =
    Ensures-bind (lock_current_worker_lease worker db) _ λ _ _.
      Ensures-bind (get_job pk db) _ λ j g. Ensures-refuse_if _ _ _ λ _.
        Ensures-refuse_if (not (is_job_code code)) integrity_error _ λ checked.
          let f = get_or-done does_not_exist (find (λ k. k.pk == pk) db.jobs) g in
          let (good, holds, t) = found-job (λ k. k.pk == pk) db h f in
          let (live, t') =
            find-All (λ k. (k.pk == pk) ≡ true → is_active k.state ≡ true) (λ k. k.pk == pk) db.jobs
              active f in
          let saved =
            save_job-IsExport (failed_with code now j) db
              (failed_with-IsJob code now j (ground arith) (live t) good) (λ e. cc) h in
          returns (
            clear_slots-IsExport j.pk
              (mark_attempts_retiring j.pk (save_job (failed_with code now j) db))
              (All-write (λ (k : Job). k.pk ≡ k.pk)
                (λ k. (k.pk == j.pk) ≡ true → is_active k.state ≡ false) (λ k. k.pk == j.pk)
                (λ _. failed_with code now j) db.jobs
                (λ k _.
                  if_cases (λ (x : Job). (x.pk == j.pk) ≡ true → is_active x.state ≡ false)
                    (k.pk == j.pk) _ _ (λ _ _. refl) (λ e t. cc))
                (All-always (λ (k : Job). k.pk ≡ k.pk) db.jobs λ _. refl))
              (record {
                rows = saved.rows;
                slots = saved.slots;
                distinct = saved.distinct;
                owners = saved.owners;
              }))

-- A lease that is given back.
pub released-IsExport :
    (now : ℕ) (j : Job) (db : ExportDb)
    → IsJob j
    → HoldsSlot db.slots j
    → IsExport db
    → IsExport (save_job (released now j) db)
released-IsExport now j db good holds h =
    save_job-IsExport (released now j) db (released-IsJob now j good)
      (same-HoldsSlot db.slots j (released now j) refl refl (λ a. a) holds) h

release_ended-IsExport :
    (lease : LeaseToken) (now : ℕ) (db : ExportDb) (j : Job)
    → IsJob j
    → HoldsSlot db.slots j
    → IsExport db
    → Ensures IsExport (release_ended lease now db j)
unfolding release_ended
release_ended-IsExport lease now db j good holds h =
    Ensures-bind (lock_current_worker_lease (worker_of lease) db) _ λ _ _.
      Ensures-refuse_if _ _ _ λ _.
        returns
          (if_elim IsExport (is_some j.lease_uuid) _ _ (released-IsExport now j db good holds h) h)

pub fail_job-IsExport :
    (lease : LeaseToken) (code : ErrorCode) (held : Option LeaseToken) (now : ℕ) (db : ExportDb)
    → IsExport db
    → Ensures (λ r. IsExport r.0) (fail_job lease code held now db)
unfolding fail_job get_job
fail_job-IsExport lease code held now db h =
    Ensures-refuse_if (not (same_token held (some lease))) lease_lost _ λ _.
      Ensures-bind (get_job lease.job_id db) _ λ j g.
        let f = get_or-done does_not_exist (find (λ k. k.pk == lease.job_id) db.jobs) g in
        let (good, holds, t) = found-job (λ k. k.pk == lease.job_id) db h f in
        Ensures-then IsExport (λ (r : ExportDb × Option LeaseToken). IsExport r.0) _ _
          (if_cases (Ensures IsExport) (is_active j.state) _ _
            (λ a.
              fail_locked-IsExport j.pk code (worker_of lease) (some lease) now db
                (found-IsActive (λ k. k.pk == lease.job_id) db h f a) h)
            (λ _. release_ended-IsExport lease now db j good holds h))
          (λ after kept. returns kept)
