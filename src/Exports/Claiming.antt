-- ===== src/Exports/Claiming.antt =====
-- What a claim of the next job returns, and that it returns one (exports/services/worker.py).
use svrx_pinry.Prelude.{
  ℕ, ◌≡◌, refl, inl, inr, true, false, Option, none, some, List, [], ◌∷◌, ◌==◌, ==_refl, Bool-cases,
  Option-cases, All, All-select, any, select, arith, done, Ensures, returns, Ensures-bind,
}
use svrx_pinry.Exports.Contracts.{WorkerLeaseToken, LeaseToken}
use svrx_pinry.Exports.Tables.{Job, WorkerLease, ExportDb, save_job}
use svrx_pinry.Exports.Queries.{
  first_in, by_age, get_or, lock_current_worker_lease, job_fence, lock_current_lease,
}
use svrx_pinry.Exports.Worker.{
  new_job_token, is_claimable, claimed_by, take_claimed, claim_next_job,
}
use svrx_pinry.Exports.Saves.{first_in-All, select-All}
use svrx_pinry.Exports.Fifo.{
  first_in-none, first_in-first, select-first, select-none, present, find-saved,
}

-- What a claim comes to: no job can be claimed and nothing is written, or the lease that is returned
-- locks the job that was claimed, and no other job that could be claimed is older.
pub data IsClaim (worker : WorkerLeaseToken) (new_uuid now : ℕ) (db : ExportDb)
    : ExportDb × Option LeaseToken → Type 0 where
  idle : All (λ j. is_claimable db j ≡ false) db.jobs → IsClaim worker new_uuid now db (db, none)
  taken :
      {after : ExportDb} (j : Job) (lease : LeaseToken)
      → is_claimable db j ≡ true
      → All (λ k. is_claimable db k ≡ true → by_age k j ≡ false) db.jobs
      → lock_current_lease lease after ≡ done (claimed_by worker new_uuid now j)
      → IsClaim worker new_uuid now db (after, some lease)

lock-claimed :
    (worker : WorkerLeaseToken) (new_uuid now : ℕ) (db : ExportDb) (j : Job) (w : WorkerLease)
    → lock_current_worker_lease worker db ≡ done w
    → any (λ k. k.pk == j.pk) db.jobs ≡ true
    → lock_current_lease
        (new_job_token worker j new_uuid)
        (save_job (claimed_by worker new_uuid now j) db)
      ≡ done (claimed_by worker new_uuid now j)
unfolding lock_current_lease get_or save_job lock_current_worker_lease
lock-claimed worker new_uuid now db j w locked stored =
    let job = claimed_by worker new_uuid now j in
    let found =
      find-saved (job_fence (new_job_token worker j new_uuid)) job db.jobs
        (ground (arith, ==_refl j.pk, ==_refl new_uuid)) (λ k e. ground arith) stored in
    rw locked (rw found refl)

take_claimed-IsClaim :
    (worker : WorkerLeaseToken) (new_uuid now : ℕ) (db : ExportDb) (w : WorkerLease)
    → lock_current_worker_lease worker db ≡ done w
    → IsClaim worker new_uuid now db
        (take_claimed worker new_uuid now db (first_in by_age (select (is_claimable db) db.jobs)))
unfolding take_claimed
take_claimed-IsClaim worker new_uuid now db w locked =
    elim (Option-cases (first_in by_age (select (is_claimable db) db.jobs))) [
      | inl e ↦ rw e (
          idle (
            select-none (is_claimable db) db.jobs
              (first_in-none (select (is_claimable db) db.jobs) e)))
      | inr (j, e) ↦
          let chosen =
            first_in-All (λ x. is_claimable db x ≡ true) by_age (select (is_claimable db) db.jobs)
              (select-All (is_claimable db) db.jobs) e in
          let stored =
            first_in-All (λ x. any (λ k. k.pk == x.pk) db.jobs ≡ true) by_age
              (select (is_claimable db) db.jobs)
              (All-select (λ x. any (λ k. k.pk == x.pk) db.jobs ≡ true) (is_claimable db) db.jobs
                (present db.jobs))
              e in
          rw e (
            taken j (new_job_token worker j new_uuid) chosen
              (select-first (is_claimable db) j db.jobs
                (first_in-first (select (is_claimable db) db.jobs) e))
              (lock-claimed worker new_uuid now db j w locked stored))
    ]

-- A worker that holds no job claims the oldest job that can be claimed, the one with the least key
-- among those created at the same time, if the call is not refused: the lease that it is given locks
-- that job, in the state that the claim wrote. It is given none only where no job can be claimed.
pub claim_next_job-IsClaim :
    (worker : WorkerLeaseToken) (new_uuid now : ℕ) (db : ExportDb)
    → Ensures (IsClaim worker new_uuid now db) (claim_next_job worker none new_uuid now db)
unfolding claim_next_job
claim_next_job-IsClaim worker new_uuid now db =
    Ensures-bind (lock_current_worker_lease worker db) _
      λ w locked. returns (take_claimed-IsClaim worker new_uuid now db w locked)

no_claimable :
    (db : ExportDb) (js : List Job)
    → any (is_claimable db) js ≡ true
    → (select (is_claimable db) js ≡ [])
    → true ≡ false
no_claimable db [] h e = cc
no_claimable db (j ∷ js) h e = elim (Bool-cases (is_claimable db j)) [
  | inl t ↦ (let x = rw t at e in cc)
  | inr t ↦ no_claimable db js (rw t at h) (rw t at e)
]

-- If a job can be claimed and the worker's lease is current, a worker that holds no job is given one.
pub claim_next_job-some :
    (worker : WorkerLeaseToken) (new_uuid now : ℕ) (db : ExportDb) (w : WorkerLease)
    → lock_current_worker_lease worker db ≡ done w
    → any (is_claimable db) db.jobs ≡ true
    → (after : ExportDb) × (lease : LeaseToken) × (claim_next_job worker none new_uuid now db
        ≡ done (after, some lease))
unfolding claim_next_job take_claimed
claim_next_job-some worker new_uuid now db w locked claimable =
    elim (Option-cases (first_in by_age (select (is_claimable db) db.jobs))) [
      | inl e ↦
          (let x =
              no_claimable db db.jobs claimable
                (first_in-none (select (is_claimable db) db.jobs) e) in
            cc)
      | inr (j, e) ↦ (
        save_job (claimed_by worker new_uuid now j) db,
        new_job_token worker j new_uuid,
        rw locked (rw e refl),
      )
    ]
