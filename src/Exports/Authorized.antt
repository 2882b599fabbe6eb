-- ===== src/Exports/Authorized.antt =====
-- What an authorized download has been checked for, and what the check leaves
-- (exports/services/download.py).
use svrx_pinry.Prelude.{
  ℕ, ◌≡◌, refl, inl, inr, true, false, not, ◌||◌, some, List, [], ◌∷◌, ◌==◌, find, if_cases,
  Option-cases, arith,
}
use svrx_pinry.Exports.Contracts.{complete, expired, same_state}
use svrx_pinry.Exports.Constraints.{is_retained}
use svrx_pinry.Exports.Tables.{Job, ExportDb, save_job}
use svrx_pinry.Exports.Maintenance.{expire_job}
use svrx_pinry.Exports.Permissions.{LivePin, revoked_item_ids}
use svrx_pinry.Exports.Downloads.{
  DownloadExpectation, PhysicalReceipt, Authorization, expired_archive, authorized, is_over,
  is_empty, is_foreign, is_changed, authorize_job, authorize_found, final_authorize,
}
use svrx_pinry.Exports.Invariant.{IsExport}
use svrx_pinry.Exports.Saves.{save_job-IsExport, found-job}
use svrx_pinry.Exports.Phases.{same_state-eq}
use svrx_pinry.Exports.Rounds.{expire_job-IsJob}

-- The job may be downloaded by the user, now and at the later reading of the clock.
pub record IsDownloadable (e : DownloadExpectation) (seen : PhysicalReceipt) (first second : ℕ)
    (pins : List LivePin) (db : ExportDb) (j : Job) : Type 0 where
  pub own : is_foreign e db j ≡ false
  pub ended : j.state ≡ complete
  pub kept : is_retained j.ready_cleanup_state ≡ true
  pub expected : is_changed e seen j ≡ false
  pub early : is_over first j.expires_at ≡ false
  pub later : is_over second j.expires_at ≡ false
  pub permitted : revoked_item_ids j true db.items pins ≡ []

-- What the decision on the job that is found comes to: it may be downloaded and nothing is written; or
-- nothing is authorized, and at most the complete job has expired.
pub data IsAuthorization (e : DownloadExpectation) (seen : PhysicalReceipt) (first second : ℕ)
    (pins : List LivePin) (db : ExportDb) : ExportDb × Authorization → Type 0 where
  allowed :
      (j : Job)
      → IsDownloadable e seen first second pins db j
      → IsAuthorization e seen first second pins db (db, authorized j)
  denied :
      {answer : Authorization}
      → ((j : Job) → (answer ≡ authorized j) → true ≡ false)
      → IsAuthorization e seen first second pins db (db, answer)
  ends :
      (j : Job)
      → find (λ k. k.pk == e.job_id) db.jobs ≡ some j
      → j.state ≡ complete
      → IsAuthorization e seen first second pins db (save_job (expire_job j) db, expired_archive)

is_empty-nil : (ns : List ℕ) → is_empty ns ≡ true → ns ≡ []
is_empty-nil [] h = refl
is_empty-nil (n ∷ ns) h = cc

module _ (e : DownloadExpectation) (seen : PhysicalReceipt) (first second : ℕ) (pins : List LivePin)
    (db : ExportDb) where
  authorize_job-IsAuthorization :
      (j : Job)
      → find (λ k. k.pk == e.job_id) db.jobs ≡ some j
      → IsAuthorization e seen first second pins db (authorize_job e seen first second pins db j)
  unfolding authorize_job
  authorize_job-IsAuthorization j found =
      if_cases (IsAuthorization e seen first second pins db) (is_foreign e db j) _ _
        (λ _. denied λ k x. cc)
        λ own.
          if_cases (IsAuthorization e seen first second pins db) (same_state j.state expired) _ _
            (λ _. denied λ k x. cc)
            λ _.
              if_cases (IsAuthorization e seen first second pins db)
                (not (same_state j.state complete)) _ _ (λ _. denied λ k x. cc)
                λ c.
                  let ended = same_state-eq j.state complete (ground arith) in
                  if_cases (IsAuthorization e seen first second pins db)
                    (not (is_retained j.ready_cleanup_state)) _ _ (λ _. denied λ k x. cc)
                    λ kept.
                      if_cases (IsAuthorization e seen first second pins db) (is_changed e seen j) _
                        _ (λ _. denied λ k x. cc)
                        λ expected.
                          if_cases (IsAuthorization e seen first second pins db)
                            (is_over first j.expires_at) _ _ (λ _. ends j found ended)
                            λ early.
                              if_cases (IsAuthorization e seen first second pins db)
                                (is_over second j.expires_at
                                  || not (is_empty (revoked_item_ids j true db.items pins)))
                                _ _ (λ _. ends j found ended)
                                λ checked. allowed j (record {
                                  own = own;
                                  ended = ended;
                                  kept = ground arith;
                                  expected = expected;
                                  early = early;
                                  later = ground arith;
                                  permitted =
                                      is_empty-nil (revoked_item_ids j true db.items pins)
                                        (ground arith);
                                })

-- A download is authorized only if the job is the user's, who is there, and it is complete, its archive
-- is kept and is the one that was expected and seen, it has not expired at either reading of the clock,
-- and none of its included items is revoked; then nothing is written. If it is not authorized, then at
-- most the job has been written, and only from complete to expired.
pub final_authorize-IsAuthorization :
    (e : DownloadExpectation) (seen : PhysicalReceipt) (first second : ℕ) (pins : List LivePin)
    (db : ExportDb)
    → IsAuthorization e seen first second pins db (final_authorize e seen first second pins db)
unfolding final_authorize authorize_found
final_authorize-IsAuthorization e seen first second pins db =
    elim (Option-cases (find (λ j. j.pk == e.job_id) db.jobs)) [
      | inl none_found ↦ rw none_found (denied λ k x. cc)
      | inr (j, found) ↦
          rw found (authorize_job-IsAuthorization e seen first second pins db j found)
    ]

authorized-IsExport :
    (e : DownloadExpectation) (seen : PhysicalReceipt) (first second : ℕ) (pins : List LivePin)
    (db : ExportDb) (r : ExportDb × Authorization)
    → IsAuthorization e seen first second pins db r
    → IsExport db
    → IsExport r.0
authorized-IsExport e seen first second pins db _ (allowed j ok) h = h
authorized-IsExport e seen first second pins db _ (denied other) h = h
authorized-IsExport e seen first second pins db _ (ends j found ended) h =
    let (good, holds, t) = found-job (λ k. k.pk == e.job_id) db h found in
    save_job-IsExport (expire_job j) db (expire_job-IsJob j ended good) (λ a. cc) h

pub final_authorize-IsExport :
    (e : DownloadExpectation) (seen : PhysicalReceipt) (first second : ℕ) (pins : List LivePin)
    (db : ExportDb)
    → IsExport db
    → IsExport (final_authorize e seen first second pins db).0
final_authorize-IsExport e seen first second pins db h =
    authorized-IsExport e seen first second pins db (final_authorize e seen first second pins db)
      (final_authorize-IsAuthorization e seen first second pins db) h

-- If the job that is expected is the first with its key and may be downloaded at both readings of the
-- clock, the download is authorized and nothing is written.
pub final_authorize-authorized :
    (e : DownloadExpectation) (seen : PhysicalReceipt) (first second : ℕ) (pins : List LivePin)
    (db : ExportDb) (j : Job)
    → find (λ k. k.pk == e.job_id) db.jobs ≡ some j
    → IsDownloadable e seen first second pins db j
    → final_authorize e seen first second pins db ≡ (db, authorized j)
unfolding final_authorize authorize_found authorize_job
final_authorize-authorized e seen first second pins db j found h =
    rw (found, h.own, h.ended, h.kept, h.expected, h.early, h.later, h.permitted) refl
