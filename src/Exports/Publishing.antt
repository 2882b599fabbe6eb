-- ===== src/Exports/Publishing.antt =====
-- That the last decision on an archive publishes it, and what a published archive is
-- (exports/services/archive.py).
use svrx_pinry.Prelude.{
  ℕ, ◌≡◌, ◌∙◌, ◌+◌, ◌*◌, ◌==◌, ◌&&◌, refl, inl, inr, true, false, not, none, some, List, [], ◌∷◌,
  arith, done, refuse_if-false, Ensures-done, Bool-cases, All, update, opt_eq, contains, ==_refl,
}
use svrx_pinry.Exports.Contracts.{
  LeaseToken, lease_lost, same_token, verifying, complete, same_state,
}
use svrx_pinry.Exports.Tables.{
  Job, Verifying, ready_retained, Attempt, attempt_verifying, FullReceipt, AttemptFile,
  file_ready_candidate, Slot, ExportDb,
}
use svrx_pinry.Exports.Queries.{get_job, lock_current_lease}
use svrx_pinry.Exports.Attempts.{get_attempt, get_file}
use svrx_pinry.Exports.Maintenance.{expire_job}
use svrx_pinry.Exports.Permissions.{LivePin, revoked_item_ids}
use svrx_pinry.Exports.Completion.{
  is_complete_ready, completed_job, ready_from, complete_locked, expire_previous, is_ownerless,
  decide, final_decision, final_fence,
}
use svrx_pinry.Exports.Decisions.{locked-stored, completed-get_job}

-- A job whose archive was verified: the file has the size and the digest that the job recorded.
pub record IsVerified (j : Job) (a : Attempt) (f : AttemptFile) (v : Verifying) (full : FullReceipt)
    (exported_at : ℕ) : Type 0 where
  pub job_state : j.state ≡ verifying
  pub attempt_state : a.state ≡ attempt_verifying
  pub file_state : f.state ≡ file_ready_candidate
  pub dated : a.exported_at ≡ some exported_at
  pub recorded : j.verifying_receipt ≡ some v
  pub received : f.full ≡ some full
  pub size : full.size ≡ v.size
  pub digest : f.receipt_sha256 ≡ some v.sha256

-- The job is complete with the receipt of the file and for a day, it is the only complete job of its
-- owner, and no slot names it.
pub record IsPublished (j : Job) (f : AttemptFile) (v : Verifying) (full : FullReceipt)
    (exported_at : ℕ) (after : ExportDb) : Type 0 where
  pub job : Job
  pub stored : get_job j.pk after ≡ done job
  pub ended : job.state ≡ complete
  pub owner : job.owner_id ≡ j.owner_id
  pub completed : job.completed_at ≡ some exported_at
  pub expires : job.expires_at ≡ some (exported_at + 24 * 60 * 60)
  pub kept : job.ready_cleanup_state ≡ ready_retained
  pub archive :
      job.ready
      ≡ some (record {
        size = v.size;
        sha256 = v.sha256;
        file = f.opened;
        mtime_ns = full.mtime_ns;
        ctime_ns = full.ctime_ns;
      })
  pub packed : job.archive_done ≡ job.archive_total
  pub whole : job.bytes_done ≡ job.bytes_total
  pub only :
      All
        (λ k.
          (opt_eq k.owner_id j.owner_id && same_state k.state complete) ≡ true
          → (k.pk == j.pk) ≡ true)
        after.jobs
  pub free : All (λ s. opt_eq s.current_job (some j.pk) ≡ false) after.slots

same_token_refl : (t : LeaseToken) → same_token (some t) (some t) ≡ true
same_token_refl t = ground arith

slots-free :
    (pk : ℕ) (slots : List Slot)
    → All
        (λ s. opt_eq s.current_job (some pk) ≡ false)
        (update (λ s. opt_eq s.current_job (some pk)) (λ s. record s { current_job = none }) slots)
slots-free pk [] = tt
slots-free pk (s ∷ slots) = (
  elim (Bool-cases (opt_eq s.current_job (some pk))) [ inl e ↦ rw e refl | inr e ↦ rw e e ],
  slots-free pk slots,
)

others-expired :
    (j : Job) (js : List Job)
    → All
        (λ k.
          (opt_eq k.owner_id j.owner_id && same_state k.state complete) ≡ true
          → (k.pk == j.pk) ≡ true)
        (update
          (λ k. opt_eq k.owner_id j.owner_id && (same_state k.state complete && not (k.pk == j.pk)))
          expire_job
          js)
others-expired j [] = tt
others-expired j (k ∷ js) = (
  elim (Bool-cases
      (opt_eq k.owner_id j.owner_id && (same_state k.state complete && not (k.pk == j.pk)))) [
        | inl e ↦ rw e (λ t. ground arith)
        | inr e ↦ rw e (λ t. ground arith)
      ],
  others-expired j js,
)

module _ (j : Job) (a : Attempt) (f : AttemptFile) (v : Verifying) (full : FullReceipt)
    (exported_at : ℕ) (db : ExportDb) (h : IsVerified j a f v full exported_at) where
  verified-ready : is_complete_ready j a f exported_at ≡ true
  verified-ready =
      rw
        (
          h.job_state,
          h.attempt_state,
          h.file_state,
          h.dated,
          h.recorded,
          h.received,
          h.digest,
          h.size,
          ==_refl v.size,
          ==_refl v.sha256,
          ==_refl exported_at,
        )
        refl

  complete_locked-IsPublished :
      (after : ExportDb) × (complete_locked j a f exported_at db ≡ done after)
      × ((get_job j.pk after ≡ done (completed_job f exported_at j))
          → IsPublished j f v full exported_at after)
  unfolding complete_locked completed_job ready_from expire_previous
  complete_locked-IsPublished = (
    _,
    refuse_if-false (not (is_complete_ready j a f exported_at)) lease_lost _
        (rw verified-ready refl),
    λ got. record {
      job = completed_job f exported_at j;
      stored = got;
      ended = refl;
      owner = refl;
      completed = refl;
      expires = refl;
      kept = refl;
      archive = rw (h.received, h.digest, h.size) refl;
      packed = refl;
      whole = refl;
      only = others-expired j _;
      free = slots-free j.pk db.slots;
    },
  )

-- The last decision publishes an archive: if the lease that the heartbeat holds locks the job, the
-- attempt and the file are those with the given keys, the job's archive was verified with that file's
-- size and digest, the owner is there and no included item is revoked, then the final fence returns with
-- no lease. The job is then complete with the receipt of that file, and expires a day after the time of
-- the attempt; it is the only complete job of its owner, and no slot names it.
pub final_fence-IsPublished :
    (lease : LeaseToken) (attempt file exported_at user : ℕ) (pins : List LivePin) (db : ExportDb)
    (j : Job) (a : Attempt) (f : AttemptFile) (v : Verifying) (full : FullReceipt)
    → lock_current_lease lease db ≡ done j
    → get_attempt attempt db ≡ done a
    → get_file file db ≡ done f
    → IsVerified j a f v full exported_at
    → j.owner_id ≡ some user
    → contains user db.users ≡ true
    → revoked_item_ids j true db.items pins ≡ []
    → (after : ExportDb) × (final_fence lease (some lease) attempt file exported_at pins db
        ≡ done (after, none))
      × IsPublished j f v full exported_at after
unfolding final_fence final_decision decide
final_fence-IsPublished lease attempt file exported_at user pins db j a f v full locked la lf h own
      here revoked =
    let (after, e, published) = complete_locked-IsPublished j a f v full exported_at db h in
    let stored = locked-stored lease db locked in
    let owned : is_ownerless db j.owner_id ≡ false = rw (own, here) refl in
    (
      after,
      refuse_if-false (not (same_token (some lease) (some lease))) lease_lost _
            (rw (same_token_refl lease) refl)
          ∙ rw locked (rw la (rw lf (rw owned (rw revoked (rw e refl))))),
      published (Ensures-done (completed-get_job j a f db stored exported_at) e),
    )
