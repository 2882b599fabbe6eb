-- ===== src/Exports/Decisions.antt =====
-- What the last decision on an archive leaves (exports/services/archive.py).
use svrx_pinry.Prelude.{
  ℕ, ◌≡◌, ◌≢◌, ◌⊎◌, refl, sym, ap, subst, inl, inr, true, false, not, ◌&&◌, Option, none, some,
  List, [], ◌∷◌, length, ◌==◌, ==_refl, opt_eq, if_cases, if_elim, Bool-cases, any, find, find-All,
  find-update, update, arith, Result-cases, done, ◌>>=◌, Ensures, returns, Ensures-refuse_if,
  Ensures-bind, Ensures-then, Ensures-weaken,
}
use svrx_pinry.Exports.Contracts.{
  archiving, complete, same_state, LeaseToken, worker_of, lease_lost, same_token, export_error,
  export_storage_unsafe,
}
use svrx_pinry.Exports.Tables.{Job, Attempt, AttemptFile, ExportDb, save_job}
use svrx_pinry.Exports.Queries.{
  get_or, get_job, job_fence, lock_current_worker_lease, lock_current_lease,
}
use svrx_pinry.Exports.Failures.{clear_slots}
use svrx_pinry.Exports.Attempts.{save_attempt, save_file, get_attempt, get_file}
use svrx_pinry.Exports.Maintenance.{expire_job}
use svrx_pinry.Exports.Permissions.{LivePin, revoked_item_ids}
use svrx_pinry.Exports.Publication.{
  Excluded, exclude_chunks, is_countable, apply_revocations, rotated_job,
}
use svrx_pinry.Exports.Chunks.{query_chunk_size, slices}
use svrx_pinry.Exports.Completion.{
  is_complete_ready, completed_job, expire_previous, complete_locked, ownerless_failure,
  is_decidable, record_owner_deleted, rotate_locked, is_ownerless, decide, final_decision,
  final_fence,
}
use svrx_pinry.Exports.Invariant.{IsExport}
use svrx_pinry.Exports.Failed.{IsOnly, Distinct-IsOnly, get_or-done}
use svrx_pinry.Exports.Fifo.{present, find-saved}

-- What `_final_fence` has decided on the job `j` and the file with the key `file`.
pub data IsDecision (j : Job) (file exported_at : ℕ) (pins : List LivePin) (db : ExportDb)
    : ExportDb × Option LeaseToken → Type 0 where
  ownerless :
      {after : ExportDb}
      → is_ownerless db j.owner_id ≡ true
      → get_job j.pk after ≡ done (ownerless_failure j)
      → IsDecision j file exported_at pins db (after, none)
  published :
      {after : ExportDb} (f : AttemptFile)
      → get_file file db ≡ done f
      → is_ownerless db j.owner_id ≡ false
      → revoked_item_ids j true db.items pins ≡ []
      → get_job j.pk after ≡ done (completed_job f exported_at j)
      → IsDecision j file exported_at pins db (after, none)
  rotated :
      {after : ExportDb} {lease : Option LeaseToken} (k : Job)
      → is_ownerless db j.owner_id ≡ false
      → revoked_item_ids j true db.items pins ≢ []
      → get_job j.pk after ≡ done k
      → (k ≡ j) ⊎ (k.state ≡ archiving)
      → IsDecision j file exported_at pins db (after, lease)

get_job-saved :
    (job : Job) (db : ExportDb)
    → any (λ k. k.pk == job.pk) db.jobs ≡ true
    → get_job job.pk (save_job job db) ≡ done job
unfolding get_job get_or save_job
get_job-saved job db stored =
    rw (find-saved (λ k. k.pk == job.pk) job db.jobs (==_refl job.pk) (λ k e. e) stored) refl

-- The job that a fence locked is stored.
pub locked-stored :
    (lease : LeaseToken) (db : ExportDb) {j : Job}
    → lock_current_lease lease db ≡ done j
    → any (λ k. k.pk == j.pk) db.jobs ≡ true
unfolding lock_current_lease
locked-stored lease db {j} e =
    elim (Result-cases (lock_current_worker_lease (worker_of lease) db)) [
      | inl (w, l) ↦
          (find-All (λ x. any (λ k. k.pk == x.pk) db.jobs ≡ true) (job_fence lease) db.jobs {x = j}
            (present db.jobs)
            (get_or-done lease_lost (find (job_fence lease) db.jobs) (rw l at e))).0
      | inr (fault, l) ↦ (let x = rw l at e in cc)
    ]

apply_revocations-pk :
    (j : Job) (revoked : List ℕ) (db : ExportDb)
    → Ensures (λ r. r.0.pk ≡ j.pk) (apply_revocations j revoked db)
unfolding apply_revocations
apply_revocations-pk j revoked db =
    Ensures-bind
      (exclude_chunks j.pk (slices (length revoked) query_chunk_size revoked)
        (record { items = db.items; changed = 0; removed_bytes = 0 }))
      _
      λ e _.
        Ensures-refuse_if (not (is_countable j e)) (export_error export_storage_unsafe) _
          λ _. returns refl

pub find-only :
    (j : Job) (js : List Job)
    → IsOnly js j
    → any (λ k. k.pk == j.pk) js ≡ true
    → find (λ k. k.pk == j.pk) js ≡ some j
find-only j [] only h = cc
find-only j (k ∷ ks) (same, only) h = elim (Bool-cases (k.pk == j.pk)) [
  | inl e ↦ rw e (ap (λ (x : Job). some x) (same e))
  | inr e ↦ rw e (find-only j ks only (rw e at h))
]

-- A stored job is read by its key, since no key stands twice.
locked-get_job :
    (lease : LeaseToken) (db : ExportDb) {j : Job}
    → IsExport db
    → lock_current_lease lease db ≡ done j
    → get_job j.pk db ≡ done j
unfolding lock_current_lease get_job get_or
locked-get_job lease db {j} h e =
    elim (Result-cases (lock_current_worker_lease (worker_of lease) db)) [
      | inl (w, l) ↦
          let (only, t) =
            find-All (λ k. IsOnly db.jobs k) (job_fence lease) db.jobs {x = j}
              (Distinct-IsOnly db.jobs h.distinct)
              (get_or-done lease_lost (find (job_fence lease) db.jobs) (rw l at e)) in
          rw (find-only j db.jobs only (locked-stored lease db e)) refl
      | inr (fault, l) ↦ (let x = rw l at e in cc)
    ]

module _ (j : Job) (a : Attempt) (f : AttemptFile) (db : ExportDb)
    (stored : any (λ k. k.pk == j.pk) db.jobs ≡ true) where
  deleted-get_job :
      Ensures
        (λ after. get_job j.pk after ≡ done (ownerless_failure j))
        (record_owner_deleted j a f db)
  unfolding record_owner_deleted clear_slots save_attempt save_file get_job save_job
  deleted-get_job =
      Ensures-refuse_if (not (is_decidable j a f)) lease_lost _
        λ _. returns (get_job-saved (ownerless_failure j) db stored)

  pub completed-get_job :
      (exported_at : ℕ)
      → Ensures
          (λ after. get_job j.pk after ≡ done (completed_job f exported_at j))
          (complete_locked j a f exported_at db)
  unfolding complete_locked clear_slots save_attempt save_file expire_previous get_job get_or
      save_job completed_job
  completed-get_job exported_at =
      Ensures-refuse_if (not (is_complete_ready j a f exported_at)) lease_lost _ λ _.
        let job = completed_job f exported_at j in
        let test = λ (k : Job).
          opt_eq k.owner_id j.owner_id && (same_state k.state complete && not (k.pk == j.pk)) in
        let saved = find-saved (λ k. k.pk == j.pk) job db.jobs (==_refl j.pk) (λ k e. e) stored in
        let found =
          find-update (λ k. k.pk == j.pk) test expire_job
            (update (λ k. k.pk == j.pk) (λ _. job) db.jobs) {r = job} (λ x. refl) saved in
        let own : test job ≡ false = ground (arith, ==_refl j.pk) in
        returns (rw found (rw own refl))

  rotated-get_job :
      (revoked : List ℕ) (lease : LeaseToken)
      → get_job j.pk db ≡ done j
      → Ensures
          (λ r. (k : Job) × (get_job j.pk r.0 ≡ done k) × ((k ≡ j) ⊎ (k.state ≡ archiving)))
          (rotate_locked j a f revoked lease db)
  unfolding rotate_locked save_attempt save_file get_job save_job
  rotated-get_job revoked lease here =
      Ensures-then (λ (r : Job × Excluded). r.0.pk ≡ j.pk)
        (λ (x : ExportDb × Option LeaseToken).
          (k : Job) × (get_job j.pk x.0 ≡ done k) × ((k ≡ j) ⊎ (k.state ≡ archiving)))
        (apply_revocations j revoked db) _ (apply_revocations-pk j revoked db)
        λ r pk. returns (
          if_elim
            (λ (x : ExportDb × Option LeaseToken).
              (k : Job) × (get_job j.pk x.0 ≡ done k) × ((k ≡ j) ⊎ (k.state ≡ archiving)))
            (r.1.changed == 0) _ _ (j, here, inl refl)
            (
              rotated_job r.0,
              subst (λ n. get_job n (save_job (rotated_job r.0) db) ≡ done (rotated_job r.0)) pk
                  (get_job-saved (rotated_job r.0) db
                    (subst (λ n. any (λ k. k.pk == n) db.jobs ≡ true) (sym pk) stored)),
              inr refl,
            ))

decide-IsDecision :
    (lease : LeaseToken) (file exported_at : ℕ) (pins : List LivePin) (db : ExportDb) (j : Job)
    (a : Attempt) (f : AttemptFile) (revoked : List ℕ)
    → get_file file db ≡ done f
    → any (λ k. k.pk == j.pk) db.jobs ≡ true
    → get_job j.pk db ≡ done j
    → is_ownerless db j.owner_id ≡ false
    → revoked_item_ids j true db.items pins ≡ revoked
    → Ensures (IsDecision j file exported_at pins db) (decide lease exported_at db j a f revoked)
unfolding decide
decide-IsDecision lease file exported_at pins db j a f [] read stored here owned e =
    Ensures-then (λ after. get_job j.pk after ≡ done (completed_job f exported_at j))
      (IsDecision j file exported_at pins db) (complete_locked j a f exported_at db) _
      (completed-get_job j a f db stored exported_at)
      (λ after got. returns (published f read owned e got))
decide-IsDecision lease file exported_at pins db j a f (r ∷ rs) read stored here owned e =
    Ensures-weaken
      (λ (x : ExportDb × Option LeaseToken).
        (k : Job) × (get_job j.pk x.0 ≡ done k) × ((k ≡ j) ⊎ (k.state ≡ archiving)))
      (IsDecision j file exported_at pins db) (rotate_locked j a f (r ∷ rs) lease db)
      (λ x (k, got, what). rotated k owned (λ none_left. cc) got what)
      (rotated-get_job j a f db stored (r ∷ rs) lease here)

-- If the final fence returns, on tables that satisfy the invariant and under a lease that locks the job
-- `j`, then the owner is there no longer and the job has failed with the permission that changed; or the
-- owner is there and no included item is revoked, and the job is complete with the columns of
-- the file that the fence was called for; or an included item is revoked, and the job is as it was or is packed again. No archive
-- with a revoked item is published.
pub final_fence-IsDecision :
    (lease : LeaseToken) (held : Option LeaseToken) (attempt file exported_at : ℕ)
    (pins : List LivePin) (db : ExportDb) (j : Job)
    → IsExport db
    → lock_current_lease lease db ≡ done j
    → Ensures
        (IsDecision j file exported_at pins db)
        (final_fence lease held attempt file exported_at pins db)
unfolding final_fence final_decision
final_fence-IsDecision lease held attempt file exported_at pins db j h locked =
    let stored = locked-stored lease db locked in
    let here = locked-get_job lease db h locked in
    Ensures-refuse_if (not (same_token held (some lease))) lease_lost _ λ _. rw locked (
      Ensures-bind (get_attempt attempt db) _ λ a _. Ensures-bind (get_file file db) _ λ f read.
        if_cases (Ensures (IsDecision j file exported_at pins db)) (is_ownerless db j.owner_id)
          (record_owner_deleted j a f db >>= λ after. done (after, none)) _
          (λ gone.
            Ensures-then (λ after. get_job j.pk after ≡ done (ownerless_failure j))
              (IsDecision j file exported_at pins db) (record_owner_deleted j a f db) _
              (deleted-get_job j a f db stored) (λ after got. returns (ownerless gone got)))
          (λ owned.
            decide-IsDecision lease file exported_at pins db j a f
              (revoked_item_ids j true db.items pins) read stored here owned refl))
