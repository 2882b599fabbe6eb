-- ===== src/Exports/Maintenance.antt =====
-- The maintenance of jobs by the worker, of exports/services/worker.py: leases on complete jobs,
-- jobs without an owner, expiry and the deletion of what is cleaned up.
use svrx_pinry.Prelude.{
  ℕ, zero, suc, Bool, true, false, not, ◌&&◌, ◌||◌, Option, none, some, List, [], ◌∷◌, map, ◌==◌,
  leb, is_none, is_some, contains, select, update, any, Result, done, refuse_if, ◌>>=◌,
  if◌then◌else◌,
}
use svrx_pinry.Exports.Contracts.{
  complete, expired, same_state, is_active, permission_changed, WorkerLeaseToken, LeaseToken,
  ExportFault, lease_lost,
}
use svrx_pinry.Exports.Constraints.{is_retained}
use svrx_pinry.Exports.Tables.{
  Job, CleanupState, pending, cleaned, blocked, ReadyCleanup, ready_absent, ready_pending,
  ready_cleaned, ExportDb, save_job,
}
use svrx_pinry.Exports.Queries.{first_in, by_age, by_state, lock_current_worker_lease}
use svrx_pinry.Exports.Failures.{fail_locked}
use svrx_pinry.Exports.Worker.{worker_expiry, new_job_token, renewed}

abbrev pub is_pending : CleanupState → Bool
is_pending pending = true
is_pending s = false

abbrev pub is_blocked : CleanupState → Bool
is_blocked blocked = true
is_blocked s = false

-- The filter of `claim_complete_maintenance`.
abbrev pub is_maintained : Job → Bool
is_maintained j =
    same_state j.state complete
    && ((is_pending j.staging_cleanup_state
          || is_blocked j.staging_cleanup_state
          || is_some j.lease_uuid)
        && not (is_blocked j.staging_cleanup_state))

-- The columns that a new lease writes.
abbrev pub leased_by : WorkerLeaseToken → ℕ → ℕ → Job → Job
leased_by worker new_uuid now j = record j {
  worker_generation = worker.worker_generation;
  lease_uuid = some new_uuid;
  lease_expires_at = some (worker_expiry now);
  heartbeat_at = some now;
}

-- The lease that the worker has on the job already, if it has one.
abbrev pub own_lease : WorkerLeaseToken → Job → Option ℕ
own_lease worker j = if j.worker_generation == worker.worker_generation then j.lease_uuid else none

unfoldable pub lease_complete :
    WorkerLeaseToken → ℕ → ℕ → ExportDb → Job → Option ℕ → ExportDb × Option LeaseToken
unfolding save_job
lease_complete worker new_uuid now db j none =
    (save_job (leased_by worker new_uuid now j) db, some (new_job_token worker j new_uuid))
lease_complete worker new_uuid now db j (some uuid) =
    (save_job (renewed now j) db, some (new_job_token worker j uuid))

unfoldable pub take_maintained :
    WorkerLeaseToken → ℕ → ℕ → ExportDb → Option Job → ExportDb × Option LeaseToken
unfolding lease_complete
take_maintained worker new_uuid now db none = (db, none)
take_maintained worker new_uuid now db (some j) =
    lease_complete worker new_uuid now db j (own_lease worker j)

-- `claim_complete_maintenance`; the heartbeat does not take the lease.
unfoldable pub claim_complete_maintenance :
    WorkerLeaseToken
    → Option LeaseToken
    → ℕ
    → ℕ
    → ExportDb
    → Result ExportFault (ExportDb × Option LeaseToken)
unfolding refuse_if lock_current_worker_lease first_in take_maintained
claim_complete_maintenance worker held new_uuid now db = refuse_if (is_some held) lease_lost (
    lock_current_worker_lease worker db >>= λ _.
    done (take_maintained worker new_uuid now db (first_in by_age (select is_maintained db.jobs))))

unfoldable pub terminalize_first :
    WorkerLeaseToken → ℕ → ExportDb → Option Job → Result ExportFault (ExportDb × Bool)
unfolding fail_locked
terminalize_first worker now db none = done (db, false)
terminalize_first worker now db (some j) =
    fail_locked j.pk permission_changed worker none now db >>= λ after. done (after, true)

-- `_terminalize_ownerless_active`.
unfoldable pub terminalize_ownerless_active :
    WorkerLeaseToken → ℕ → ExportDb → Result ExportFault (ExportDb × Bool)
unfolding lock_current_worker_lease first_in terminalize_first
terminalize_ownerless_active worker now db = lock_current_worker_lease worker db >>= λ _.
    terminalize_first worker now db
      (first_in by_state (select (λ j. is_none j.owner_id && is_active j.state) db.jobs))

-- `list(...order_by(...)[:n])`.
unfoldable pub insert_in {ℓ} : {A : Type ℓ} → (A → A → Bool) → A → List A → List A
insert_in before x [] = x ∷ []
insert_in before x (y ∷ ys) =
    let rest = insert_in before x ys in if before y x then y ∷ rest else x ∷ y ∷ ys

unfoldable pub sort_in {ℓ} : {A : Type ℓ} → (A → A → Bool) → List A → List A
unfolding insert_in
sort_in before [] = []
sort_in before (x ∷ xs) = insert_in before x (sort_in before xs)

unfoldable pub first_of {ℓ} : {A : Type ℓ} → ℕ → List A → List A
first_of zero xs = []
first_of (suc n) [] = []
first_of (suc n) (x ∷ xs) = x ∷ first_of n xs

-- The filter of `_expire_complete_jobs`.
unfoldable pub is_due : ℕ → Job → Bool
unfolding is_retained
is_due now j =
    same_state j.state complete
    && (is_retained j.ready_cleanup_state
        && (elim j.expires_at [ none ↦ false | some t ↦ leb t now ] || is_none j.owner_id))

-- The columns that an expiry writes, here and in exports/services/archive.py and download.py.
abbrev pub expire_job : Job → Job
expire_job j = record j { state = expired; ready_cleanup_state = ready_pending }

-- `_expire_complete_jobs`, with `MAINTENANCE_BATCH_SIZE`. The jobs are rows that it has locked.
unfoldable pub expire_complete_jobs : WorkerLeaseToken → ℕ → ExportDb → Result ExportFault ExportDb
unfolding lock_current_worker_lease first_of sort_in is_due
expire_complete_jobs worker now db = lock_current_worker_lease worker db >>= λ _.
    let pks = map (λ j. j.pk) (first_of 100 (sort_in by_age (select (is_due now) db.jobs))) in
    done (record db { jobs = update (λ j. is_due now j && contains j.pk pks) expire_job db.jobs })

abbrev pub is_removed : ReadyCleanup → Bool
is_removed ready_absent = true
is_removed ready_cleaned = true
is_removed s = false

abbrev pub is_clean : CleanupState → Bool
is_clean cleaned = true
is_clean s = false

abbrev pub has_unclean_blob : ExportDb → Job → Bool
has_unclean_blob db j = any (λ b. b.job == j.pk && not (is_clean b.cleanup_state)) db.blobs
