-- ===== src/Exports/Queries.antt =====
-- Queries on the tables of the exports: `first()` of an ordered filter, `get`, and the fences of
-- exports/contracts.py.
use svrx_pinry.Prelude.{
  ℕ, Bool, not, ◌&&◌, ◌||◌, Option, none, some, List, [], ◌∷◌, ◌==◌, ltb, opt_eq, find,
  if◌then◌else◌, Result, done, refused, refuse_if, ◌>>=◌,
}
use svrx_pinry.Exports.Contracts.{
  state_rank, WorkerLeaseToken, LeaseToken, worker_of, ExportFault, lease_lost, does_not_exist,
}
use svrx_pinry.Exports.Tables.{Job, WorkerLease, ExportDb}

-- The first row in an order; rows that the order does not tell apart stay as they stand.
unfoldable pub first_in {ℓ} : {A : Type ℓ} → (A → A → Bool) → List A → Option A
first_in before [] = none
first_in before (x ∷ xs) = elim (first_in before xs) [
  | none ↦ some x
  | some y ↦ if before y x then some y else some x
]

-- `order_by("created_at", "id")`.
abbrev pub by_age : Job → Job → Bool
by_age j k = ltb j.created_at k.created_at || (j.created_at == k.created_at && ltb j.pk k.pk)

-- `order_by("state", "created_at", "id")`.
abbrev pub by_state : Job → Job → Bool
by_state j k =
    ltb (state_rank j.state) (state_rank k.state)
    || (state_rank j.state == state_rank k.state && by_age j k)

-- `objects.get(...)`, where no row matches.
unfoldable pub get_or {ℓ} : {A : Type ℓ} → ExportFault → Option A → Result ExportFault A
get_or fault none = refused fault
get_or fault (some x) = done x

-- `_current_worker_lease`.
unfoldable pub lock_current_worker_lease :
    WorkerLeaseToken → ExportDb → Result ExportFault WorkerLease
unfolding get_or refuse_if
lock_current_worker_lease token db = get_or lease_lost db.worker >>= λ w.
    refuse_if
      (not (w.generation == token.worker_generation)
        || not (opt_eq w.lease_uuid (some token.worker_lease_uuid)))
      lease_lost (done w)

-- `LeaseToken.job_fence`, as a filter.
abbrev pub job_fence : LeaseToken → Job → Bool
job_fence token j =
    j.pk == token.job_id
    && (j.worker_generation == token.worker_generation
        && (opt_eq j.lease_uuid (some token.job_lease_uuid)
            && j.attempt_generation == token.attempt_generation))

unfoldable pub lock_current_lease : LeaseToken → ExportDb → Result ExportFault Job
unfolding get_or lock_current_worker_lease
lock_current_lease token db = lock_current_worker_lease (worker_of token) db >>= λ _.
    get_or lease_lost (find (job_fence token) db.jobs)

-- `ExportJob.objects.get(pk=...)`.
unfoldable pub get_job : ℕ → ExportDb → Result ExportFault Job
unfolding get_or
get_job pk db = get_or does_not_exist (find (λ j. j.pk == pk) db.jobs)
