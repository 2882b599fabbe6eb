-- ===== src/Exports/Worker.antt =====
-- The worker's lease and the claim of the next job, of exports/services/worker.py.
use svrx_pinry.Prelude.{
  ℕ, suc, Bool, not, ◌&&◌, ◌+◌, Option, none, some, ◌==◌, is_none, is_some, select, update, count,
  Result, done, refuse_if, ◌>>=◌, if◌then◌else◌,
}
use svrx_pinry.Exports.Contracts.{
  queued, snapshotting, archiving, same_state, WorkerLeaseToken, LeaseToken, ExportFault,
  lease_lost,
}
use svrx_pinry.Exports.Tables.{
  Job, WorkerLease, health_ready, health_stopped, ExportDb, save_job, has_unclean_attempt,
  has_current_attempt,
}
use svrx_pinry.Exports.Queries.{first_in, by_age, lock_current_worker_lease, job_fence}

-- `_worker_expiry`, with `WORKER_LEASE_SECONDS`.
abbrev pub worker_expiry : ℕ → ℕ
worker_expiry now = now + 30

abbrev pub next_generation : Option WorkerLease → ℕ
next_generation none = 1
next_generation (some w) = suc w.generation

-- `acquire_worker_lease`: the row is made with the defaults of the model where it is missing. The
-- compare-and-set on the generation is under the write fence, so that it updates the row it read.
unfoldable pub acquire_worker_lease : ℕ → ℕ → ExportDb → ExportDb × WorkerLeaseToken
acquire_worker_lease new_uuid now db =
    let generation = next_generation db.worker in
    (
      record db {
        worker = some (record {
          generation = generation;
          lease_uuid = some new_uuid;
          lease_expires_at = some (worker_expiry now);
          heartbeat_at = some now;
          health_state = health_ready;
          error_code = none;
        });
      },
      record { worker_generation = generation; worker_lease_uuid = new_uuid },
    )

-- `release_worker_lease`.
unfoldable pub release_worker_lease : WorkerLeaseToken → ℕ → ExportDb → Result ExportFault ExportDb
unfolding lock_current_worker_lease
release_worker_lease token now db = lock_current_worker_lease token db >>= λ w. done (record db {
  worker = some (record w {
    lease_uuid = none;
    lease_expires_at = none;
    heartbeat_at = some now;
    health_state = health_stopped;
    error_code = none;
  });
})

abbrev pub renewed : ℕ → Job → Job
renewed now j = record j { lease_expires_at = some (worker_expiry now); heartbeat_at = some now }

-- `LeaseHeartbeat._renew_once`, for the worker and the job that it holds.
unfoldable pub renew_once :
    WorkerLeaseToken → Option LeaseToken → ℕ → ExportDb → Result ExportFault ExportDb
unfolding lock_current_worker_lease refuse_if
renew_once worker token now db = lock_current_worker_lease worker db >>= λ w.
    let after = record db {
      worker = some (record w {
        lease_expires_at = some (worker_expiry now);
        heartbeat_at = some now;
        health_state = health_ready;
        error_code = none;
      });
    } in
    elim token [
      | none ↦ done after
      | some t ↦
          refuse_if (not (count (job_fence t) db.jobs == 1)) lease_lost
            (done (record after { jobs = update (job_fence t) (renewed now) db.jobs }))
    ]

-- `_new_job_token`, with the UUID that it draws.
abbrev pub new_job_token : WorkerLeaseToken → Job → ℕ → LeaseToken
new_job_token worker j new_uuid = record {
  worker_generation = worker.worker_generation;
  worker_lease_uuid = worker.worker_lease_uuid;
  job_id = j.pk;
  job_lease_uuid = new_uuid;
  attempt_generation = j.attempt_generation;
}

-- The filter of `claim_next_job`.
unfoldable pub is_claimable : ExportDb → Job → Bool
is_claimable db j =
    same_state j.state queued
    && (is_some j.owner_id
        && (is_none j.lease_uuid
            && (is_none j.candidate_snapshot_generation
                && (not (has_current_attempt db j) && not (has_unclean_attempt db j)))))

-- The columns that a claim writes.
abbrev pub claimed_by : WorkerLeaseToken → ℕ → ℕ → Job → Job
claimed_by worker new_uuid now j = record j {
  state = if is_some j.snapshot_generation then archiving else snapshotting;
  worker_generation = worker.worker_generation;
  lease_uuid = some new_uuid;
  lease_expires_at = some (worker_expiry now);
  heartbeat_at = some now;
  progress_at = some now;
  started_at = if is_none j.started_at then some now else j.started_at;
}

-- The job that `claim_next_job` takes, if there is one.
unfoldable pub take_claimed :
    WorkerLeaseToken → ℕ → ℕ → ExportDb → Option Job → ExportDb × Option LeaseToken
unfolding save_job
take_claimed worker new_uuid now db none = (db, none)
take_claimed worker new_uuid now db (some current) = (
  save_job (claimed_by worker new_uuid now current) db,
  some (new_job_token worker current new_uuid),
)

-- `claim_next_job`; the lease is what the heartbeat holds afterwards too.
unfoldable pub claim_next_job :
    WorkerLeaseToken
    → Option LeaseToken
    → ℕ
    → ℕ
    → ExportDb
    → Result ExportFault (ExportDb × Option LeaseToken)
unfolding lock_current_worker_lease first_in is_claimable take_claimed
claim_next_job worker held new_uuid now db =
    if is_some held
    then done (db, none)
    else lock_current_worker_lease worker db >>= λ _.
        done
          (take_claimed worker new_uuid now db (first_in by_age (select (is_claimable db) db.jobs)))
