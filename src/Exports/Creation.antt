-- ===== src/Exports/Creation.antt =====
-- The creation of an export job, `JobService` of exports/services/jobs.py.
use svrx_pinry.Prelude.{
  ℕ, suc, Bool, true, false, not, ◌&&◌, ◌||◌, ◌+◌, Option, none, some, List, [], ◌∷◌, ◌++◌, ◌==◌,
  ltb, leb, opt_eq, is_none, String, any, contains, select, count, update, length, Result, done,
  refused, refuse_if, ◌>>=◌, if◌then◌else◌, map,
}
use svrx_pinry.Exports.Contracts.{
  queued, is_active, ErrorCode, invalid_target, active_export_exists, insufficient_space,
  export_worker_unavailable, export_storage_unsafe, ExportFault, request_error, integrity_error,
}
use svrx_pinry.Exports.Tables.{
  Scope, pins, board, pending, ReadyCleanup, ready_absent, ready_blocked, Job, Target, Slot,
  WorkerLease, Health, health_ready, ExportDb,
}
use svrx_pinry.Exports.Maintenance.{is_blocked}
use svrx_pinry.Exports.Removal.{delete_retired}
use svrx_pinry.Exports.Targets.{
  ExportSettings, TargetIdentity, BoardSnapshot, TargetRequest, TargetDb,
}
use svrx_pinry.Exports.Sizes.{CapturedTargets, ObservedTargets, capture_locked}

abbrev pub is_health_ready : Health → Bool
is_health_ready health_ready = true
is_health_ready h = false

-- `heartbeat_at > now - timedelta(seconds=15)`.
abbrev pub is_fresh : ℕ → Option ℕ → Bool
is_fresh now none = false
is_fresh now (some t) = ltb now (t + 15)

abbrev pub is_unsafe_code : Option ErrorCode → Bool
is_unsafe_code (some export_storage_unsafe) = true
is_unsafe_code c = false

-- `WorkerHealthService.require_available`, on the snapshot of the worker's row.
unfoldable pub require_available : ℕ → Option WorkerLease → Result ExportFault WorkerLease
unfolding refuse_if
require_available now none = refused (request_error export_worker_unavailable 503)
require_available now (some w) =
    refuse_if (not (is_health_ready w.health_state && is_fresh now w.heartbeat_at))
      (request_error
        (if is_unsafe_code w.error_code then export_storage_unsafe else export_worker_unavailable)
        503)
      (done w)

abbrev pub is_ready_blocked : ReadyCleanup → Bool
is_ready_blocked ready_blocked = true
is_ready_blocked s = false

-- `_owner_safety`, before the rest.
unfoldable pub owner_safety {ℓ} :
    {A : Type ℓ} → ℕ → ExportDb → Result ExportFault A → Result ExportFault A
unfolding refuse_if
owner_safety user db rest =
    let own = select (λ j. opt_eq j.owner_id (some user)) db.jobs in
    refuse_if
      (any (λ j. is_blocked j.staging_cleanup_state || is_ready_blocked j.ready_cleanup_state) own)
      (request_error export_storage_unsafe 503)
      (refuse_if (leb 3 (length own)) (request_error export_storage_unsafe 503) (
        refuse_if (any (λ j. is_active j.state) own) (request_error active_export_exists 409) rest))

abbrev pub scope_of : Option BoardSnapshot → Scope
scope_of none = pins
scope_of (some b) = board

-- `ExportJob.objects.create(...)`, the defaults of the model included.
unfoldable pub new_job : ℕ → ℕ → ℕ → CapturedTargets → Job
new_job pk user created_at c = record {
  pk = pk;
  owner_id = some user;
  scope = scope_of c.snapshot.board_of;
  state = queued;
  requested_total = c.snapshot.requested_total;
  target_total = length c.snapshot.identities;
  snapshot_done = 0;
  archive_total = 0;
  archive_done = 0;
  included_total = length c.snapshot.identities;
  excluded_total = c.snapshot.excluded_total;
  excluded_not_visible_total = c.snapshot.excluded_total;
  excluded_permission_revoked_total = 0;
  bytes_total = c.bytes_total;
  bytes_done = 0;
  created_at = created_at;
  started_at = none;
  snapshot_at = none;
  completed_at = none;
  expires_at = none;
  heartbeat_at = none;
  progress_at = none;
  staging_cleanup_state = pending;
  ready_cleanup_state = ready_absent;
  snapshot_generation = none;
  candidate_snapshot_generation = none;
  lease_uuid = none;
  worker_generation = 0;
  lease_expires_at = none;
  attempt_generation = 0;
  verifying_receipt = none;
  resume_count = 0;
  error_code = none;
  error_class = none;
  error_retryable = none;
  ready = none;
}

-- `bulk_create` of the targets, from a position on.
unfoldable pub new_targets : ℕ → ℕ → List TargetIdentity → List Target
new_targets job position [] = []
new_targets job position (i ∷ is) =
    (record {
      job = job;
      position = position;
      pin_id = i.pin_id;
      pin_owner_id_snapshot = some i.owner_id;
      pin_published_at_snapshot = some i.published;
    })
    ∷ new_targets job (suc position) is

-- `ExportSlot.objects.get_or_create(owner_id=...)`.
unfoldable pub ensure_slot : ℕ → List Slot → List Slot
ensure_slot user slots =
    if any (λ s. s.owner == user) slots
    then slots
    else (record { owner = user; current_job = none }) ∷ slots

abbrev pub is_free : ℕ → Slot → Bool
is_free user s = s.owner == user && is_none s.current_job

-- The writes of `_commit_locked`; the slot must be free, and the key one that no job has.
unfoldable pub write_job :
    ℕ → ℕ → ℕ → CapturedTargets → ExportDb → Result ExportFault (ExportDb × Job)
unfolding refuse_if new_job new_targets ensure_slot
write_job user pk created_at c db =
    let job = new_job pk user created_at c in
    let slots = ensure_slot user db.slots in
    refuse_if (not (count (is_free user) slots == 1)) (request_error active_export_exists 409) (
      refuse_if (contains pk (map (λ j. j.pk) db.jobs)) integrity_error (
        done (
          record db {
            jobs = job ∷ db.jobs;
            slots = update (is_free user) (λ s. record s { current_job = some pk }) slots;
            targets = db.targets ++ new_targets pk 0 c.snapshot.identities;
          },
          job,
        )))

-- `_commit_locked`, with the key of the new job, the worker's clock and the time of creation.
unfoldable pub commit_locked :
    (String → ℕ)
    → ExportSettings
    → ℕ
    → TargetRequest
    → ObservedTargets
    → ℕ
    → ℕ
    → ℕ
    → ℕ
    → TargetDb
    → ExportDb
    → Result ExportFault (ExportDb × Job)
unfolding refuse_if require_available delete_retired owner_safety capture_locked write_job
commit_locked encoded_size settings user request observed available pk health_now now source db =
    require_available health_now db.worker >>= λ _.
    refuse_if (not (contains user db.users)) (request_error invalid_target 404) (
      let kept = delete_retired user db in
      owner_safety user kept (
        capture_locked encoded_size settings user request observed source >>= λ c.
        refuse_if (length c.snapshot.identities == 0) (request_error invalid_target 400) (
          refuse_if (ltb available c.space_budget.required_bytes)
            (request_error insufficient_space 503) (write_job user pk now c kept))))
