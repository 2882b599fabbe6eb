-- ===== src/Exports/Contracts.antt =====
-- The states, error codes and lease tokens of src/exports/contracts.py.
use svrx_pinry.Prelude.{ℕ, Bool, true, false, Option, none, some, ◌==◌, ◌&&◌}

pub data JobState : Type 0 where
  queued : JobState
  snapshotting : JobState
  archiving : JobState
  verifying : JobState
  complete : JobState
  failed : JobState
  expired : JobState

-- The alphabetical order of the names of the states, which `order_by("state", ...)` follows.
abbrev pub state_rank : JobState → ℕ
state_rank archiving = 0
state_rank complete = 1
state_rank expired = 2
state_rank failed = 3
state_rank queued = 4
state_rank snapshotting = 5
state_rank verifying = 6

abbrev pub same_state : JobState → JobState → Bool
same_state s t = state_rank s == state_rank t

-- `ACTIVE_STATES`; the other states are `TERMINAL_STATES`.
abbrev pub is_active : JobState → Bool
is_active queued = true
is_active snapshotting = true
is_active archiving = true
is_active verifying = true
is_active complete = false
is_active failed = false
is_active expired = false

pub data ErrorClass : Type 0 where
  retryable : ErrorClass
  operator_action_required : ErrorClass
  fatal : ErrorClass

abbrev pub same_class : ErrorClass → ErrorClass → Bool
same_class retryable retryable = true
same_class operator_action_required operator_action_required = true
same_class fatal fatal = true
same_class c d = false

pub data ErrorCode : Type 0 where
  invalid_target : ErrorCode
  active_export_exists : ErrorCode
  export_not_ready : ErrorCode
  source_missing : ErrorCode
  source_changed : ErrorCode
  source_unsafe : ErrorCode
  snapshot_failed : ErrorCode
  insufficient_space : ErrorCode
  archive_failed : ErrorCode
  permission_changed : ErrorCode
  all_items_revoked : ErrorCode
  worker_repeated_failure : ErrorCode
  export_worker_unavailable : ErrorCode
  export_temporarily_unavailable : ErrorCode
  export_storage_unsafe : ErrorCode
  export_expired : ErrorCode

-- The class and the flag `retryable` of `ERROR_CONTRACTS`.
abbrev pub error_contract : ErrorCode → ErrorClass × Bool
error_contract invalid_target = (fatal, false)
error_contract active_export_exists = (retryable, true)
error_contract export_not_ready = (retryable, true)
error_contract source_missing = (fatal, false)
error_contract source_changed = (retryable, true)
error_contract source_unsafe = (operator_action_required, false)
error_contract snapshot_failed = (retryable, true)
error_contract insufficient_space = (operator_action_required, true)
error_contract archive_failed = (retryable, true)
error_contract permission_changed = (fatal, false)
error_contract all_items_revoked = (fatal, false)
error_contract worker_repeated_failure = (operator_action_required, true)
error_contract export_worker_unavailable = (retryable, true)
error_contract export_temporarily_unavailable = (retryable, true)
error_contract export_storage_unsafe = (operator_action_required, false)
error_contract export_expired = (fatal, false)

-- `code in JOB_ERROR_CODES`.
abbrev pub is_job_code : ErrorCode → Bool
is_job_code source_missing = true
is_job_code source_changed = true
is_job_code source_unsafe = true
is_job_code snapshot_failed = true
is_job_code insufficient_space = true
is_job_code archive_failed = true
is_job_code permission_changed = true
is_job_code all_items_revoked = true
is_job_code worker_repeated_failure = true
is_job_code export_storage_unsafe = true
is_job_code c = false

pub record WorkerLeaseToken : Type 0 where
  pub worker_generation : ℕ
  pub worker_lease_uuid : ℕ

pub record LeaseToken : Type 0 where
  pub worker_generation : ℕ
  pub worker_lease_uuid : ℕ
  pub job_id : ℕ
  pub job_lease_uuid : ℕ
  pub attempt_generation : ℕ

abbrev pub worker_of : LeaseToken → WorkerLeaseToken
worker_of t = record {
  worker_generation = t.worker_generation;
  worker_lease_uuid = t.worker_lease_uuid;
}

-- The exceptions that the operations on jobs end in. A request's error has a code and a status;
-- `integrity_error` is what the database raises where a row would break a constraint.
pub data ExportFault : Type 0 where
  lease_lost : ExportFault
  does_not_exist : ExportFault
  export_error : ErrorCode → ExportFault
  storage_error : ErrorCode → ExportFault
  request_error : ErrorCode → ℕ → ExportFault
  target_identity_changed : ExportFault
  integrity_error : ExportFault
  fence_busy : ExportFault
  fence_deadline : ExportFault
  chunk_size_must_be_positive : ExportFault

-- Equality of tokens, as the dataclass has it, where None is another value.
abbrev pub same_token : Option LeaseToken → Option LeaseToken → Bool
same_token none none = true
same_token none (some u) = false
same_token (some t) none = false
same_token (some t) (some u) =
    t.worker_generation == u.worker_generation
    && (t.worker_lease_uuid == u.worker_lease_uuid
        && (t.job_id == u.job_id
            && (t.job_lease_uuid == u.job_lease_uuid
                && t.attempt_generation == u.attempt_generation)))
