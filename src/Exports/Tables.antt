-- ===== src/Exports/Tables.antt =====
-- The tables of exports/models.py: jobs, items, attempts, their files, slots and the worker's lease.
-- A receipt is written or emptied as a whole, which constraints of the tables say (`_all_or_none`);
-- it is one optional record. Times are seconds, UUIDs and digests are numbers.
use svrx_pinry.Prelude.{ℕ, Bool, true, false, not, ◌&&◌, Option, List, ◌==◌, update, any}
use svrx_pinry.Exports.Contracts.{JobState, ErrorClass, ErrorCode}

pub data Scope : Type 0 where
  pins : Scope
  board : Scope

pub data CleanupState : Type 0 where
  pending : CleanupState
  cleaned : CleanupState
  blocked : CleanupState

pub data ReadyCleanup : Type 0 where
  ready_absent : ReadyCleanup
  ready_retained : ReadyCleanup
  ready_pending : ReadyCleanup
  ready_cleaned : ReadyCleanup
  ready_blocked : ReadyCleanup

-- The columns `verifying_*`.
pub record Verifying : Type 0 where
  pub attempt_generation : ℕ
  pub size : ℕ
  pub sha256 : ℕ
  pub completed_at : ℕ

-- The columns of `ExportAttemptFile.receipt_*` that an open file has.
pub record OpenFileReceipt : Type 0 where
  pub dev : ℕ
  pub ino : ℕ
  pub uid : ℕ
  pub gid : ℕ
  pub mode : ℕ
  pub nlink : ℕ

abbrev pub same_receipt : OpenFileReceipt → OpenFileReceipt → Bool
same_receipt a b =
    a.dev == b.dev
    && (a.ino == b.ino
        && (a.uid == b.uid && (a.gid == b.gid && (a.mode == b.mode && a.nlink == b.nlink))))

-- The columns `ready_*` of a job. Its path and its name are made from the job's own columns.
pub record ReadyReceipt : Type 0 where
  pub size : ℕ
  pub sha256 : ℕ
  pub file : OpenFileReceipt
  pub mtime_ns : ℕ
  pub ctime_ns : ℕ

pub record Job : Type 0 where
  pub pk : ℕ
  pub owner_id : Option ℕ
  pub scope : Scope
  pub state : JobState
  pub requested_total : ℕ
  pub target_total : ℕ
  pub snapshot_done : ℕ
  pub archive_total : ℕ
  pub archive_done : ℕ
  pub included_total : ℕ
  pub excluded_total : ℕ
  pub excluded_not_visible_total : ℕ
  pub excluded_permission_revoked_total : ℕ
  pub bytes_total : ℕ
  pub bytes_done : ℕ
  pub created_at : ℕ
  pub started_at : Option ℕ
  pub snapshot_at : Option ℕ
  pub completed_at : Option ℕ
  pub expires_at : Option ℕ
  pub heartbeat_at : Option ℕ
  pub progress_at : Option ℕ
  pub staging_cleanup_state : CleanupState
  pub ready_cleanup_state : ReadyCleanup
  pub snapshot_generation : Option ℕ
  pub candidate_snapshot_generation : Option ℕ
  pub lease_uuid : Option ℕ
  pub worker_generation : ℕ
  pub lease_expires_at : Option ℕ
  pub attempt_generation : ℕ
  pub verifying_receipt : Option Verifying
  pub resume_count : ℕ
  pub error_code : Option ErrorCode
  pub error_class : Option ErrorClass
  pub error_retryable : Option Bool
  pub ready : Option ReadyReceipt

pub record Target : Type 0 where
  pub job : ℕ
  pub position : ℕ
  pub pin_id : ℕ
  pub pin_owner_id_snapshot : Option ℕ
  pub pin_published_at_snapshot : Option ℕ

pub record Item : Type 0 where
  pub pk : ℕ
  pub job : ℕ
  pub pin_id : ℕ
  pub pin_owner_id : ℕ
  pub published_at : ℕ
  pub included : Bool
  pub blob_size : Option ℕ

pub record Blob : Type 0 where
  pub pk : ℕ
  pub job : ℕ
  pub cleanup_state : CleanupState

pub data AttemptState : Type 0 where
  attempt_writing : AttemptState
  attempt_closed : AttemptState
  attempt_verifying : AttemptState
  attempt_published : AttemptState
  attempt_retiring : AttemptState
  attempt_cleaned : AttemptState

pub record DirectoryReceipt : Type 0 where
  pub dev : ℕ
  pub ino : ℕ
  pub uid : ℕ
  pub gid : ℕ
  pub mode : ℕ

abbrev pub same_directory : DirectoryReceipt → DirectoryReceipt → Bool
same_directory a b =
    a.dev == b.dev && (a.ino == b.ino && (a.uid == b.uid && (a.gid == b.gid && a.mode == b.mode)))

-- Its path is made from the job and the generation (`_attempt_name`).
pub record Attempt : Type 0 where
  pub pk : ℕ
  pub job : ℕ
  pub attempt_generation : ℕ
  pub lease_uuid : ℕ
  pub state : AttemptState
  pub directory : Option DirectoryReceipt
  pub exported_at : Option ℕ

pub data FileState : Type 0 where
  file_writing : FileState
  file_closed : FileState
  file_verifying : FileState
  file_publishing : FileState
  file_ready_candidate : FileState
  file_published : FileState
  file_retiring : FileState
  file_cleaned : FileState

pub data FileKind : Type 0 where
  archive : FileKind
  quarantine : FileKind

-- What a full receipt adds to that of an open file.
pub record FullReceipt : Type 0 where
  pub size : ℕ
  pub mtime_ns : ℕ
  pub ctime_ns : ℕ

pub record AttemptFile : Type 0 where
  pub pk : ℕ
  pub attempt : ℕ
  pub kind : FileKind
  pub state : FileState
  pub opened : OpenFileReceipt
  pub full : Option FullReceipt
  pub receipt_sha256 : Option ℕ

pub record Slot : Type 0 where
  pub owner : ℕ
  pub current_job : Option ℕ

pub data Health : Type 0 where
  health_starting : Health
  health_ready : Health
  health_failed : Health
  health_stopped : Health

-- The only row of `ExportWorkerLease`.
pub record WorkerLease : Type 0 where
  pub generation : ℕ
  pub lease_uuid : Option ℕ
  pub lease_expires_at : Option ℕ
  pub heartbeat_at : Option ℕ
  pub health_state : Health
  pub error_code : Option ErrorCode

pub record ExportDb : Type 0 where
  pub users : List ℕ
  pub worker : Option WorkerLease
  pub targets : List Target
  pub jobs : List Job
  pub items : List Item
  pub blobs : List Blob
  pub attempts : List Attempt
  pub files : List AttemptFile
  pub slots : List Slot

-- `job.save()`.
unfoldable pub save_job : Job → ExportDb → ExportDb
save_job job db = record db { jobs = update (λ j. j.pk == job.pk) (λ _. job) db.jobs }

abbrev pub is_cleaned : AttemptState → Bool
is_cleaned attempt_cleaned = true
is_cleaned s = false

-- `ExportAttempt.objects.filter(job=...).exclude(state="cleaned").exists()`.
abbrev pub has_unclean_attempt : ExportDb → Job → Bool
has_unclean_attempt db j = any (λ a. a.job == j.pk && not (is_cleaned a.state)) db.attempts

-- The attempt of the job's own generation exists.
abbrev pub has_current_attempt : ExportDb → Job → Bool
has_current_attempt db j =
    any (λ a. a.job == j.pk && a.attempt_generation == j.attempt_generation) db.attempts

-- The attempt of the job's own generation is cleaned.
abbrev pub has_current_tombstone : ExportDb → Job → Bool
has_current_tombstone db j =
    any (λ a. a.job == j.pk && (a.attempt_generation == j.attempt_generation && is_cleaned a.state))
      db.attempts
