-- ===== src/Exports/Invariant.antt =====
-- What is true of the tables of the exports: the constraints on every job, the phase that its columns
-- are in, and the slot that an active job holds.
use svrx_pinry.Prelude.{
  ℕ, ◌≡◌, Bool, true, ◌&&◌, ◌||◌, Option, none, some, List, [], ◌∷◌, map, ◌==◌, leb, is_none,
  is_some, if◌then◌else◌, All,
}
use svrx_pinry.Order.Positions.{Distinct}
use svrx_pinry.Exports.Contracts.{
  JobState, queued, snapshotting, archiving, verifying, complete, failed, is_active, ErrorCode,
  ErrorClass,
}
use svrx_pinry.Exports.Tables.{Job, Verifying, Slot, ExportDb}
use svrx_pinry.Exports.Constraints.{counters_valid, complete_valid, failed_valid, ready_valid}

-- A candidate snapshot belongs to a job that is taking its snapshot, or to a failed one with no lease.
unfoldable pub candidate_ok : JobState → Option ℕ → Option ℕ → Bool
candidate_ok snapshotting candidate lease = true
candidate_ok failed candidate lease = is_none candidate || is_none lease
candidate_ok s candidate lease = is_none candidate

-- A job that is packed, verified or complete has a snapshot, and before there is one nothing is packed.
unfoldable pub snapshot_ok : JobState → Option ℕ → ℕ → ℕ → Bool
snapshot_ok queued snapshot written bytes = is_some snapshot || (written == 0 && bytes == 0)
snapshot_ok snapshotting snapshot written bytes = is_none snapshot && (written == 0 && bytes == 0)
snapshot_ok archiving snapshot written bytes = is_some snapshot
snapshot_ok verifying snapshot written bytes = is_some snapshot
snapshot_ok complete snapshot written bytes = is_some snapshot
snapshot_ok s snapshot written bytes = true

-- A lease is on a job that takes its snapshot or has one.
unfoldable pub led_ok : JobState → Option ℕ → Option ℕ → Bool
led_ok snapshotting lease snapshot = true
led_ok s lease snapshot = is_none lease || is_some snapshot

unfoldable pub verifying_ok : JobState → Option Verifying → Bool
verifying_ok verifying v = is_some v
verifying_ok s v = true

-- Only a failed job has an error.
unfoldable pub error_ok : JobState → Option ErrorCode → Option ErrorClass → Option Bool → Bool
error_ok failed code class retry = true
error_ok s code class retry = is_none code && (is_none class && is_none retry)

-- A job as its table and its phases allow it, that was taken over three times at most.
pub record IsJob (j : Job) : Type 0 where
  pub counted : counters_valid j ≡ true
  pub completed :
      complete_valid j.state j.ready_cleanup_state j.completed_at j.expires_at j.ready j.error_code
        j.error_class j.error_retryable
      ≡ true
  pub failing : failed_valid j.state j.error_code j.error_class j.error_retryable ≡ true
  pub readied : ready_valid j.state j.ready_cleanup_state j.ready ≡ true
  pub candidate : candidate_ok j.state j.candidate_snapshot_generation j.lease_uuid ≡ true
  pub snapshotted : snapshot_ok j.state j.snapshot_generation j.archive_done j.bytes_done ≡ true
  pub led : led_ok j.state j.lease_uuid j.snapshot_generation ≡ true
  pub verified : verifying_ok j.state j.verifying_receipt ≡ true
  pub faultless : error_ok j.state j.error_code j.error_class j.error_retryable ≡ true
  pub resumed : leb j.resume_count 3 ≡ true

-- The job that a user's slot names.
unfoldable pub slot_job : ℕ → List Slot → Option ℕ
slot_job user [] = none
slot_job user (s ∷ slots) =
    let rest = slot_job user slots in if s.owner == user then s.current_job else rest

-- An active job that has an owner is the one in the owner's slot.
abbrev pub HoldsSlot : List Slot → Job → Type 0
HoldsSlot slots j =
    is_active j.state ≡ true → (u : ℕ) → j.owner_id ≡ some u → slot_job u slots ≡ some j.pk

pub record IsExport (db : ExportDb) : Type 0 where
  pub rows : All IsJob db.jobs
  pub slots : All (HoldsSlot db.slots) db.jobs
  pub distinct : Distinct (map (λ j. j.pk) db.jobs)
  pub owners : Distinct (map (λ s. s.owner) db.slots)
