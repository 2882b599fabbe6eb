-- ===== src/Tests/Exports.antt =====
-- Examples for the theorems on exports/services/.
use svrx_pinry.Prelude.{
  ◌<◌, false, ℕ, ◌≡◌, ◌≢◌, ◌+◌, ◌*◌, refl, true, none, some, List, [], ◌∷◌, map, String,
  if◌then◌else◌, ◌&&◌, ◌==◌, select, arith, done, Ensures,
}
use svrx_pinry.Exports.Contracts.{LeaseToken}
use svrx_pinry.Exports.Tables.{ExportDb, save_job, ReadyReceipt}
use svrx_pinry.Exports.Queries.{lock_current_worker_lease, lock_current_lease}
use svrx_pinry.Exports.Worker.{acquire_worker_lease, is_claimable, claimed_by, claim_next_job}
use svrx_pinry.Exports.Chunks.{iter_chunks, chunks_of}
use svrx_pinry.Exports.Permissions.{is_revoked, revoked_item_ids, LivePin}
use svrx_pinry.Exports.Completion.{completed_job, final_fence}
use svrx_pinry.Exports.Downloads.{DownloadExpectation, PhysicalReceipt, final_authorize}
use svrx_pinry.Exports.Targets.{
  ExportSettings, TargetPin, TargetDb, for_pins, identity, TargetSnapshot, snapshot_targets,
}
use svrx_pinry.Exports.Sizes.{ObservedTargets, observe_snapshot, capture_locked, CapturedTargets}
use svrx_pinry.Exports.Retry.{
  IsBusyRound, returned, retry_database-returned, Try, gives, busy, unfinished, retry_database,
  retry_database-ends,
}
use svrx_pinry.Exports.Overtaken.{IsOvertaken, acquire_worker_lease-IsOvertaken}
use svrx_pinry.Exports.Claiming.{IsClaim, claim_next_job-IsClaim, claim_next_job-some}
use svrx_pinry.Exports.Chunked.{IsChunking, iter_chunks-IsChunking, chunks_of-iter_chunks}
use svrx_pinry.Exports.Revoked.{named_pin, revoked_item_ids-select}
use svrx_pinry.Exports.Counted.{IsCapture, capture_locked-IsCapture}
use svrx_pinry.Exports.Attempts.{get_attempt, get_file}
use svrx_pinry.Exports.Publishing.{IsVerified, IsPublished, final_fence-IsPublished}
use svrx_pinry.Exports.Recaptured.{capture_locked-observe_snapshot}
use svrx_pinry.Exports.Decisions.{IsDecision, final_fence-IsDecision}
use svrx_pinry.Exports.Authorized.{IsAuthorization, final_authorize-IsAuthorization}
use svrx_pinry.Tests.ExportData.{
  queued_job, verified_job, a_worker, a_lease, worker_row, a_receipt, an_attempt, a_file, an_item,
  foreign_item, a_db, live_pins_now, a_db-IsExport,
}

abbrev claimed_db : ExportDb
claimed_db = save_job (claimed_by a_worker 70 40 queued_job) a_db

acquire_worker_lease-IsOvertaken_example : IsOvertaken a_lease (acquire_worker_lease 51 90 a_db).0
unfolding acquire_worker_lease
acquire_worker_lease-IsOvertaken_example = acquire_worker_lease-IsOvertaken a_lease 51 90 a_db refl

final_fence-IsDecision_example :
    Ensures
      (IsDecision verified_job 4 31 live_pins_now a_db)
      (final_fence a_lease (some a_lease) 3 4 31 live_pins_now a_db)
unfolding lock_current_lease
final_fence-IsDecision_example =
    final_fence-IsDecision a_lease (some a_lease) 3 4 31 live_pins_now a_db verified_job
      a_db-IsExport refl

-- The archive once it is complete, with every pin still public.
abbrev complete_db : ExportDb
complete_db = save_job (completed_job a_file 31 verified_job) a_db

abbrev an_expectation : DownloadExpectation
an_expectation = record {
  job_id = 7;
  owner_id = 1;
  expires_at = some 86431;
  ready = (completed_job a_file 31 verified_job).ready;
}

abbrev a_sight : PhysicalReceipt
a_sight = record { file = a_receipt; size = 500; mtime_ns = 1; ctime_ns = 2 }

final_authorize-IsAuthorization_example :
    IsAuthorization an_expectation a_sight 100 101 live_pins_now complete_db
      (final_authorize an_expectation a_sight 100 101 live_pins_now complete_db)
final_authorize-IsAuthorization_example =
    final_authorize-IsAuthorization an_expectation a_sight 100 101 live_pins_now complete_db

claim_next_job-IsClaim_example :
    Ensures (IsClaim a_worker 70 40 a_db) (claim_next_job a_worker none 70 40 a_db)
claim_next_job-IsClaim_example = claim_next_job-IsClaim a_worker 70 40 a_db

claim_next_job-some_example :
    (after : ExportDb) × (lease : LeaseToken) × (claim_next_job a_worker none 70 40 a_db
      ≡ done (after, some lease))
unfolding lock_current_worker_lease is_claimable
claim_next_job-some_example = claim_next_job-some a_worker 70 40 a_db worker_row refl refl

abbrev a_size : String → ℕ
a_size s = 3

abbrev some_settings : ExportSettings
some_settings = record { fetch_max_bytes = 1000; space_min_margin_bytes = 50 }

abbrev a_target : TargetPin
a_target = record {
  pk = 21;
  submitter_id = 1;
  private = true;
  published = 2;
  image_id = 5;
  media_asset_id = none;
  storage_name = "a/b.png";
  content_sha256 = none;
  texts = "text" ∷ [];
}

abbrev some_targets : TargetDb
some_targets = record { rows = a_target ∷ []; boards = []; through = [] }

abbrev what_was_seen : ObservedTargets
what_was_seen =
    observe_snapshot some_settings (λ i. some 70)
      (record {
        board_of = none;
        identities = identity a_target ∷ [];
        requested_total = 1;
        excluded_total = 0;
        owned_private_total = 1;
        metadata_overhead = 98352;
      })

capture_locked-IsCapture_example :
    Ensures
      (IsCapture 1 some_targets some_settings what_was_seen)
      (capture_locked a_size some_settings 1 (for_pins (21 ∷ [])) what_was_seen some_targets)
capture_locked-IsCapture_example =
    capture_locked-IsCapture a_size some_settings 1 (for_pins (21 ∷ [])) what_was_seen some_targets

revoked_item_ids-select_example :
    revoked_item_ids verified_job true (an_item ∷ foreign_item ∷ []) live_pins_now
    ≡ map
        (λ i. i.pk)
        (select
          (λ i. is_revoked (some 1) i (named_pin live_pins_now i))
          (select (λ i. i.job == 7 && i.included) (an_item ∷ foreign_item ∷ [])))
revoked_item_ids-select_example =
    revoked_item_ids-select verified_job true (an_item ∷ foreign_item ∷ []) live_pins_now

iter_chunks-IsChunking_example :
    (chunks : List (List ℕ)) × (iter_chunks (4 ∷ 5 ∷ 6 ∷ []) 2 ≡ done chunks)
    × IsChunking (4 ∷ 5 ∷ 6 ∷ []) 2 chunks
iter_chunks-IsChunking_example = iter_chunks-IsChunking (4 ∷ 5 ∷ 6 ∷ []) 2 (omega arith)

chunks_of-iter_chunks_example :
    iter_chunks {A = ℕ} (4 ∷ 5 ∷ 6 ∷ []) 2 ≡ done (chunks_of (4 ∷ 5 ∷ 6 ∷ []) 2)
chunks_of-iter_chunks_example = chunks_of-iter_chunks (4 ∷ 5 ∷ 6 ∷ []) 2 (omega arith)

-- The database is busy for five rounds.
abbrev an_operation : ℕ → Try ℕ ℕ
an_operation n = if n == 5 then gives 1 else busy

retry_database-ends_example :
    retry_database 7 0 an_operation (λ n. none) (λ n. 100 + n * 10) 160 ≢ unfinished
retry_database-ends_example =
    retry_database-ends an_operation (λ n. none) (λ n. 100 + n * 10) 100 60 7 (omega arith)
      (λ n. omega arith) (omega arith)

-- Every pin is still public.
abbrev public_pins : List LivePin
public_pins =
    (record { pk = 21; submitter_id = 1; private = true; published = 2 })
    ∷ (record { pk = 22; submitter_id = 2; private = false; published = 3 })
    ∷ []

verified_job-IsVerified :
    IsVerified verified_job an_attempt a_file
      (record { attempt_generation = 1; size = 500; sha256 = 99; completed_at = 31 })
      (record { size = 500; mtime_ns = 1; ctime_ns = 2 })
      31
verified_job-IsVerified = record {
  job_state = refl;
  attempt_state = refl;
  file_state = refl;
  dated = refl;
  recorded = refl;
  received = refl;
  size = refl;
  digest = refl;
}

final_fence-IsPublished_example :
    (after : ExportDb) × (final_fence a_lease (some a_lease) 3 4 31 public_pins a_db
      ≡ done (after, none))
    × IsPublished verified_job a_file
        (record { attempt_generation = 1; size = 500; sha256 = 99; completed_at = 31 })
        (record { size = 500; mtime_ns = 1; ctime_ns = 2 })
        31
        after
unfolding lock_current_lease get_attempt get_file revoked_item_ids
final_fence-IsPublished_example =
    final_fence-IsPublished a_lease 3 4 31 1 public_pins a_db verified_job an_attempt a_file
      (record { attempt_generation = 1; size = 500; sha256 = 99; completed_at = 31 })
      (record { size = 500; mtime_ns = 1; ctime_ns = 2 }) refl refl refl verified_job-IsVerified
      refl refl refl

abbrev ready_receipt : ReadyReceipt
ready_receipt = record { size = 500; sha256 = 99; file = a_receipt; mtime_ns = 1; ctime_ns = 2 }

-- The rounds before the one that gives a value.
busy_rounds : (i : ℕ) → i < 5 → IsBusyRound an_operation (λ n. none) (λ n. 100 + n * 10) 160 i
busy_rounds i lt = record {
  occupied = ground (arith, lt);
  quiet = refl;
  early = ground (arith, lt);
}

retry_database-returned_example :
    retry_database 7 0 an_operation (λ n. none) (λ n. 100 + n * 10) 160 ≡ returned 1
retry_database-returned_example =
    retry_database-returned an_operation (λ n. none) (λ n. 100 + n * 10) 160 5 7 1 (omega arith)
      refl busy_rounds

abbrev a_snapshot : TargetSnapshot
a_snapshot = what_was_seen.snapshot

capture_locked-observe_snapshot_example :
    (c : CapturedTargets) × (capture_locked a_size some_settings 1
        (for_pins (21 ∷ []))
        (observe_snapshot some_settings (λ i. some 70) a_snapshot)
        some_targets
      ≡ done c)
    × (c.snapshot ≡ a_snapshot)
unfolding snapshot_targets observe_snapshot
capture_locked-observe_snapshot_example =
    capture_locked-observe_snapshot a_size some_settings (λ i. some 70) 1 (for_pins (21 ∷ []))
      some_targets a_snapshot refl
