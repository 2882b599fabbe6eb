-- ===== src/Tests/ExportData.antt =====
-- The tables that the examples for exports/services/ start from: an archive of user 1 that is verified
-- under the lease of worker 1, and a job of user 2 in the queue.
use svrx_pinry.Prelude.{refl, true, none, some, List, [], ◌∷◌, arith}
use svrx_pinry.Exports.Contracts.{queued, verifying, LeaseToken, WorkerLeaseToken}
use svrx_pinry.Exports.Tables.{
  Job, pins, cleaned, pending, ready_absent, OpenFileReceipt, Attempt, attempt_verifying,
  AttemptFile, archive, file_ready_candidate, WorkerLease, health_ready, Item, ExportDb,
}
use svrx_pinry.Exports.Constraints.{counters_valid, complete_valid, failed_valid, ready_valid}
use svrx_pinry.Exports.Permissions.{LivePin}
use svrx_pinry.Exports.Invariant.{
  candidate_ok, snapshot_ok, verifying_ok, error_ok, IsJob, slot_job, IsExport, led_ok,
}

abbrev pub queued_job : Job
queued_job = record {
  pk = 8;
  owner_id = some 2;
  scope = pins;
  state = queued;
  requested_total = 2;
  target_total = 2;
  snapshot_done = 0;
  archive_total = 0;
  archive_done = 0;
  included_total = 2;
  excluded_total = 0;
  excluded_not_visible_total = 0;
  excluded_permission_revoked_total = 0;
  bytes_total = 0;
  bytes_done = 0;
  created_at = 20;
  started_at = none;
  snapshot_at = none;
  completed_at = none;
  expires_at = none;
  heartbeat_at = none;
  progress_at = none;
  staging_cleanup_state = cleaned;
  ready_cleanup_state = ready_absent;
  snapshot_generation = none;
  candidate_snapshot_generation = none;
  lease_uuid = none;
  worker_generation = 0;
  lease_expires_at = none;
  attempt_generation = 1;
  verifying_receipt = none;
  resume_count = 0;
  error_code = none;
  error_class = none;
  error_retryable = none;
  ready = none;
}

abbrev pub verified_job : Job
verified_job = record queued_job {
  pk = 7;
  owner_id = some 1;
  state = verifying;
  snapshot_done = 2;
  archive_total = 2;
  archive_done = 2;
  bytes_total = 300;
  bytes_done = 300;
  created_at = 10;
  started_at = some 11;
  snapshot_at = some 12;
  heartbeat_at = some 30;
  progress_at = some 30;
  staging_cleanup_state = pending;
  snapshot_generation = some 5;
  lease_uuid = some 60;
  worker_generation = 1;
  lease_expires_at = some 60;
  verifying_receipt =
      some (record { attempt_generation = 1; size = 500; sha256 = 99; completed_at = 31 });
}

abbrev pub a_worker : WorkerLeaseToken
a_worker = record { worker_generation = 1; worker_lease_uuid = 50 }

abbrev pub a_lease : LeaseToken
a_lease = record {
  worker_generation = 1;
  worker_lease_uuid = 50;
  job_id = 7;
  job_lease_uuid = 60;
  attempt_generation = 1;
}

abbrev pub worker_row : WorkerLease
worker_row = record {
  generation = 1;
  lease_uuid = some 50;
  lease_expires_at = some 60;
  heartbeat_at = some 30;
  health_state = health_ready;
  error_code = none;
}

abbrev pub a_receipt : OpenFileReceipt
a_receipt = record { dev = 1; ino = 40; uid = 1000; gid = 1000; mode = 384; nlink = 1 }

abbrev pub an_attempt : Attempt
an_attempt = record {
  pk = 3;
  job = 7;
  attempt_generation = 1;
  lease_uuid = 60;
  state = attempt_verifying;
  directory = some (record { dev = 1; ino = 39; uid = 1000; gid = 1000; mode = 448 });
  exported_at = some 31;
}

abbrev pub a_file : AttemptFile
a_file = record {
  pk = 4;
  attempt = 3;
  kind = archive;
  state = file_ready_candidate;
  opened = a_receipt;
  full = some (record { size = 500; mtime_ns = 1; ctime_ns = 2 });
  receipt_sha256 = some 99;
}

abbrev pub an_item : Item
an_item = record {
  pk = 90;
  job = 7;
  pin_id = 21;
  pin_owner_id = 1;
  published_at = 2;
  included = true;
  blob_size = some 100;
}

abbrev pub foreign_item : Item
foreign_item = record an_item {
  pk = 91;
  pin_id = 22;
  pin_owner_id = 2;
  published_at = 3;
  blob_size = some 200;
}

abbrev pub a_db : ExportDb
a_db = record {
  users = 1 ∷ 2 ∷ [];
  worker = some worker_row;
  targets = [];
  jobs = verified_job ∷ queued_job ∷ [];
  items = an_item ∷ foreign_item ∷ [];
  blobs = [];
  attempts = an_attempt ∷ [];
  files = a_file ∷ [];
  slots =
      (record { owner = 1; current_job = some 7 })
      ∷ (record { owner = 2; current_job = some 8 })
      ∷ [];
}

-- The other user's pin has become private.
abbrev pub live_pins_now : List LivePin
live_pins_now =
    (record { pk = 21; submitter_id = 1; private = true; published = 2 })
    ∷ (record { pk = 22; submitter_id = 2; private = true; published = 3 })
    ∷ []

queued_job-IsJob : IsJob queued_job
unfolding counters_valid complete_valid failed_valid ready_valid candidate_ok snapshot_ok led_ok
    verifying_ok error_ok
queued_job-IsJob = record {
  counted = refl;
  completed = refl;
  failing = refl;
  readied = refl;
  candidate = refl;
  snapshotted = refl;
  verified = refl;
  led = refl;
  faultless = refl;
  resumed = refl;
}

pub verified_job-IsJob : IsJob verified_job
unfolding counters_valid complete_valid failed_valid ready_valid candidate_ok snapshot_ok led_ok
    verifying_ok error_ok
verified_job-IsJob = record {
  counted = refl;
  completed = refl;
  failing = refl;
  readied = refl;
  candidate = refl;
  snapshotted = refl;
  verified = refl;
  led = refl;
  faultless = refl;
  resumed = refl;
}

pub a_db-IsExport : IsExport a_db
unfolding slot_job
a_db-IsExport = record {
  rows = (verified_job-IsJob, (queued_job-IsJob, tt));
  slots = ((λ a u e. ground arith), ((λ a u e. ground arith), tt));
  distinct = (refl, (refl, tt));
  owners = (refl, (refl, tt));
}
