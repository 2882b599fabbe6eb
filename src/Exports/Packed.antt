-- ===== src/Exports/Packed.antt =====
-- What the verification, the revocations and the completion of an archive keep of a job.
use svrx_pinry.Prelude.{ℕ, ◌≡◌, refl, true, Option, none, some, opt_eq, is_some, arith}
use svrx_pinry.Exports.Contracts.{
  JobState, queued, snapshotting, archiving, verifying, complete, failed, expired, LeaseToken,
}
use svrx_pinry.Exports.Tables.{Job, Verifying, OpenFileReceipt, FullReceipt, AttemptFile}
use svrx_pinry.Exports.Constraints.{
  counters_valid, complete_valid, failed_valid, ready_valid, is_retained,
}
use svrx_pinry.Exports.Attempts.{verifying_by, receipt_size, size_in}
use svrx_pinry.Exports.Publication.{Excluded, is_countable, without, rotated_job}
use svrx_pinry.Exports.Completion.{verifying_size, verifying_sha256, ready_from, completed_job}
use svrx_pinry.Exports.Invariant.{candidate_ok, snapshot_ok, verifying_ok, error_ok, IsJob, led_ok}

pub verifying_by-IsJob :
    (lease : LeaseToken) (size sha256 exported_at : ℕ) (j : Job)
    → j.state ≡ archiving
    → IsJob j
    → IsJob (verifying_by lease size sha256 exported_at j)
unfolding counters_valid complete_valid failed_valid ready_valid candidate_ok snapshot_ok led_ok
    verifying_ok error_ok
verifying_by-IsJob lease size sha256 exported_at j e h = record {
  counted = h.counted;
  completed = refl;
  failing = refl;
  readied = rw e at h.readied;
  candidate = rw e at h.candidate;
  snapshotted = rw e at h.snapshotted;
  verified = refl;
  led = rw e at h.led;
  faultless = rw e at h.faultless;
  resumed = h.resumed;
}

-- The revocations: a state that is active keeps its phase, since nothing is packed afterwards.
without-snapshot :
    (s : JobState) (snapshot : Option ℕ) (written bytes : ℕ)
    → snapshot_ok s snapshot written bytes ≡ true
    → snapshot_ok s snapshot 0 0 ≡ true
unfolding snapshot_ok
without-snapshot queued snapshot written bytes h = ground arith
without-snapshot snapshotting snapshot written bytes h = ground arith
without-snapshot archiving snapshot written bytes h = h
without-snapshot verifying snapshot written bytes h = h
without-snapshot complete snapshot written bytes h = h
without-snapshot failed snapshot written bytes h = refl
without-snapshot expired snapshot written bytes h = refl

pub without-IsJob :
    (e : Excluded) (j : Job) → is_countable j e ≡ true → IsJob j → IsJob (without e j)
unfolding counters_valid led_ok
without-IsJob e j c h =
    let counted = h.counted in
    record {
      counted = ground arith;
      completed = h.completed;
      failing = h.failing;
      readied = h.readied;
      candidate = h.candidate;
      snapshotted =
          without-snapshot j.state j.snapshot_generation j.archive_done j.bytes_done h.snapshotted;
      verified = h.verified;
      led = h.led;
      faultless = h.faultless;
      resumed = h.resumed;
    }

pub rotated_job-IsJob : (j : Job) → j.state ≡ verifying → IsJob j → IsJob (rotated_job j)
unfolding counters_valid complete_valid failed_valid ready_valid candidate_ok snapshot_ok led_ok
    verifying_ok error_ok
rotated_job-IsJob j e h = record {
  counted = h.counted;
  completed = refl;
  failing = refl;
  readied = rw e at h.readied;
  candidate = rw e at h.candidate;
  snapshotted = rw e at h.snapshotted;
  verified = refl;
  led = rw e at h.led;
  faultless = rw e at h.faultless;
  resumed = h.resumed;
}

-- The receipts of the verification are those of the file, so that the archive has one.
ready_from-some :
    (opened : OpenFileReceipt) (full : Option FullReceipt) (sha256 : Option ℕ)
    (v : Option Verifying)
    → is_some v ≡ true
    → opt_eq (size_in full) (verifying_size v) ≡ true
    → opt_eq sha256 (verifying_sha256 v) ≡ true
    → is_some (ready_from opened full sha256) ≡ true
unfolding ready_from
ready_from-some opened (some full) (some sha256) v s a b = refl
ready_from-some opened none sha256 (some v) s a b = cc
ready_from-some opened full none (some v) s a b = cc
ready_from-some opened full sha256 none s a b = cc

pub completed_job-IsJob :
    (f : AttemptFile) (exported_at : ℕ) (j : Job)
    → j.state ≡ verifying
    → opt_eq (receipt_size f) (verifying_size j.verifying_receipt) ≡ true
    → opt_eq f.receipt_sha256 (verifying_sha256 j.verifying_receipt) ≡ true
    → IsJob j
    → IsJob (completed_job f exported_at j)
unfolding completed_job counters_valid complete_valid is_retained failed_valid ready_valid led_ok
    candidate_ok snapshot_ok verifying_ok error_ok
completed_job-IsJob f exported_at j e size sha h =
    let counted = h.counted in
    let verified = rw e at h.verified in
    let ready =
      ready_from-some f.opened f.full f.receipt_sha256 j.verifying_receipt verified size sha in
    let faultless = rw e at h.faultless in
    record {
      counted = ground arith;
      completed = ground arith;
      failing = refl;
      readied = refl;
      candidate = rw e at h.candidate;
      snapshotted = rw e at h.snapshotted;
      verified = refl;
      led = rw e at h.led;
      faultless = faultless;
      resumed = h.resumed;
    }
