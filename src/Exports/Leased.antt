-- ===== src/Exports/Leased.antt =====
-- What another lease keeps of a job's constraints and its phase: the claims, the takeovers and the
-- maintenance of exports/services/worker.py.
use svrx_pinry.Prelude.{
  ℕ, ◌≡◌, refl, Bool, true, false, ◌&&◌, Option, none, some, leb, is_none, is_some, if◌then◌else◌,
  if_cases, arith, ◌||◌,
}
use svrx_pinry.Exports.Contracts.{
  JobState, queued, snapshotting, archiving, verifying, complete, failed, expired, same_state,
  ErrorCode, ErrorClass, WorkerLeaseToken,
}
use svrx_pinry.Exports.Tables.{Job, Verifying, ReadyCleanup, ReadyReceipt}
use svrx_pinry.Exports.Constraints.{counters_valid, complete_valid, failed_valid, ready_valid}
use svrx_pinry.Exports.Worker.{claimed_by}
use svrx_pinry.Exports.Recovery.{resumed_by, resumes, is_repeated, is_working}
use svrx_pinry.Exports.Maintenance.{leased_by}
use svrx_pinry.Exports.Invariant.{candidate_ok, snapshot_ok, verifying_ok, error_ok, IsJob, led_ok}
use svrx_pinry.Exports.Phases.{active-ready}

-- Another lease on a job that is active or complete.
leased-candidate :
    (s : JobState) (candidate lease next : Option ℕ)
    → same_state s failed ≡ false
    → candidate_ok s candidate lease ≡ true
    → candidate_ok s candidate next ≡ true
unfolding candidate_ok
leased-candidate queued candidate lease next a h = h
leased-candidate snapshotting candidate lease next a h = refl
leased-candidate archiving candidate lease next a h = h
leased-candidate verifying candidate lease next a h = h
leased-candidate complete candidate lease next a h = h
leased-candidate failed candidate lease next a h = cc
leased-candidate expired candidate lease next a h = h

-- A job that is in the queue with no candidate is claimed.
claimed-candidate :
    (b : Bool) (candidate lease : Option ℕ)
    → is_none candidate ≡ true
    → candidate_ok (if b then archiving else snapshotting) candidate lease ≡ true
unfolding candidate_ok
claimed-candidate true candidate lease h = h
claimed-candidate false candidate lease h = refl

claimed-snapshot :
    (snapshot : Option ℕ) (written bytes : ℕ)
    → snapshot_ok queued snapshot written bytes ≡ true
    → snapshot_ok (if is_some snapshot then archiving else snapshotting) snapshot written bytes
      ≡ true
unfolding snapshot_ok
claimed-snapshot none written bytes h = h
claimed-snapshot (some n) written bytes h = refl

claimed-led :
    (snapshot : Option ℕ) (uuid : ℕ)
    → led_ok (if is_some snapshot then archiving else snapshotting) (some uuid) snapshot ≡ true
unfolding led_ok
claimed-led none uuid = refl
claimed-led (some n) uuid = refl

-- A job that a worker works on can have a lease.
working-led :
    (s : JobState) (snapshot : Option ℕ) (written bytes : ℕ) (lease : Option ℕ)
    → (is_working s || same_state s verifying) ≡ true
    → snapshot_ok s snapshot written bytes ≡ true
    → led_ok s lease snapshot ≡ true
unfolding led_ok snapshot_ok
working-led queued snapshot written bytes lease w h = cc
working-led snapshotting snapshot written bytes lease w h = refl
working-led archiving snapshot written bytes lease w h = ground arith
working-led verifying snapshot written bytes lease w h = ground arith
working-led complete snapshot written bytes lease w h = cc
working-led failed snapshot written bytes lease w h = cc
working-led expired snapshot written bytes lease w h = cc

module _ (b : Bool) where
  working_complete :
      (cleanup : ReadyCleanup) (c e : Option ℕ) (r : Option ReadyReceipt) (code : Option ErrorCode)
      (class : Option ErrorClass) (retry : Option Bool)
      → complete_valid (if b then archiving else snapshotting) cleanup c e r code class retry ≡ true
  unfolding complete_valid
  working_complete cleanup c e r code class retry =
      if_cases (λ s. complete_valid s cleanup c e r code class retry ≡ true) b _ _ (λ _. refl)
        (λ _. refl)

  working_failed :
      (code : Option ErrorCode) (class : Option ErrorClass) (retry : Option Bool)
      → failed_valid (if b then archiving else snapshotting) code class retry ≡ true
  unfolding failed_valid
  working_failed code class retry =
      if_cases (λ s. failed_valid s code class retry ≡ true) b _ _ (λ _. refl) (λ _. refl)

  working_ready :
      (cleanup : ReadyCleanup) (r : Option ReadyReceipt)
      → is_none r ≡ true
      → ready_valid (if b then archiving else snapshotting) cleanup r ≡ true
  unfolding ready_valid
  working_ready cleanup r h = if_cases (λ s. ready_valid s cleanup r ≡ true) b _ _ (λ _. h) (λ _. h)

  working_error :
      (code : Option ErrorCode) (class : Option ErrorClass) (retry : Option Bool)
      → (is_none code && (is_none class && is_none retry)) ≡ true
      → error_ok (if b then archiving else snapshotting) code class retry ≡ true
  unfolding error_ok
  working_error code class retry h =
      if_cases (λ s. error_ok s code class retry ≡ true) b _ _ (λ _. h) (λ _. h)

  working_verifying :
      (v : Option Verifying) → verifying_ok (if b then archiving else snapshotting) v ≡ true
  unfolding verifying_ok
  working_verifying v = if_cases (λ s. verifying_ok s v ≡ true) b _ _ (λ _. refl) (λ _. refl)

pub claimed_by-IsJob :
    (worker : WorkerLeaseToken) (new_uuid now : ℕ) (j : Job)
    → j.state ≡ queued
    → is_none j.candidate_snapshot_generation ≡ true
    → IsJob j
    → IsJob (claimed_by worker new_uuid now j)
unfolding counters_valid error_ok led_ok
claimed_by-IsJob worker new_uuid now j e c h =
    let archives = is_some j.snapshot_generation in
    record {
      counted = h.counted;
      completed =
          working_complete archives j.ready_cleanup_state j.completed_at j.expires_at j.ready
            j.error_code j.error_class j.error_retryable;
      failing = working_failed archives j.error_code j.error_class j.error_retryable;
      readied =
          working_ready archives j.ready_cleanup_state j.ready
            (active-ready j.state j.ready_cleanup_state j.ready (rw e refl) h.readied);
      candidate = claimed-candidate archives j.candidate_snapshot_generation (some new_uuid) c;
      snapshotted =
          claimed-snapshot j.snapshot_generation j.archive_done j.bytes_done
            (rw e at h.snapshotted);
      verified = working_verifying archives j.verifying_receipt;
      led = claimed-led j.snapshot_generation new_uuid;
      faultless =
          working_error archives j.error_code j.error_class j.error_retryable (rw e at h.faultless);
      resumed = h.resumed;
    }

-- A takeover that is not the fourth.
pub resumed-bound :
    (worker : WorkerLeaseToken) (j : Job)
    → leb j.resume_count 3 ≡ true
    → is_repeated worker j ≡ false
    → leb (resumes worker j) 3 ≡ true
resumed-bound worker j h r = ground arith

pub resumed_by-IsJob :
    (worker : WorkerLeaseToken) (new_uuid now : ℕ) (j : Job)
    → same_state j.state failed ≡ false
    → (is_working j.state || same_state j.state verifying) ≡ true
    → is_repeated worker j ≡ false
    → IsJob j
    → IsJob (resumed_by worker new_uuid now j)
unfolding counters_valid led_ok
resumed_by-IsJob worker new_uuid now j a w r h = record {
  counted = h.counted;
  completed = h.completed;
  failing = h.failing;
  readied = h.readied;
  candidate =
      leased-candidate j.state j.candidate_snapshot_generation j.lease_uuid (some new_uuid) a
        h.candidate;
  snapshotted = h.snapshotted;
  verified = h.verified;
  led =
      working-led j.state j.snapshot_generation j.archive_done j.bytes_done (some new_uuid) w
        h.snapshotted;
  faultless = h.faultless;
  resumed = resumed-bound worker j h.resumed r;
}

pub leased_by-IsJob :
    (worker : WorkerLeaseToken) (new_uuid now : ℕ) (j : Job)
    → j.state ≡ complete
    → IsJob j
    → IsJob (leased_by worker new_uuid now j)
unfolding counters_valid led_ok snapshot_ok
leased_by-IsJob worker new_uuid now j e h = record {
  counted = h.counted;
  completed = h.completed;
  failing = h.failing;
  readied = h.readied;
  candidate =
      leased-candidate j.state j.candidate_snapshot_generation j.lease_uuid (some new_uuid)
        (rw e refl) h.candidate;
  snapshotted = h.snapshotted;
  verified = h.verified;
  led = rw e (ground (arith, rw e at h.snapshotted));
  faultless = h.faultless;
  resumed = h.resumed;
}
