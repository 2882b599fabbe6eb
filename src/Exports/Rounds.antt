-- ===== src/Exports/Rounds.antt =====
-- What the writes that end a round of work keep of a job: the way back to the queue, and its expiry.
use svrx_pinry.Prelude.{ℕ, ◌≡◌, refl, Bool, true, false, Option, none, some, leb, is_none, arith}
use svrx_pinry.Exports.Contracts.{
  JobState, queued, snapshotting, archiving, verifying, complete, failed, expired, is_active,
  ErrorCode, ErrorClass, WorkerLeaseToken,
}
use svrx_pinry.Exports.Tables.{Job}
use svrx_pinry.Exports.Constraints.{
  counters_valid, complete_valid, failed_valid, expired_cleanup, ready_valid,
}
use svrx_pinry.Exports.Failures.{released}
use svrx_pinry.Exports.Recovery.{is_working, is_repeated, reset_recovered_progress}
use svrx_pinry.Exports.Requeue.{Totals, next_attempt, queued_by}
use svrx_pinry.Exports.Maintenance.{expire_job}
use svrx_pinry.Exports.Invariant.{candidate_ok, snapshot_ok, verifying_ok, error_ok, IsJob, led_ok}
use svrx_pinry.Exports.Phases.{active-ready}
use svrx_pinry.Exports.Leased.{resumed-bound}

-- A job in the queue.
queued-IsJob :
    (j : Job)
    → j.state ≡ queued
    → counters_valid j ≡ true
    → is_none j.ready ≡ true
    → is_none j.candidate_snapshot_generation ≡ true
    → is_none j.lease_uuid ≡ true
    → snapshot_ok queued j.snapshot_generation j.archive_done j.bytes_done ≡ true
    → error_ok queued j.error_code j.error_class j.error_retryable ≡ true
    → leb j.resume_count 3 ≡ true
    → IsJob j
unfolding complete_valid failed_valid ready_valid candidate_ok snapshot_ok verifying_ok error_ok
    led_ok
queued-IsJob j e counted ready candidate unled snapshotted faultless resumed = record {
  counted = counted;
  completed = rw e refl;
  failing = rw e refl;
  readied = rw e ready;
  candidate = rw e candidate;
  snapshotted = rw e snapshotted;
  verified = rw e refl;
  led = rw e (ground (arith, unled));
  faultless = rw e faultless;
  resumed = resumed;
}

working-queued :
    (s : JobState) (snapshot : Option ℕ) (written bytes : ℕ)
    → is_working s ≡ true
    → snapshot_ok s snapshot written bytes ≡ true
    → snapshot_ok queued snapshot written bytes ≡ true
unfolding snapshot_ok
working-queued snapshotting snapshot written bytes w h = ground arith
working-queued archiving snapshot written bytes w h = rw h refl
working-queued queued snapshot written bytes w h = cc
working-queued verifying snapshot written bytes w h = cc
working-queued complete snapshot written bytes w h = cc
working-queued failed snapshot written bytes w h = cc
working-queued expired snapshot written bytes w h = cc

working-error :
    (s : JobState) (code : Option ErrorCode) (class : Option ErrorClass) (retry : Option Bool)
    → is_working s ≡ true
    → error_ok s code class retry ≡ true
    → error_ok queued code class retry ≡ true
unfolding error_ok
working-error queued code class retry w h = cc
working-error snapshotting code class retry w h = h
working-error archiving code class retry w h = h
working-error verifying code class retry w h = cc
working-error complete code class retry w h = cc
working-error failed code class retry w h = cc
working-error expired code class retry w h = cc

-- The way back to the queue, with another resume count and what goes with it.
pub queued_by-IsJob :
    (worker : WorkerLeaseToken) (now : ℕ) (totals : Totals) (j : Job)
    → is_working j.state ≡ true
    → is_active j.state ≡ true
    → is_none j.candidate_snapshot_generation ≡ true
    → is_repeated worker j ≡ false
    → IsJob j
    → IsJob (next_attempt totals (queued_by worker now j))
unfolding next_attempt reset_recovered_progress counters_valid snapshot_ok
queued_by-IsJob worker now none j w a c r h =
    queued-IsJob (queued_by worker now j) refl h.counted
      (active-ready j.state j.ready_cleanup_state j.ready a h.readied) c refl
      (working-queued j.state j.snapshot_generation j.archive_done j.bytes_done w h.snapshotted)
      (working-error j.state j.error_code j.error_class j.error_retryable w h.faultless)
      (resumed-bound worker j h.resumed r)
queued_by-IsJob worker now (some (totals, items)) j w a c r h =
    let counted = h.counted in
    queued-IsJob (next_attempt (some (totals, items)) (queued_by worker now j)) refl (ground arith)
      (active-ready j.state j.ready_cleanup_state j.ready a h.readied) c refl (ground arith)
      (working-error j.state j.error_code j.error_class j.error_retryable w h.faultless)
      (resumed-bound worker j h.resumed r)

pub handed-IsJob :
    (now : ℕ) (totals : Totals) (j : Job)
    → is_working j.state ≡ true
    → is_active j.state ≡ true
    → is_none j.candidate_snapshot_generation ≡ true
    → IsJob j
    → IsJob (record (next_attempt totals (released now j)) { state = queued })
unfolding next_attempt reset_recovered_progress counters_valid snapshot_ok
handed-IsJob now none j w a c h =
    queued-IsJob (record (released now j) { state = queued }) refl h.counted
      (active-ready j.state j.ready_cleanup_state j.ready a h.readied) c refl
      (working-queued j.state j.snapshot_generation j.archive_done j.bytes_done w h.snapshotted)
      (working-error j.state j.error_code j.error_class j.error_retryable w h.faultless) h.resumed
handed-IsJob now (some (totals, items)) j w a c h =
    let counted = h.counted in
    queued-IsJob (record (next_attempt (some (totals, items)) (released now j)) { state = queued })
      refl (ground arith) (active-ready j.state j.ready_cleanup_state j.ready a h.readied) c refl
      (ground arith)
      (working-error j.state j.error_code j.error_class j.error_retryable w h.faultless) h.resumed

-- A complete job that expires.
pub expire_job-IsJob : (j : Job) → j.state ≡ complete → IsJob j → IsJob (expire_job j)
unfolding counters_valid complete_valid failed_valid ready_valid expired_cleanup candidate_ok led_ok
    snapshot_ok verifying_ok error_ok
expire_job-IsJob j e h =
    let completed = rw e at h.completed in
    record {
      counted = h.counted;
      completed = refl;
      failing = refl;
      readied = ground arith;
      candidate = rw e at h.candidate;
      snapshotted = refl;
      verified = refl;
      led = rw e at h.led;
      faultless = rw e at h.faultless;
      resumed = h.resumed;
    }
