-- ===== src/Exports/Published.antt =====
-- What the plan and the commit of a snapshot, the progress, the loss of the owner and the creation
-- keep of a job.
use svrx_pinry.Prelude.{ℕ, ◌≤◌, ◌≡◌, refl, true, ◌+◌, Option, none, some, is_some, arith, length}
use svrx_pinry.Exports.Contracts.{
  JobState, queued, snapshotting, archiving, verifying, complete, failed, expired,
}
use svrx_pinry.Exports.Tables.{Job}
use svrx_pinry.Exports.Constraints.{
  counters_valid, complete_valid, contract_valid, failed_valid, ready_valid,
}
use svrx_pinry.Exports.Completion.{ownerless_failure}
use svrx_pinry.Exports.Snapshots.{planned, finalized}
use svrx_pinry.Exports.Publication.{progressed}
use svrx_pinry.Exports.Creation.{new_job}
use svrx_pinry.Exports.Sizes.{CapturedTargets}
use svrx_pinry.Exports.Invariant.{candidate_ok, snapshot_ok, verifying_ok, error_ok, IsJob, led_ok}

-- A candidate under a lease belongs to a job that takes its snapshot.
pub candidate-snapshotting :
    (s : JobState) (candidate lease : Option ℕ)
    → is_some candidate ≡ true
    → is_some lease ≡ true
    → candidate_ok s candidate lease ≡ true
    → s ≡ snapshotting
unfolding candidate_ok
candidate-snapshotting snapshotting candidate lease c l h = refl
candidate-snapshotting failed (some c) (some l) _ _ h = cc
candidate-snapshotting queued (some c) lease _ l h = cc
candidate-snapshotting archiving (some c) lease _ l h = cc
candidate-snapshotting verifying (some c) lease _ l h = cc
candidate-snapshotting complete (some c) lease _ l h = cc
candidate-snapshotting expired (some c) lease _ l h = cc
candidate-snapshotting s none lease c l h = cc
candidate-snapshotting s candidate none c l h = cc

pub ownerless_failure-IsJob :
    (j : Job) → j.state ≡ verifying → IsJob j → IsJob (ownerless_failure j)
unfolding counters_valid complete_valid contract_valid failed_valid ready_valid candidate_ok led_ok
    snapshot_ok verifying_ok error_ok
ownerless_failure-IsJob j e h = record {
  counted = h.counted;
  completed = refl;
  failing = refl;
  readied = rw e at h.readied;
  candidate = ground arith;
  snapshotted = refl;
  verified = refl;
  led = refl;
  faultless = refl;
  resumed = h.resumed;
}

pub planned-IsJob :
    (generation : ℕ) (j : Job) → j.state ≡ snapshotting → IsJob j → IsJob (planned generation j)
unfolding counters_valid candidate_ok led_ok
planned-IsJob generation j e h = record {
  counted = h.counted;
  completed = h.completed;
  failing = h.failing;
  readied = h.readied;
  candidate = rw e refl;
  snapshotted = h.snapshotted;
  verified = h.verified;
  led = h.led;
  faultless = h.faultless;
  resumed = h.resumed;
}

pub finalized-IsJob :
    (generation snapshot_at included excluded bytes : ℕ) (j : Job)
    → j.state ≡ snapshotting
    → included ≤ j.requested_total
    → IsJob j
    → IsJob (finalized generation snapshot_at included excluded bytes j)
unfolding counters_valid complete_valid failed_valid ready_valid candidate_ok snapshot_ok led_ok
    verifying_ok error_ok
finalized-IsJob generation snapshot_at included excluded bytes j e le h =
    let counted = h.counted in
    let snapshotted = rw e at h.snapshotted in
    record {
      counted = ground arith;
      completed = refl;
      failing = refl;
      readied = rw e at h.readied;
      candidate = refl;
      snapshotted = refl;
      verified = refl;
      led = ground arith;
      faultless = rw e at h.faultless;
      resumed = h.resumed;
    }

pub progressed-IsJob :
    (written bytes now : ℕ) (j : Job)
    → j.state ≡ archiving
    → written ≤ j.archive_total
    → bytes ≤ j.bytes_total
    → IsJob j
    → IsJob (progressed written bytes now j)
unfolding counters_valid snapshot_ok led_ok
progressed-IsJob written bytes now j e a b h =
    let counted = h.counted in
    let snapshotted = rw e at h.snapshotted in
    record {
      counted = ground arith;
      completed = h.completed;
      failing = h.failing;
      readied = h.readied;
      candidate = h.candidate;
      snapshotted = rw e snapshotted;
      verified = h.verified;
      led = h.led;
      faultless = h.faultless;
      resumed = h.resumed;
    }

pub new_job-IsJob :
    (pk user now : ℕ) (c : CapturedTargets)
    → c.snapshot.requested_total ≡ length c.snapshot.identities + c.snapshot.excluded_total
    → IsJob (new_job pk user now c)
unfolding new_job counters_valid complete_valid failed_valid ready_valid candidate_ok snapshot_ok
    led_ok verifying_ok error_ok
new_job-IsJob pk user now c e = record {
  counted = ground arith;
  completed = refl;
  failing = refl;
  readied = refl;
  candidate = refl;
  snapshotted = refl;
  verified = refl;
  led = refl;
  faultless = refl;
  resumed = refl;
}
