-- ===== src/Exports/Phases.antt =====
-- What each write to a job keeps of its constraints and its phase.
use svrx_pinry.Prelude.{
  ℕ, zero, suc, ◌≡◌, refl, sym, ap, ◌∙◌, ==_iff, true, false, Option, none, some, is_none, arith,
}
use svrx_pinry.Exports.Contracts.{
  JobState, queued, snapshotting, archiving, verifying, complete, failed, expired, state_rank,
  same_state, is_active, ErrorCode, invalid_target, active_export_exists, export_not_ready,
  source_missing, source_changed, source_unsafe, snapshot_failed, insufficient_space,
  archive_failed, permission_changed, all_items_revoked, worker_repeated_failure,
  export_worker_unavailable, export_temporarily_unavailable, export_storage_unsafe, export_expired,
  error_contract, is_job_code,
}
use svrx_pinry.Exports.Tables.{Job, ReadyCleanup, ReadyReceipt, pending}
use svrx_pinry.Exports.Constraints.{
  counters_valid, complete_valid, contract_valid, failed_valid, ready_valid,
}
use svrx_pinry.Exports.Failures.{failed_with, released}
use svrx_pinry.Exports.Worker.{renewed}
use svrx_pinry.Exports.Recovery.{is_working}
use svrx_pinry.Exports.Invariant.{candidate_ok, snapshot_ok, verifying_ok, error_ok, IsJob, led_ok}

state_at : ℕ → JobState
state_at zero = archiving
state_at (suc zero) = complete
state_at (suc (suc zero)) = expired
state_at (suc (suc (suc zero))) = failed
state_at (suc (suc (suc (suc zero)))) = queued
state_at (suc (suc (suc (suc (suc zero))))) = snapshotting
state_at n = verifying

state_at-rank : (s : JobState) → state_at (state_rank s) ≡ s
unfolding state_at
state_at-rank queued = refl
state_at-rank snapshotting = refl
state_at-rank archiving = refl
state_at-rank verifying = refl
state_at-rank complete = refl
state_at-rank failed = refl
state_at-rank expired = refl

pub same_state-eq : (s t : JobState) → same_state s t ≡ true → s ≡ t
same_state-eq s t h =
    sym (state_at-rank s)
    ∙ ap state_at ((==_iff (state_rank s) (state_rank t)).0 h)
    ∙ state_at-rank t

-- An active job has no archive yet.
pub active-ready :
    (s : JobState) (cleanup : ReadyCleanup) (r : Option ReadyReceipt)
    → is_active s ≡ true
    → ready_valid s cleanup r ≡ true
    → is_none r ≡ true
unfolding ready_valid
active-ready queued cleanup r a h = h
active-ready snapshotting cleanup r a h = h
active-ready archiving cleanup r a h = h
active-ready verifying cleanup r a h = h
active-ready complete cleanup r a h = cc
active-ready failed cleanup r a h = cc
active-ready expired cleanup r a h = cc

contract-valid :
    (c : ErrorCode)
    → is_job_code c ≡ true
    → contract_valid (some c) (some (error_contract c).0) (some (error_contract c).1) ≡ true
unfolding contract_valid
contract-valid invalid_target h = cc
contract-valid active_export_exists h = cc
contract-valid export_not_ready h = cc
contract-valid source_missing h = refl
contract-valid source_changed h = refl
contract-valid source_unsafe h = refl
contract-valid snapshot_failed h = refl
contract-valid insufficient_space h = refl
contract-valid archive_failed h = refl
contract-valid permission_changed h = refl
contract-valid all_items_revoked h = refl
contract-valid worker_repeated_failure h = refl
contract-valid export_worker_unavailable h = cc
contract-valid export_temporarily_unavailable h = cc
contract-valid export_storage_unsafe h = refl
contract-valid export_expired h = cc

pub failed_with-IsJob :
    (code : ErrorCode) (now : ℕ) (j : Job)
    → is_job_code code ≡ true
    → is_active j.state ≡ true
    → IsJob j
    → IsJob (failed_with code now j)
unfolding counters_valid complete_valid failed_valid ready_valid candidate_ok snapshot_ok led_ok
    verifying_ok error_ok
failed_with-IsJob code now j c a h = record {
  counted = h.counted;
  completed = refl;
  failing = contract-valid code c;
  readied = active-ready j.state j.ready_cleanup_state j.ready a h.readied;
  candidate = ground arith;
  snapshotted = refl;
  verified = refl;
  led = refl;
  faultless = refl;
  resumed = h.resumed;
}

-- A lease that is given back.
released-candidate :
    (s : JobState) (candidate lease : Option ℕ)
    → candidate_ok s candidate lease ≡ true
    → candidate_ok s candidate none ≡ true
unfolding candidate_ok
released-candidate queued candidate lease h = h
released-candidate snapshotting candidate lease h = refl
released-candidate archiving candidate lease h = h
released-candidate verifying candidate lease h = h
released-candidate complete candidate lease h = h
released-candidate failed candidate lease h = ground arith
released-candidate expired candidate lease h = h

unled : (s : JobState) (snapshot : Option ℕ) → led_ok s none snapshot ≡ true
unfolding led_ok
unled queued snapshot = refl
unled snapshotting snapshot = refl
unled archiving snapshot = refl
unled verifying snapshot = refl
unled complete snapshot = refl
unled failed snapshot = refl
unled expired snapshot = refl

pub released-IsJob : (now : ℕ) (j : Job) → IsJob j → IsJob (released now j)
unfolding counters_valid led_ok
released-IsJob now j h = record {
  counted = h.counted;
  completed = h.completed;
  failing = h.failing;
  readied = h.readied;
  candidate = released-candidate j.state j.candidate_snapshot_generation j.lease_uuid h.candidate;
  snapshotted = h.snapshotted;
  verified = h.verified;
  led = unled j.state j.snapshot_generation;
  faultless = h.faultless;
  resumed = h.resumed;
}

pub renewed-IsJob : (now : ℕ) (j : Job) → IsJob j → IsJob (renewed now j)
unfolding counters_valid led_ok
renewed-IsJob now j h = record {
  counted = h.counted;
  completed = h.completed;
  failing = h.failing;
  readied = h.readied;
  candidate = h.candidate;
  snapshotted = h.snapshotted;
  verified = h.verified;
  led = h.led;
  faultless = h.faultless;
  resumed = h.resumed;
}

pub active-failed : (s : JobState) → is_active s ≡ true → same_state s failed ≡ false
active-failed queued a = refl
active-failed snapshotting a = refl
active-failed archiving a = refl
active-failed verifying a = refl
active-failed complete a = refl
active-failed failed a = cc
active-failed expired a = refl

pub is_working-active : (s : JobState) → is_working s ≡ true → is_active s ≡ true
is_working-active queued a = refl
is_working-active snapshotting a = refl
is_working-active archiving a = refl
is_working-active verifying a = refl
is_working-active complete a = cc
is_working-active failed a = cc
is_working-active expired a = cc

-- The cleanup of the staging area is in no constraint that depends on the state.
pub staged-IsJob : (j : Job) → IsJob j → IsJob (record j { staging_cleanup_state = pending })
unfolding counters_valid led_ok
staged-IsJob j h = record {
  counted = h.counted;
  completed = h.completed;
  failing = h.failing;
  readied = h.readied;
  candidate = h.candidate;
  snapshotted = h.snapshotted;
  verified = h.verified;
  led = h.led;
  faultless = h.faultless;
  resumed = h.resumed;
}
