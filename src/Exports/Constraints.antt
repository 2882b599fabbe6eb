-- ===== src/Exports/Constraints.antt =====
-- The check constraints on the rows of `ExportJob`, of exports/models.py, as Boolean tests.
use svrx_pinry.Prelude.{
  ℕ, Bool, true, false, ◌&&◌, ◌+◌, Option, some, ◌==◌, leb, is_none, is_some, bool_eq,
}
use svrx_pinry.Exports.Contracts.{
  JobState, complete, failed, expired, ErrorClass, same_class, ErrorCode, error_contract,
  is_job_code,
}
use svrx_pinry.Exports.Tables.{
  Job, ReadyCleanup, ready_retained, ready_pending, ready_cleaned, ready_blocked, ReadyReceipt,
}

-- `export_snapshot_total_valid`, `export_archive_total_valid`, `export_bytes_total_valid` and
-- `export_included_total_valid`; the last one is an equation of integers, so a sum of numbers.
unfoldable pub counters_valid : Job → Bool
counters_valid j =
    leb j.snapshot_done j.target_total
    && (leb j.archive_done j.archive_total
        && (leb j.bytes_done j.bytes_total
            && j.requested_total == j.included_total + j.excluded_total))

unfoldable pub is_retained : ReadyCleanup → Bool
is_retained ready_retained = true
is_retained r = false

-- `export_complete_state_valid`.
unfoldable pub complete_valid :
    JobState
    → ReadyCleanup
    → Option ℕ
    → Option ℕ
    → Option ReadyReceipt
    → Option ErrorCode
    → Option ErrorClass
    → Option Bool
    → Bool
unfolding is_retained
complete_valid complete cleanup completed expires ready code class retry =
    is_retained cleanup
    && (is_some completed
        && (is_some expires
            && (is_some ready && (is_none code && (is_none class && is_none retry)))))
complete_valid s cleanup completed expires ready code class retry = true

-- `_job_error_contract_check`.
unfoldable pub contract_valid : Option ErrorCode → Option ErrorClass → Option Bool → Bool
contract_valid (some code) (some class) (some retry) =
    is_job_code code
    && (same_class class (error_contract code).0 && bool_eq retry (error_contract code).1)
contract_valid code class retry = false

-- `export_failed_state_valid`.
unfoldable pub failed_valid : JobState → Option ErrorCode → Option ErrorClass → Option Bool → Bool
unfolding contract_valid
failed_valid failed code class retry = contract_valid code class retry
failed_valid s code class retry = true

unfoldable pub expired_cleanup : ReadyCleanup → Option ReadyReceipt → Bool
expired_cleanup ready_pending r = is_some r
expired_cleanup ready_blocked r = is_some r
expired_cleanup ready_cleaned r = is_none r
expired_cleanup c r = false

-- `export_active_ready_empty` and `export_expired_ready_valid`.
unfoldable pub ready_valid : JobState → ReadyCleanup → Option ReadyReceipt → Bool
unfolding expired_cleanup
ready_valid complete cleanup r = true
ready_valid expired cleanup r = expired_cleanup cleanup r
ready_valid s cleanup r = is_none r
