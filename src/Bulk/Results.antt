-- ===== src/Bulk/Results.antt =====
-- The errors and the per-pin results of core/services/bulk_pin_management.py.
use svrx_pinry.Prelude.{
  ℕ, String, Bool, true, false, ◌||◌, Option, none, some, List, str_eq, if◌then◌else◌, any, count,
}

pub data BulkCode : Type 0 where
  bulk_deadline_exceeded internal_error database_busy : BulkCode
  shared_pin non_owned_pin source_membership_changed : BulkCode
  board_not_found pin_not_found pin_membership_changed board_cover_changed : BulkCode
  selection_invalid_request selection_too_large : BulkCode

-- `BulkOperationError`: a code and an HTTP status.
pub record BulkOperationError : Type 0 where
  pub code : BulkCode
  pub status_code : ℕ

pub data ItemStatus : Type 0 where
  deleted updated moved unchanged preserved failed : ItemStatus

pub record ItemResult : Type 0 where
  pub id : ℕ
  pub status : ItemStatus
  pub code : Option BulkCode
  pub retryable : Option Bool

abbrev pub succeeded_with : ItemStatus → ℕ → ItemResult
succeeded_with status id = record { id = id; status = status; code = none; retryable = none }

abbrev pub preserved_with : BulkCode → ℕ → ItemResult
preserved_with code id = record { id = id; status = preserved; code = some code; retryable = none }

abbrev pub failed_with : BulkCode → Bool → ℕ → ItemResult
failed_with code retryable id = record {
  id = id;
  status = failed;
  code = some code;
  retryable = some retryable;
}

-- `_deadline_failure`.
abbrev pub deadline_failure : ℕ → ItemResult
deadline_failure = failed_with bulk_deadline_exceeded true

-- `connection.vendor`.
pub data Vendor : Type 0 where
  sqlite postgresql other_vendor : Vendor

-- What an operation on a pin raises: an `OperationalError`, with its text and the SQL states of the
-- error, its cause and its context, or anything else.
pub data BulkFault : Type 0 where
  operational : String → List (Option String) → BulkFault
  other_fault : BulkFault

-- `_POSTGRESQL_BUSY_SQLSTATES`
abbrev pub is_busy_sqlstate : Option String → Bool
is_busy_sqlstate none = false
is_busy_sqlstate (some s) = str_eq s "40001" || str_eq s "40P01" || str_eq s "55P03"

-- `normalize_bulk_exception`; `is_busy_text` is the search for the words "busy" and "locked".
unfoldable pub normalize_bulk_exception : Vendor → (String → Bool) → BulkFault → BulkCode × Bool
normalize_bulk_exception vendor is_busy_text other_fault = (internal_error, false)
normalize_bulk_exception sqlite is_busy_text (operational message states) =
    if is_busy_text message then (database_busy, true) else (internal_error, false)
normalize_bulk_exception postgresql is_busy_text (operational message states) =
    if any is_busy_sqlstate states then (database_busy, true) else (internal_error, false)
normalize_bulk_exception other_vendor is_busy_text (operational message states) =
    (internal_error, false)

-- `_SUCCESS_STATUSES`
abbrev pub is_success : ItemStatus → Bool
is_success deleted = true
is_success updated = true
is_success moved = true
is_success unchanged = true
is_success _ = false

abbrev pub is_preserved : ItemStatus → Bool
is_preserved preserved = true
is_preserved _ = false

abbrev pub is_failure : ItemStatus → Bool
is_failure failed = true
is_failure _ = false

pub record Summary : Type 0 where
  pub succeeded_count : ℕ
  pub preserved_count : ℕ
  pub failed_count : ℕ
  pub results : List ItemResult

-- `_summarize`.
unfoldable pub summarize : List ItemResult → Summary
summarize results = record {
  succeeded_count = count (λ r. is_success r.status) results;
  preserved_count = count (λ r. is_preserved r.status) results;
  failed_count = count (λ r. is_failure r.status) results;
  results = results;
}
