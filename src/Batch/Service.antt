-- ===== src/Batch/Service.antt =====
-- `BatchImportService` of core/services/batch_import.py. The state is the database; the store of the
-- leases and the import of a pin are the operations of an interface, by the number of the item.
use svrx_pinry.Prelude.{
  ℕ, ◌*◌, String, Bool, true, false, ◌&&◌, ◌||◌, not, Option, none, some, List, leb, str_eq,
  if◌then◌else◌, Outcome, ok, raised, Exception, operational_error, pin_import_error,
  safe_fetch_error, media_storage_error,
}
use svrx_pinry.Idempotency.Rows.{
  StoredError, ClaimResult, claimed, replayed, in_progress, failed_claim,
}
use svrx_pinry.Idempotency.Rows
use svrx_pinry.Batch.Errors.{
  internal_error, safe_stored_error, ImportStatus, created, failed, conflict, ImportResult,
  error_result, pin_result,
}
use svrx_pinry.Batch.Errors
use svrx_pinry.Database.{Db}

-- A setting: a number in the clock's unit, or a value that is negative or no finite number.
pub data Seconds : Type 0 where
  finite : ℕ → Seconds
  unusable : Seconds

-- `_valid_positive_seconds`.
abbrev pub valid_positive_seconds : Seconds → Bool
valid_positive_seconds (finite n) = leb 1 n
valid_positive_seconds unusable = false

-- The clock counts microseconds; `_ITEM_DEADLINE_SECONDS` is 12.
abbrev pub item_deadline_seconds : ℕ
item_deadline_seconds = 12 * 1000000

pub record ImportMetadata : Type 0 where
  pub url : String
  pub referer : String
  pub description : String
  pub private : Bool
  pub tags : List String
  pub board_ids : List ℕ

pub record Item : Type 0 where
  pub client_item_id : ℕ
  pub url : String

-- `validated_data`.
pub record BatchRequest : Type 0 where
  pub batch_id : ℕ
  pub referer : String
  pub description : String
  pub private : Bool
  pub tags : List String
  pub board_ids : List ℕ
  pub items : List Item

-- What the service uses, for the item of each number: `IdempotencyStore.claim` at the wall clock
-- and `record_failure`, `PinImportService.prepare_url` and `commit`, the SHA-256 digest, and the
-- readings of the monotonic clock before and within an item.
pub record Services : Type 0 where
  pub fingerprint : ImportMetadata → ℕ
  pub claim : ℕ → ℕ → ℕ → ℕ → ℕ → Db → Db × Outcome ClaimResult
  pub record_failure : ℕ → ClaimResult → StoredError → Db → Db × Outcome Bool
  pub prepare_url : ℕ → String → String → ℕ → Outcome ℕ
  pub commit : ℕ → ℕ → ℕ → ImportMetadata → ClaimResult → ℕ → Db → Db × Outcome ℕ
  pub clock : ℕ → ℕ
  pub item_clock : ℕ → ℕ
  pub is_sqlite : Bool
  pub is_busy_text : String → Bool  -- the search of the lowered text

-- `_database_error`.
unfoldable pub database_error : Services → String → StoredError
database_error s message =
    if s.is_sqlite && s.is_busy_text message
    then record { code = "database_busy"; retryable = true }
    else internal_error

-- `_internal_claim_error`.
abbrev pub internal_claim_error : ℕ → ImportResult
internal_claim_error id = error_result (some id) failed internal_error none

abbrev pub lease_lost : StoredError
lease_lost = record { code = "lease_lost"; retryable = true }

abbrev pub positive : Option ℕ → Bool
positive none = false
positive (some n) = leb 1 n

abbrev pub present : Option ℕ → Bool
present none = false
present (some n) = true

-- The error has just this code and retryability.
abbrev pub is_error : String → Bool → Option StoredError → Bool
is_error code r none = false
is_error code true (some e) = str_eq e.code code && e.retryable
is_error code false (some e) = str_eq e.code code && not e.retryable

-- The two attributes of an error that may be None.
abbrev pub code_of : Option StoredError → Option String
code_of none = none
code_of (some e) = some e.code

abbrev pub retryable_of : Option StoredError → Option Bool
retryable_of none = none
retryable_of (some e) = some e.retryable

abbrev pub status_of : StoredError → ImportStatus
status_of e = if str_eq e.code "lease_lost" then conflict else failed

-- A claim's positive `retry_after_seconds`, reported.
abbrev pub in_progress_result : ℕ → Option ℕ → ImportResult
in_progress_result id none = internal_claim_error id
in_progress_result id (some seconds) =
    if leb 1 seconds
    then error_result (some id) conflict (record { code = "in_progress"; retryable = true })
        (some seconds)
    else internal_claim_error id

-- A claim's positive `replay_pin_id`, reported.
abbrev pub replayed_result : ℕ → Option ℕ → ImportResult
replayed_result id none = internal_claim_error id
replayed_result id (some pin) =
    if leb 1 pin then pin_result (some id) Errors.replayed pin else internal_claim_error id

-- The branch of a failed claim.
abbrev pub failed_result : ℕ → StoredError → ImportResult
failed_result id e =
    if str_eq e.code "in_progress" || str_eq e.code "idempotency_mismatch"
    then internal_claim_error id
    else error_result (some id) (status_of e) e none

-- The branches of `_map_claim`, by the claim's kind; none where the item is to be imported.
unfoldable pub map_kind : Rows.ClaimKind → ℕ → ClaimResult → Option ImportResult
map_kind claimed id c =
    if positive c.row_id && present c.lease_uuid && positive c.lease_generation
    then none
    else some (internal_claim_error id)
map_kind replayed id c = some (replayed_result id c.replay_pin_id)
map_kind in_progress id c = some (
    if is_error "in_progress" true c.error
    then in_progress_result id c.retry_after_seconds
    else internal_claim_error id)
map_kind Rows.conflict id c = some (
    if is_error "idempotency_mismatch" false c.error
    then error_result (some id) conflict
        (record { code = "idempotency_mismatch"; retryable = false }) none
    else internal_claim_error id)
map_kind failed_claim id c =
    some (failed_result id (safe_stored_error (code_of c.error) (retryable_of c.error)))

-- `_map_claim`.
unfoldable pub map_claim : ℕ → ClaimResult → Option ImportResult
unfolding map_kind
map_claim id c = map_kind c.kind id c

-- What `_record_failure` answers to the outcome of the store's `record_failure`.
unfoldable pub failure_result : Services → StoredError → Outcome Bool → ImportResult
unfolding database_error
failure_result s e (raised (operational_error message)) =
    error_result none failed (database_error s message) none
failure_result s e (raised _) = error_result none failed internal_error none
failure_result s e (ok false) = error_result none conflict lease_lost none
failure_result s e (ok true) = error_result none (status_of e) e none

-- `_record_failure`, for an error with these two attributes.
unfoldable pub record_import_failure :
    Services → ℕ → ClaimResult → String → Bool → Db → Db × ImportResult
unfolding failure_result
record_import_failure s k c code retryable db =
    let e = safe_stored_error (some code) (some retryable) in
    let (db', outcome) = s.record_failure k c e db in (db', failure_result s e outcome)

-- The handlers of `process_item`.
unfoldable pub handle : Services → ℕ → ClaimResult → Exception → Db → Db × ImportResult
unfolding record_import_failure database_error
handle s k c (pin_import_error code retryable) db =
    let recorded = record_import_failure s k c code retryable db in
    if str_eq code "lease_lost" then (db, error_result none conflict lease_lost none) else recorded
handle s k c (safe_fetch_error code retryable) db = record_import_failure s k c code retryable db
handle s k c (media_storage_error code retryable) db = record_import_failure s k c code retryable db
handle s k c (operational_error message) db =
    let e = database_error s message in record_import_failure s k c e.code e.retryable db
handle s k c _ db = record_import_failure s k c "internal_error" false db

-- What follows `commit`.
unfoldable pub committed : Services → ℕ → ClaimResult → Db × Outcome ℕ → Db × ImportResult
unfolding handle
committed s k c (db, ok pin) = (db, pin_result none created pin)
committed s k c (db, raised e) = handle s k c e db

-- What follows `prepare_url`. The cleanup of a prepared import, which no error leaves, touches
-- nothing that is modelled.
unfoldable pub prepared_item :
    Services → ℕ → ℕ → ClaimResult → ImportMetadata → ℕ → Db → Outcome ℕ → Db × ImportResult
unfolding committed
prepared_item s k user c metadata deadline db (raised e) = handle s k c e db
prepared_item s k user c metadata deadline db (ok prepared) =
    let late = handle s k c (pin_import_error "image_processing_timeout" true) db in
    let rest = committed s k c (s.commit k prepared user metadata c deadline db) in
    if leb deadline (s.item_clock k) then late else rest

-- `process_item`.
unfoldable pub process_item :
    Services → ℕ → ℕ → ClaimResult → ImportMetadata → ℕ → Db → Db × ImportResult
unfolding prepared_item
process_item s k user c metadata deadline db =
    prepared_item s k user c metadata deadline db
      (s.prepare_url k metadata.url metadata.referer deadline)
