-- ===== src/Batch/Reports.antt =====
-- The report of a batch: one result for each item, and each of them safe to show.
use svrx_pinry.Prelude.{
  ℕ, String, ◌≡◌, refl, Bool, true, false, ◌&&◌, ◌||◌, Option, none, some, leb, str_eq, if_elim,
  is_some, is_none, Outcome, ok, raised, Exception, operational_error, pin_import_error,
  safe_fetch_error, media_storage_error, some_inj, value_error, runtime_error, integrity_error,
  other_exception,
}
use svrx_pinry.Idempotency.Rows.{StoredError, ClaimResult}
use svrx_pinry.Idempotency.Rows
use svrx_pinry.Batch.Errors.{
  ImportStatus, created, replayed, failed, ImportResult, ErrorDetail, error_result, pin_result,
  retryability, internal_error, safe_stored_error, safe_stored_error-IsSafeError,
}
use svrx_pinry.Batch.Service.{
  Services, Item, ImportMetadata, failure_result, record_import_failure, handle, committed,
  prepared_item, process_item, map_kind, in_progress_result, replayed_result, failed_result,
  status_of, positive, present, internal_claim_error, code_of, retryable_of,
}
use svrx_pinry.Database.{Db}

abbrev pub is_import : ImportStatus → Bool
is_import created = true
is_import replayed = true
is_import _ = false

-- A result that names a pin just where it reports one, and otherwise an error with a message of the
-- table and the retryability that the table fixes.
pub record IsSafeReport (r : ImportResult) : Type 0 where
  pub named : is_some r.pin_id ≡ is_import r.status
  pub explained : is_none r.error ≡ is_import r.status
  pub message : (d : ErrorDetail) → r.error ≡ some d → is_some d.message ≡ true
  pub fixed : (d : ErrorDetail) → r.error ≡ some d → retryability d.code d.retryable ≡ d.retryable

pub error_result-IsSafeReport :
    (id : Option ℕ) (status : ImportStatus) (e : StoredError) (after : Option ℕ)
    → is_import status ≡ false
    → IsSafeReport (error_result id status e after)
unfolding error_result
error_result-IsSafeReport id status e after h =
    let safe = safe_stored_error-IsSafeError (some e.code) (some e.retryable) in
    record {
      named = cc;
      explained = cc;
      message = λ d is. rw (← some_inj is) safe.known;
      fixed = λ d is. rw (← some_inj is) safe.fixed;
    }

pin_result-IsSafeReport :
    (id : Option ℕ) (status : ImportStatus) (pin : ℕ)
    → is_import status ≡ true
    → IsSafeReport (pin_result id status pin)
pin_result-IsSafeReport id status pin h = record {
  named = cc;
  explained = cc;
  message = λ d is. cc;
  fixed = λ d is. cc;
}

status_of-import : (e : StoredError) → is_import (status_of e) ≡ false
status_of-import e = if_elim (λ s. is_import s ≡ false) (str_eq e.code "lease_lost") _ _ refl refl

module _ (s : Services) where
  failure_result-safe : (e : StoredError) (o : Outcome Bool) → IsSafeReport (failure_result s e o)
  unfolding failure_result
  failure_result-safe e (raised (operational_error m)) = error_result-IsSafeReport _ _ _ _ refl
  failure_result-safe e (raised value_error) = error_result-IsSafeReport _ _ _ _ refl
  failure_result-safe e (raised runtime_error) = error_result-IsSafeReport _ _ _ _ refl
  failure_result-safe e (raised integrity_error) = error_result-IsSafeReport _ _ _ _ refl
  failure_result-safe e (raised (pin_import_error c r)) = error_result-IsSafeReport _ _ _ _ refl
  failure_result-safe e (raised (safe_fetch_error c r)) = error_result-IsSafeReport _ _ _ _ refl
  failure_result-safe e (raised (media_storage_error c r)) = error_result-IsSafeReport _ _ _ _ refl
  failure_result-safe e (raised other_exception) = error_result-IsSafeReport _ _ _ _ refl
  failure_result-safe e (ok true) = error_result-IsSafeReport _ _ _ _ (status_of-import e)
  failure_result-safe e (ok false) = error_result-IsSafeReport _ _ _ _ refl

  module _ (k : ℕ) (c : ClaimResult) where
    record-safe :
        (code : String) (r : Bool) (db : Db)
        → IsSafeReport (record_import_failure s k c code r db).1
    unfolding record_import_failure
    record-safe code r db = failure_result-safe _ _

    handle-safe : (e : Exception) (db : Db) → IsSafeReport (handle s k c e db).1
    unfolding handle
    handle-safe (pin_import_error code r) db =
        if_elim (λ (x : Db × ImportResult). IsSafeReport x.1) (str_eq code "lease_lost") _ _
          (error_result-IsSafeReport _ _ _ _ refl) (record-safe code r db)
    handle-safe (safe_fetch_error code r) db = record-safe _ _ db
    handle-safe (media_storage_error code r) db = record-safe _ _ db
    handle-safe (operational_error m) db = record-safe _ _ db
    handle-safe value_error db = record-safe _ _ db
    handle-safe runtime_error db = record-safe _ _ db
    handle-safe integrity_error db = record-safe _ _ db
    handle-safe other_exception db = record-safe _ _ db

    committed-safe : (o : Db × Outcome ℕ) → IsSafeReport (committed s k c o).1
    unfolding committed
    committed-safe (db, ok pin) = pin_result-IsSafeReport _ _ _ refl
    committed-safe (db, raised e) = handle-safe e db

    prepared-safe :
        (user : ℕ) (m : ImportMetadata) (deadline : ℕ) (db : Db) (o : Outcome ℕ)
        → IsSafeReport (prepared_item s k user c m deadline db o).1
    unfolding prepared_item
    prepared-safe user m deadline db (raised e) = handle-safe e db
    prepared-safe user m deadline db (ok p) =
        if_elim (λ (x : Db × ImportResult). IsSafeReport x.1) (leb deadline (s.item_clock k)) _ _
          (handle-safe (pin_import_error "image_processing_timeout" true) db)
          (committed-safe (s.commit k p user m c deadline db))

    pub process_item-safe :
        (user : ℕ) (m : ImportMetadata) (deadline : ℕ) (db : Db)
        → IsSafeReport (process_item s k user c m deadline db).1
    unfolding process_item
    process_item-safe user m deadline db =
        prepared-safe user m deadline db (s.prepare_url k m.url m.referer deadline)

-- A result for this item, safe to show.
pub record IsReportOf (item : Item) (r : ImportResult) : Type 0 where
  pub of_item : r.client_item_id ≡ some item.client_item_id
  pub safe : IsSafeReport r

pub error_result-IsReportOf :
    (item : Item) (status : ImportStatus) (e : StoredError) (after : Option ℕ)
    → is_import status ≡ false
    → IsReportOf item (error_result (some item.client_item_id) status e after)
unfolding error_result
error_result-IsReportOf item status e after h = record {
  of_item = refl;
  safe = error_result-IsSafeReport _ _ e after h;
}

in_progress-of :
    (item : Item) (o : Option ℕ) → IsReportOf item (in_progress_result item.client_item_id o)
in_progress-of item none = error_result-IsReportOf item _ _ _ refl
in_progress-of item (some n) =
    if_elim (IsReportOf item) (leb 1 n) _ _ (error_result-IsReportOf item _ _ _ refl)
      (error_result-IsReportOf item _ _ _ refl)

replayed-of : (item : Item) (o : Option ℕ) → IsReportOf item (replayed_result item.client_item_id o)
replayed-of item none = error_result-IsReportOf item _ _ _ refl
replayed-of item (some n) =
    if_elim (IsReportOf item) (leb 1 n) _ _
      (record { of_item = refl; safe = pin_result-IsSafeReport _ _ n refl })
      (error_result-IsReportOf item _ _ _ refl)

failed-of : (item : Item) (e : StoredError) → IsReportOf item (failed_result item.client_item_id e)
failed-of item e =
    if_elim (IsReportOf item) (str_eq e.code "in_progress" || str_eq e.code "idempotency_mismatch")
      _ _ (error_result-IsReportOf item _ _ _ refl)
      (error_result-IsReportOf item _ _ _ (status_of-import e))

-- What a claim is mapped to, where it is mapped.
abbrev pub MappedOf : Item → Option ImportResult → Type 0
MappedOf item none = Unit
MappedOf item (some r) = IsReportOf item r

pub map_kind-of :
    (item : Item) (kind : Rows.ClaimKind) (c : ClaimResult)
    → MappedOf item (map_kind kind item.client_item_id c)
unfolding map_kind
map_kind-of item Rows.claimed c =
    if_elim (MappedOf item)
      (positive c.row_id && present c.lease_uuid && positive c.lease_generation) none
      (some (internal_claim_error item.client_item_id)) tt
      (error_result-IsReportOf item failed internal_error none refl)
map_kind-of item Rows.replayed c = replayed-of item c.replay_pin_id
map_kind-of item Rows.in_progress c =
    if_elim (IsReportOf item) _ _ _ (in_progress-of item c.retry_after_seconds)
      (error_result-IsReportOf item _ _ _ refl)
map_kind-of item Rows.conflict c =
    if_elim (IsReportOf item) _ _ _ (error_result-IsReportOf item _ _ _ refl)
      (error_result-IsReportOf item _ _ _ refl)
map_kind-of item Rows.failed_claim c =
    failed-of item (safe_stored_error (code_of c.error) (retryable_of c.error))
