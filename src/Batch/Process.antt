-- ===== src/Batch/Process.antt =====
-- `process` of core/services/batch_import.py: the loop over the items of a batch, and its summary.
use svrx_pinry.Prelude.{
  ℕ, suc, ◌+◌, min, Bool, true, false, ◌&&◌, not, none, some, List, [], ◌∷◌, ltb, count, Outcome,
  ok, raised, operational_error,
}
use svrx_pinry.Idempotency.Rows.{ClaimResult}
use svrx_pinry.Batch.Errors.{
  internal_error, safe_stored_error, ImportStatus, created, failed, conflict, ImportResult,
  error_result, pin_result,
}
use svrx_pinry.Batch.Errors
use svrx_pinry.Database.{Db}
use svrx_pinry.Batch.Service.{
  valid_positive_seconds, Seconds, finite, item_deadline_seconds, ImportMetadata, Item,
  BatchRequest, Services, database_error, map_claim, process_item,
}

-- One admitted item of the loop of `process`.
unfoldable pub process_claimed :
    Services → ℕ → ℕ → ImportMetadata → ℕ → ℕ → Db × Outcome ClaimResult → Db × ImportResult
unfolding map_claim process_item database_error
process_claimed s k user metadata id deadline (db, raised (operational_error message)) =
    (db, error_result (some id) failed (database_error s message) none)
process_claimed s k user metadata id deadline (db, raised _) =
    (db, error_result (some id) failed internal_error none)
process_claimed s k user metadata id deadline (db, ok c) =
    let (db', result) = process_item s k user c metadata deadline db in
    elim (map_claim id c) [
      | some mapped ↦ (db, mapped)
      | none ↦ (db', record result { client_item_id = some id })
    ]

abbrev pub metadata_of : BatchRequest → Item → ImportMetadata
metadata_of request item = record {
  url = item.url;
  referer = request.referer;
  description = request.description;
  private = request.private;
  tags = request.tags;
  board_ids = request.board_ids;
}

-- `_claim`, and what `process` does with its answer.
unfoldable pub admitted_item : Services → ℕ → ℕ → BatchRequest → ℕ → Item → Db → Db × ImportResult
unfolding process_claimed
admitted_item s batch_deadline user request k item db =
    let metadata = metadata_of request item in
    let deadline = min batch_deadline (s.clock k + item_deadline_seconds) in
    process_claimed s k user metadata item.client_item_id deadline
      (s.claim k user request.batch_id item.client_item_id (s.fingerprint metadata) db)

abbrev pub too_late : Item → ImportResult
too_late item =
    error_result (some item.client_item_id) failed
      (record { code = "batch_deadline_exceeded"; retryable = true }) none

-- `remaining < _ITEM_DEADLINE_SECONDS + reserve_seconds`, for the item of number `k`.
abbrev pub is_closing : Services → ℕ → ℕ → ℕ → Bool
is_closing s batch_deadline reserve k =
    ltb batch_deadline (s.clock k + (item_deadline_seconds + reserve))

-- The loop of `process`, from item `k` on. Once admission is closed the clock is not read again.
unfoldable pub process_items :
    Services → ℕ → ℕ → ℕ → BatchRequest → Bool → ℕ → List Item → Db → Db × List ImportResult
unfolding admitted_item
process_items s batch_deadline reserve user request closed k [] db = (db, [])
process_items s batch_deadline reserve user request true k (item ∷ items) db =
    let (db', rest) = process_items s batch_deadline reserve user request true (suc k) items db in
    (db', too_late item ∷ rest)
process_items s batch_deadline reserve user request false k (item ∷ items) db =
    elim (is_closing s batch_deadline reserve k) [
      | true ↦
          let (db', rest) =
            process_items s batch_deadline reserve user request true (suc k) items db in
          (db', too_late item ∷ rest)
      | false ↦
          let (db', result) = admitted_item s batch_deadline user request k item db in
          let (db'', rest) =
            process_items s batch_deadline reserve user request false (suc k) items db' in
          (db'', result ∷ rest)
    ]

abbrev pub has_status : ImportStatus → ImportResult → Bool
has_status created r = elim r.status [ created ↦ true | _ ↦ false ]
has_status Errors.replayed r = elim r.status [ Errors.replayed ↦ true | _ ↦ false ]
has_status failed r = elim r.status [ failed ↦ true | _ ↦ false ]
has_status conflict r = elim r.status [ conflict ↦ true | _ ↦ false ]

pub record BatchReport : Type 0 where
  pub batch_id : ℕ
  pub results : List ImportResult
  pub summary : ImportStatus → ℕ

-- The report of `process`.
unfoldable pub report : ℕ → List ImportResult → BatchReport
report batch_id results = record {
  batch_id = batch_id;
  results = results;
  summary = λ status. count (has_status status) results;
}

-- `process`, with the settings PINRY_BATCH_DEADLINE_SECONDS and PINRY_BATCH_RESULT_RESERVE_SECONDS.
unfoldable pub process : Services → Seconds → Seconds → ℕ → BatchRequest → ℕ → Db → Db × BatchReport
unfolding process_items report
process s (finite batch) (finite reserve) user request started_at db =
    let valid = valid_positive_seconds (finite batch) && valid_positive_seconds (finite reserve) in
    let (db', results) =
      process_items s (started_at + batch) reserve user request (not valid) 0 request.items db in
    (db', report request.batch_id results)
process s _ _ user request started_at db =
    let (db', results) = process_items s 0 0 user request true 0 request.items db in
    (db', report request.batch_id results)
