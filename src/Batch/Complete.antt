-- ===== src/Batch/Complete.antt =====
-- `process` of core/services/batch_import.py as a whole: a result for each item, counted once, and
-- no work after the deadline.
use svrx_pinry.Prelude.{
  ℕ, suc, ◌+◌, min, ◌≡◌, refl, ◌∙◌, inl, inr, Bool, true, false, ◌&&◌, not, Option, none, some,
  List, [], ◌∷◌, leb, length, count, arith, Outcome, ok, raised, operational_error,
  pin_import_error, safe_fetch_error, media_storage_error, Bool-cases, value_error, runtime_error,
  integrity_error, other_exception,
}
use svrx_pinry.Idempotency.Rows.{ClaimResult}
use svrx_pinry.Batch.Errors.{ImportStatus, created, replayed, failed, conflict, ImportResult}
use svrx_pinry.Batch.Service.{
  Services, Item, BatchRequest, ImportMetadata, Seconds, finite, unusable, process_item, map_claim,
  item_deadline_seconds,
}
use svrx_pinry.Batch.Process.{
  metadata_of, process_claimed, admitted_item, process_items, process, too_late, is_closing,
  has_status, report,
}
use svrx_pinry.Batch.Reports.{
  IsReportOf, IsSafeReport, error_result-IsReportOf, process_item-safe, map_kind-of, MappedOf,
}
use svrx_pinry.Database.{Db}

-- The results of the items, one for each and in their order.
pub data AreReports : List Item → List ImportResult → Type 0 where
  no_more : AreReports [] []
  then_report :
      {item : Item} {items : List Item} {r : ImportResult} {rs : List ImportResult}
      → IsReportOf item r
      → AreReports items rs
      → AreReports (item ∷ items) (r ∷ rs)

module _ (s : Services) (user : ℕ) (request : BatchRequest) where
  mapped-of :
      (item : Item) (o : Option ImportResult) (db : Db) (later : Db × ImportResult)
      → MappedOf item o
      → IsSafeReport later.1
      → IsReportOf item
          (elim o as (λ _. Db × ImportResult) [
            | some mapped ↦ (db, mapped)
            | none ↦ (later.0, record later.1 { client_item_id = some item.client_item_id })
          ]).1
  mapped-of item (some r) db later h safe = h
  mapped-of item none db later h safe = record {
    of_item = refl;
    safe = record {
      named = safe.named;
      explained = safe.explained;
      message = safe.message;
      fixed = safe.fixed;
    };
  }

  claimed-of :
      (k : ℕ) (m : ImportMetadata) (item : Item) (deadline : ℕ) (o : Db × Outcome ClaimResult)
      → IsReportOf item (process_claimed s k user m item.client_item_id deadline o).1
  unfolding process_claimed map_claim
  claimed-of k m item deadline (db, raised (operational_error t)) =
      error_result-IsReportOf item _ _ _ refl
  claimed-of k m item deadline (db, raised value_error) = error_result-IsReportOf item _ _ _ refl
  claimed-of k m item deadline (db, raised runtime_error) = error_result-IsReportOf item _ _ _ refl
  claimed-of k m item deadline (db, raised integrity_error) =
      error_result-IsReportOf item _ _ _ refl
  claimed-of k m item deadline (db, raised (pin_import_error c r)) =
      error_result-IsReportOf item _ _ _ refl
  claimed-of k m item deadline (db, raised (safe_fetch_error c r)) =
      error_result-IsReportOf item _ _ _ refl
  claimed-of k m item deadline (db, raised (media_storage_error c r)) =
      error_result-IsReportOf item _ _ _ refl
  claimed-of k m item deadline (db, raised other_exception) =
      error_result-IsReportOf item _ _ _ refl
  claimed-of k m item deadline (db, ok c) =
      mapped-of item (map_claim item.client_item_id c) db (process_item s k user c m deadline db)
        (map_kind-of item c.kind c) (process_item-safe s k c user m deadline db)

  admitted-of :
      (batch_deadline k : ℕ) (item : Item) (db : Db)
      → IsReportOf item (admitted_item s batch_deadline user request k item db).1
  unfolding admitted_item
  admitted-of batch_deadline k item db =
      let m = metadata_of request item in
      claimed-of k m item (min batch_deadline (s.clock k + item_deadline_seconds))
        (s.claim k user request.batch_id item.client_item_id (s.fingerprint m) db)

  late-of : (item : Item) → IsReportOf item (too_late item)
  late-of item = error_result-IsReportOf item _ _ _ refl

  loop-of :
      (batch_deadline reserve : ℕ) (closed : Bool) (k : ℕ) (items : List Item) (db : Db)
      → AreReports items (process_items s batch_deadline reserve user request closed k items db).1
  unfolding process_items
  loop-of batch_deadline reserve closed k [] db = no_more
  loop-of batch_deadline reserve true k (item ∷ items) db =
      then_report (late-of item) (loop-of batch_deadline reserve true (suc k) items db)
  loop-of batch_deadline reserve false k (item ∷ items) db =
      elim (Bool-cases (is_closing s batch_deadline reserve k)) [
        | inl e ↦
            rw (e, process_items)
              (then_report (late-of item) (loop-of batch_deadline reserve true (suc k) items db))
        | inr e ↦
            rw (e, process_items)
              (then_report (admitted-of batch_deadline k item db) (
                loop-of batch_deadline reserve false (suc k) items
                  (admitted_item s batch_deadline user request k item db).0))
      ]

-- Every item of a batch gets one result, in the order of the request and with the item's own
-- identifier: it names a pin exactly where it reports an import, and otherwise an error from the
-- table of messages, whose retryability is the fixed one. This holds for any behaviour of the store,
-- the import and the clock, their exceptions included.
pub process-AreReports :
    (s : Services) (batch reserve : Seconds) (user : ℕ) (request : BatchRequest) (started_at : ℕ)
    (db : Db)
    → AreReports request.items (process s batch reserve user request started_at db).1.results
unfolding process report
process-AreReports s (finite b) (finite r) user request t db =
    loop-of s user request (t + b) r (not (leb 1 b && leb 1 r)) 0 request.items db
process-AreReports s (finite b) unusable user request t db =
    loop-of s user request 0 0 true 0 request.items db
process-AreReports s unusable r user request t db =
    loop-of s user request 0 0 true 0 request.items db

AreReports-length :
    {items : List Item} {rs : List ImportResult} → AreReports items rs → length rs ≡ length items
AreReports-length no_more = refl
AreReports-length (then_report h hs) = let n = AreReports-length hs in omega arith

status-once :
    (rs : List ImportResult)
    → count (has_status created) rs
        + count (has_status replayed) rs
        + count (has_status failed) rs
        + count (has_status conflict) rs
      ≡ length rs
status-once [] = refl
status-once (r ∷ rs) = ground (arith, status-once rs)

process-counts :
    (s : Services) (batch reserve : Seconds) (user : ℕ) (request : BatchRequest) (started_at : ℕ)
    (db : Db) (status : ImportStatus)
    → let r = (process s batch reserve user request started_at db).1 in
      r.summary status ≡ count (has_status status) r.results
unfolding process report
process-counts s (finite b) (finite r) user request t db status = refl
process-counts s (finite b) unusable user request t db status = refl
process-counts s unusable r user request t db status = refl

-- The four counts of a batch's summary add up to the number of its items.
pub process-summary :
    (s : Services) (batch reserve : Seconds) (user : ℕ) (request : BatchRequest) (started_at : ℕ)
    (db : Db)
    → let r = (process s batch reserve user request started_at db).1 in
      r.summary created + r.summary replayed + r.summary failed + r.summary conflict
      ≡ length request.items
process-summary s batch reserve user request t db =
    let r = (process s batch reserve user request t db).1 in
    let all = AreReports-length (process-AreReports s batch reserve user request t db) in
    let counts = process-counts s batch reserve user request t db in
    let sum = status-once r.results in
    rw (counts created, counts replayed, counts failed, counts conflict) (sum ∙ all)
