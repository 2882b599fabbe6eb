-- ===== src/Batch/Leases.antt =====
-- The batch import on the store of core/services/idempotency.py keeps the items well-formed.
use svrx_pinry.Prelude.{
  ℕ, suc, ◌+◌, min, inl, inr, String, Bool, true, false, ◌&&◌, not, Option, none, some, List, [],
  ◌∷◌, leb, str_eq, if_elim, Bool-cases, Outcome, ok, raised, Exception, value_error, runtime_error,
  integrity_error, operational_error, pin_import_error, safe_fetch_error, media_storage_error,
  other_exception,
}
use svrx_pinry.Idempotency.Rows.{Instant, ClaimResult}
use svrx_pinry.Idempotency.Store.{IdempotencyStore}
use svrx_pinry.Idempotency.Claim.{claim}
use svrx_pinry.Idempotency.Owner.{record_failure, stored}
use svrx_pinry.Idempotency.Steps.{fails, Reach, here, next, Reach-trans}
use svrx_pinry.Idempotency.Invariant.{IsValid, Reach-IsValid}
use svrx_pinry.Idempotency.Interference.{claim-IsSound}
use svrx_pinry.Batch.Codes.{safe_stored_error-safe_code}
use svrx_pinry.Batch.Errors.{safe_stored_error, ImportResult}
use svrx_pinry.Batch.Service.{
  Services, Item, BatchRequest, ImportMetadata, Seconds, finite, unusable, record_import_failure,
  handle, committed, prepared_item, process_item, map_claim, item_deadline_seconds,
}
use svrx_pinry.Batch.Process.{
  metadata_of, process_claimed, admitted_item, process_items, process, is_closing, report,
}
use svrx_pinry.Database.{Db}

-- The service over the store: for the item of each number, the wall clock, the row's timestamps, the
-- UUIDs and what other connections commit during its claim.
pub record Surroundings : Type 0 where
  pub store : IdempotencyStore
  pub world : ℕ → ℕ → Db → Db
  pub uuids : ℕ → ℕ → ℕ
  pub created_at : ℕ → Instant
  pub wall_clock : ℕ → Instant
  pub failure_clock : ℕ → Instant

abbrev pub over_store : Surroundings → Services → Services
over_store w s = record s {
  claim = λ k user batch_id item fingerprint db.
      claim w.store (w.world k) (w.uuids k) (w.created_at k) user batch_id item fingerprint
        (w.wall_clock k) db;
  record_failure = λ k c e db. record_failure c (stored e) (w.failure_clock k) db;
}

-- Other connections, and `commit`, whose transaction fences the lease, creates the pin and records the
-- success, write the items by the store's own steps.
pub record AreKept (w : Surroundings) (s : Services) : Type 0 where
  pub world : (k j : ℕ) (db : Db) → Reach db (w.world k j db)
  pub commit :
      (k prepared user : ℕ) (m : ImportMetadata) (c : ClaimResult) (deadline : ℕ) (db : Db)
      → Reach db (s.commit k prepared user m c deadline db).0

module _ (w : Surroundings) (s : Services) (kept : AreKept w s) where
  abbrev s' : Services
  s' = over_store w s

  module _ (k : ℕ) (c : ClaimResult) where
    record-Reach :
        (code : String) (r : Bool) (db : Db) → Reach db (record_import_failure s' k c code r db).0
    unfolding record_import_failure
    record-Reach code r db = next here (
        fails c (stored (safe_stored_error (some code) (some r))) (w.failure_clock k)
          (safe_stored_error-safe_code (some code) (some r)))

    handle-Reach : (e : Exception) (db : Db) → Reach db (handle s' k c e db).0
    unfolding handle
    handle-Reach (pin_import_error code r) db =
        if_elim (λ (x : Db × ImportResult). Reach db x.0) (str_eq code "lease_lost") _ _ here
          (record-Reach code r db)
    handle-Reach (safe_fetch_error code r) db = record-Reach code r db
    handle-Reach (media_storage_error code r) db = record-Reach code r db
    handle-Reach (operational_error m) db = record-Reach _ _ db
    handle-Reach value_error db = record-Reach "internal_error" false db
    handle-Reach runtime_error db = record-Reach "internal_error" false db
    handle-Reach integrity_error db = record-Reach "internal_error" false db
    handle-Reach other_exception db = record-Reach "internal_error" false db

    committed-Reach :
        (db : Db) (o : Db × Outcome ℕ) → Reach db o.0 → Reach db (committed s' k c o).0
    unfolding committed
    committed-Reach db (d, ok pin) h = h
    committed-Reach db (d, raised e) h = Reach-trans h (handle-Reach e d)

    prepared-Reach :
        (user : ℕ) (m : ImportMetadata) (deadline : ℕ) (db : Db) (o : Outcome ℕ)
        → Reach db (prepared_item s' k user c m deadline db o).0
    unfolding prepared_item
    prepared-Reach user m deadline db (raised e) = handle-Reach e db
    prepared-Reach user m deadline db (ok p) =
        if_elim (λ (x : Db × ImportResult). Reach db x.0) (leb deadline (s.item_clock k)) _ _
          (handle-Reach (pin_import_error "image_processing_timeout" true) db)
          (committed-Reach db (s.commit k p user m c deadline db)
            (kept.commit k p user m c deadline db))

  claimed-Reach :
      (k user : ℕ) (m : ImportMetadata) (id deadline : ℕ) (a : Db) (o : Db × Outcome ClaimResult)
      → Reach a o.0
      → Reach a (process_claimed s' k user m id deadline o).0
  unfolding process_claimed process_item
  claimed-Reach k user m id deadline a (db, raised (operational_error t)) h = h
  claimed-Reach k user m id deadline a (db, raised value_error) h = h
  claimed-Reach k user m id deadline a (db, raised runtime_error) h = h
  claimed-Reach k user m id deadline a (db, raised integrity_error) h = h
  claimed-Reach k user m id deadline a (db, raised (pin_import_error c r)) h = h
  claimed-Reach k user m id deadline a (db, raised (safe_fetch_error c r)) h = h
  claimed-Reach k user m id deadline a (db, raised (media_storage_error c r)) h = h
  claimed-Reach k user m id deadline a (db, raised other_exception) h = h
  claimed-Reach k user m id deadline a (db, ok c) h =
      by_mapping (map_claim id c) (process_item s' k user c m deadline db) (
        Reach-trans h
          (prepared-Reach k c user m deadline db (s.prepare_url k m.url m.referer deadline)))
    where
      by_mapping :
          (o : Option ImportResult) (later : Db × ImportResult)
          → Reach a later.0
          → Reach a
              (elim o as (λ _. Db × ImportResult) [
                | some mapped ↦ (db, mapped)
                | none ↦ (later.0, record later.1 { client_item_id = some id })
              ]).0
      by_mapping none later r = r
      by_mapping (some mapped) later r = h

  admitted-Reach :
      (batch_deadline user : ℕ) (request : BatchRequest) (k : ℕ) (item : Item) (db : Db)
      → IsValid db
      → Reach db (admitted_item s' batch_deadline user request k item db).0
  unfolding admitted_item
  admitted-Reach batch_deadline user request k item db valid =
      let m = metadata_of request item in
      claimed-Reach k user m item.client_item_id
        (min batch_deadline (s.clock k + item_deadline_seconds)) db
        (s'.claim k user request.batch_id item.client_item_id (s.fingerprint m) db)
        (claim-IsSound w.store (w.world k) (w.uuids k) (w.created_at k) user request.batch_id
          item.client_item_id (s.fingerprint m) (w.wall_clock k) db (kept.world k) valid).reach

  loop-Reach :
      (batch_deadline reserve user : ℕ) (request : BatchRequest) (closed : Bool) (k : ℕ)
      (items : List Item) (db : Db)
      → IsValid db
      → Reach db (process_items s' batch_deadline reserve user request closed k items db).0
  unfolding process_items
  loop-Reach b r user request closed k [] db valid = here
  loop-Reach b r user request true k (item ∷ items) db valid =
      loop-Reach b r user request true (suc k) items db valid
  loop-Reach b r user request false k (item ∷ items) db valid =
      elim (Bool-cases (is_closing s' b r k)) [
        | inl e ↦ rw (e, process_items) (loop-Reach b r user request true (suc k) items db valid)
        | inr e ↦
            let first = admitted-Reach b user request k item db valid in
            rw (e, process_items)
              (Reach-trans first (
                loop-Reach b r user request false (suc k) items
                  (admitted_item s' b user request k item db).0 (Reach-IsValid first valid)))
      ]

-- If what other connections do during a claim, and what the commit of an import does, are histories of
-- the store's writes to the items and of creations and deletions of pins, then a whole batch over the
-- store, with any failures of its items, is such a history, and from well-formed items it leaves
-- well-formed ones.
pub process-IsValid :
    (w : Surroundings) (s : Services) (batch reserve : Seconds) (user : ℕ) (request : BatchRequest)
    (started_at : ℕ) (db : Db)
    → AreKept w s
    → IsValid db
    → let r = process (over_store w s) batch reserve user request started_at db in
      Reach db r.0 × IsValid r.0
unfolding process report
process-IsValid w s (finite b) (finite r) user request t db kept valid =
    let h =
      loop-Reach w s kept (t + b) r user request (not (leb 1 b && leb 1 r)) 0 request.items db
        valid in
    (h, Reach-IsValid h valid)
process-IsValid w s (finite b) unusable user request t db kept valid =
    let h = loop-Reach w s kept 0 0 user request true 0 request.items db valid in
    (h, Reach-IsValid h valid)
process-IsValid w s unusable r user request t db kept valid =
    let h = loop-Reach w s kept 0 0 user request true 0 request.items db valid in
    (h, Reach-IsValid h valid)
