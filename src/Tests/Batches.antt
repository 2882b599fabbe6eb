-- ===== src/Tests/Batches.antt =====
-- Examples for the theorems on core/services/batch_import.py.
use svrx_pinry.Prelude.{
  ◌+◌, ◌*◌, ◌≡◌, inl, refl, true, false, some, [], ◌∷◌, map, ok, raised, operational_error, arith,
  ℕ,
}
use svrx_pinry.Idempotency.Rows.{stored_error}
use svrx_pinry.Idempotency.Owner.{record_success}
use svrx_pinry.Idempotency.Store.{pin_owned, valid_pending}
use svrx_pinry.Idempotency.Claim.{claim, created_or_existing, create_item, reevaluate}
use svrx_pinry.Idempotency.Steps.{succeeds, adds_pin, add_pin, Reach, here, next}
use svrx_pinry.Idempotency.Invariant.{IsValid, Reach-IsValid}
use svrx_pinry.Idempotency.Settled.{IsSettled}
use svrx_pinry.Batch.Errors.{created, replayed, failed, conflict, safe_stored_error}
use svrx_pinry.Batch.Codes.{safe_stored_error-stored}
use svrx_pinry.Batch.Service.{Services, finite, unusable, BatchRequest, Item}
use svrx_pinry.Batch.Process.{process, too_late, admitted_item, BatchReport}
use svrx_pinry.Batch.Complete.{AreReports, process-AreReports, process-summary}
use svrx_pinry.Batch.Admission.{IsCut, process-IsCut, process-unusable}
use svrx_pinry.Batch.Leases.{Surroundings, over_store, AreKept, process-IsValid}
use svrx_pinry.Batch.Repeats.{IsRepeat, admitted_item-IsRepeat}
use svrx_pinry.Database.{Pin, Db}
use svrx_pinry.Tests.Data.{at_second, a_store, alone, leased_db, owner, leased_db-IsValid}

abbrev surroundings : Surroundings
surroundings = record {
  store = a_store;
  world = λ k. alone;
  uuids = λ k n. 200 + n;
  created_at = λ k. at_second 40;
  wall_clock = λ k. at_second 40;
  failure_clock = λ k. at_second 41;
}

-- The import finds the database busy; the clock stands at ten seconds for each item.
abbrev services : Services
services = over_store surroundings (record {
  fingerprint = λ m. 5;
  claim = λ k user batch item f db. (db, raised (operational_error "locked"));
  record_failure = λ k c e db. (db, ok false);
  prepare_url = λ k url referer deadline. ok 0;
  commit = λ k p user m c deadline db. (db, raised (operational_error "database is locked"));
  clock = λ k. (k + 1) * 10000000;
  item_clock = λ k. 15000000;
  is_sqlite = true;
  is_busy_text = λ t. true;
})

abbrev request : BatchRequest
request = record {
  batch_id = 8;
  referer = "";
  description = "";
  private = false;
  tags = [];
  board_ids = [];
  items =
      record { client_item_id = 3; url = "https://a.example/1.png" }
      ∷ record { client_item_id = 4; url = "https://a.example/2.png" }
      ∷ [];
}

abbrev run : Db × BatchReport
run = process services (finite 25000000) (finite 2000000) 1 request 0 leased_db

process-AreReports_example : AreReports request.items run.1.results
process-AreReports_example =
    process-AreReports services (finite 25000000) (finite 2000000) 1 request 0 leased_db

process-summary_example :
    run.1.summary created + run.1.summary replayed + run.1.summary failed + run.1.summary conflict
    ≡ 2
process-summary_example =
    process-summary services (finite 25000000) (finite 2000000) 1 request 0 leased_db

process-IsCut_example :
    IsCut services (0 + 25000000) 1 request 2000000 0 request.items leased_db (run.0, run.1.results)
process-IsCut_example =
    process-IsCut services 25000000 2000000 1 request 0 leased_db (omega arith) (omega arith)

process-unusable_example :
    let r = process services unusable (finite 2000000) 1 request 0 leased_db in
    (r.0 ≡ leased_db) × (r.1.results ≡ map too_late request.items)
process-unusable_example =
    process-unusable services unusable (finite 2000000) 1 request 0 leased_db refl

safe_stored_error-stored_example :
    stored_error "internal_error" false ≡ ok (record { code = "internal_error"; retryable = false })
unfolding safe_stored_error
safe_stored_error-stored_example = safe_stored_error-stored (some "no such code") (some true)

abbrev new_pin : ℕ → ℕ → Pin
new_pin k user = record { pk = k + 50; submitter = user; private = false; tags = [] }

-- The import creates a pin and records the success on its item.
abbrev importing : Services
importing = record services {
  commit = λ k p user m c deadline db. (
    (record_success c (some (k + 50)) (at_second 41)
        (add_pin (new_pin k user) db.boards db.through db)).0,
    ok (k + 50),
  );
}

kept : AreKept surroundings importing
kept = record {
  world = λ k j db. here;
  commit = λ k p user m c deadline db.
      next (next here (adds_pin (new_pin k user) db.boards db.through))
        (succeeds c (some (k + 50)) (at_second 41));
}

abbrev importing_run : Db × BatchReport
importing_run =
    process (over_store surroundings importing) (finite 40000000) (finite 2000000) 1 request 0
      leased_db

-- Both items are imported.
importing_run-pins : map (λ p. p.pk) importing_run.0.pins ≡ 51 ∷ 50 ∷ map (λ p. p.pk) leased_db.pins
unfolding process claim created_or_existing create_item reevaluate valid_pending record_success
    pin_owned
importing_run-pins = refl

process-IsValid_example : Reach leased_db importing_run.0 × IsValid importing_run.0
process-IsValid_example =
    process-IsValid surroundings importing (finite 40000000) (finite 2000000) 1 request 0 leased_db
      kept leased_db-IsValid

abbrev imported_db : Db
imported_db = (record_success owner (some 10) (at_second 5) leased_db).0

abbrev first_item : Item
first_item = record { client_item_id = 3; url = "https://a.example/1.png" }

imported_db-IsSettled : IsSettled 1 3 5 10 imported_db
unfolding record_success pin_owned
imported_db-IsSettled = record {
  row = _;
  found = refl;
  imported = record { done = refl; request = refl; made = inl refl };
}

admitted_item-IsRepeat_example :
    let r = admitted_item services 25000000 1 request 0 first_item imported_db in
    (r.0 ≡ imported_db) × IsRepeat 3 10 r.1
admitted_item-IsRepeat_example =
    admitted_item-IsRepeat surroundings services 25000000 1 request 0 first_item 10 imported_db
      (λ j d. here) refl (omega arith)
      (Reach-IsValid {a = leased_db} {b = imported_db}
        (next here (succeeds owner (some 10) (at_second 5))) leased_db-IsValid)
      imported_db-IsSettled
