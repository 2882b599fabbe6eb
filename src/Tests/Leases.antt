-- ===== src/Tests/Leases.antt =====
-- Examples for the theorems on core/services/idempotency.py.
use svrx_pinry.Prelude.{◌+◌, ◌≡◌, refl, some, ok, Outcome, arith}
use svrx_pinry.Idempotency.Rows.{ClaimResult}
use svrx_pinry.Idempotency.Store.{claimed_result, pin_owned, valid_pending}
use svrx_pinry.Idempotency.Claim.{
  claim, reevaluate, create_item, created_or_existing, evaluate_existing, reclaimable,
}
use svrx_pinry.Idempotency.Owner.{record_success}
use svrx_pinry.Idempotency.Steps.{succeeds, here, next}
use svrx_pinry.Idempotency.Invariant.{IsValid, Reach-IsValid}
use svrx_pinry.Idempotency.Leases.{IsRefused, lost_lease-IsRefused}
use svrx_pinry.Idempotency.Claims.{IsSoundClaim}
use svrx_pinry.Idempotency.Interference.{claim-IsSound, older_claim-IsRefused}
use svrx_pinry.Idempotency.Once.{IsReplay, imported_once}
use svrx_pinry.Database.{Db}
use svrx_pinry.Tests.Data.{
  at_second, a_store, alone, alone-Reach, leased_row, leased_db, owner, leased_db-IsValid,
}

abbrev imported_db : Db
imported_db = (record_success owner (some 10) (at_second 5) leased_db).0

abbrev later_claim : Db × Outcome ClaimResult
later_claim = claim a_store alone (λ n. 200 + n) (at_second 40) 1 8 3 5 (at_second 40) imported_db

imported_once_example :
    (later_claim.0 ≡ imported_db) × ((c : ClaimResult) × (later_claim.1 ≡ ok c) × IsReplay 10 c)
unfolding record_success pin_owned
imported_once_example =
    imported_once a_store alone (λ n. 200 + n) (at_second 40) 1 3 8 10 owner (at_second 5)
      (at_second 40) leased_db imported_db leased_row refl alone-Reach leased_db-IsValid refl refl
      refl here

-- The lease has expired at second 40, and another connection takes it over.
abbrev take_over : Db × Outcome ClaimResult
take_over = claim a_store alone (λ n. 200 + n) (at_second 40) 1 7 3 5 (at_second 40) leased_db

claim-IsSound_example : IsSoundClaim leased_db take_over
claim-IsSound_example =
    claim-IsSound a_store alone (λ n. 200 + n) (at_second 40) 1 7 3 5 (at_second 40) leased_db
      alone-Reach leased_db-IsValid

older_claim-IsRefused_example : IsRefused owner take_over.0
unfolding claim created_or_existing create_item reevaluate evaluate_existing reclaimable
    valid_pending
older_claim-IsRefused_example =
    older_claim-IsRefused a_store alone (λ n. 200 + n) (at_second 40) 1 7 3 5 (at_second 40)
      leased_db take_over.0 owner (claimed_result 1 201 2) 1 1 2 alone-Reach leased_db-IsValid refl
      refl refl refl refl refl (omega arith) here

lost_lease-IsRefused_example : IsRefused (claimed_result 1 100 0) leased_db
lost_lease-IsRefused_example =
    lost_lease-IsRefused 1 0 (claimed_result 1 100 0) {a = leased_db} {b = leased_db} refl refl
      (record { known = omega arith; past = (refl, tt) }) here

Reach-IsValid_example : IsValid imported_db
Reach-IsValid_example =
    Reach-IsValid {a = leased_db} {b = imported_db}
      (next here (succeeds owner (some 10) (at_second 5))) leased_db-IsValid
