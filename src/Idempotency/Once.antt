-- ===== src/Idempotency/Once.antt =====
-- Exactly one import: after `record_success`, every later `claim` of that item answers with the pin.
use svrx_pinry.Prelude.{
  ℕ, suc, ◌≡◌, refl, inl, inr, Bool, true, false, ◌&&◌, ◌||◌, not, Option, none, some, All, find,
  find-All, find-any, find-update, ◌==◌, if◌then◌else◌, if_elim, if_cases, Outcome, ok, ok_inj,
  ==_iff, count, arith,
}
use svrx_pinry.Idempotency.Rows.{Instant, Row, ClaimResult, replayed, failed_claim}
use svrx_pinry.Idempotency.Store.{
  IdempotencyStore, plus_seconds, pin_owned, empty_result, error_result, owned_pending,
}
use svrx_pinry.Idempotency.Claim.{
  evaluate_existing, same_key, new_item, create_item, reevaluate, created_or_existing, claim,
}
use svrx_pinry.Idempotency.Owner.{record_success, write_success, as_succeeded}
use svrx_pinry.Idempotency.Steps.{Reach, here, next, succeeds, Reach-trans}
use svrx_pinry.Idempotency.Invariant.{IsValid, is_shaped, Reach-IsValid}
use svrx_pinry.Idempotency.Unique.{count-keyed}
use svrx_pinry.Idempotency.Settled.{IsImported, IsSettled, Reach-IsSettled}
use svrx_pinry.Database.{Db}

module _ (c : ClaimResult) (now : Instant) (p : ℕ) (user item : ℕ) (db : Db) (row : Row)
    (valid : IsValid db) (found : find (same_key user item) db.items ≡ some row)
    (row_id : c.row_id ≡ some row.pk) where
  abbrev success_test : Row → Bool
  success_test r = owned_pending c now r && pin_owned db.pins (some p) r.submitter

  success_test-pk : (r : Row) → success_test r ≡ true → r.pk ≡ row.pk
  unfolding owned_pending
  success_test-pk r h = ground arith

  success_test-row : count success_test db.items ≡ 1 → success_test row ≡ true
  success_test-row one =
      let met =
        count-keyed success_test row.pk success_test-pk db.next_item_pk 0 db.items valid.fresh
          one in
      ground (
        arith,
        (find-All (λ r. (not (r.pk == row.pk) || success_test r) ≡ true) (same_key user item)
            db.items met found).0,
      )

  write_success-IsSettled :
      (write_success c now db (some p)).1 ≡ ok true
      → IsSettled user item row.request_fingerprint p (write_success c now db (some p)).0
  unfolding write_success
  write_success-IsSettled h =
      let met = success_test-row ((==_iff _ 1).0 (ok_inj h)) in
      record {
        row = if success_test row then as_succeeded p now row else row;
        found =
            find-update (same_key user item) success_test (as_succeeded p now) db.items (λ r. refl)
              found;
        imported = ground arith;
      }

  pub record_success-IsSettled :
      (record_success c (some p) now db).1 ≡ ok true
      → IsSettled user item row.request_fingerprint p (record_success c (some p) now db).0
  unfolding record_success
  record_success-IsSettled =
      if_elim
        (λ (r : Db × Outcome Bool).
          r.1 ≡ ok true → IsSettled user item row.request_fingerprint p r.0)
        (not now.aware) _ _ (λ h. cc) write_success-IsSettled

-- The answer to a claim of an item that was imported as `pin`: that pin, or that it was deleted.
pub data IsReplay (pin : ℕ) (c : ClaimResult) : Type 0 where
  replay : c.kind ≡ replayed → c.replay_pin_id ≡ some pin → IsReplay pin c
  deleted :
      c.kind ≡ failed_claim
      → c.error ≡ some (record { code = "pin_permanently_deleted"; retryable = false })
      → IsReplay pin c

-- What `_evaluate_existing` answers for a success.
abbrev settled_answer : ℕ → Option ℕ → ClaimResult
settled_answer pk none = error_result failed_claim pk "pin_permanently_deleted" false
settled_answer pk (some pin) = record (empty_result replayed) {
  row_id = some pk;
  replay_pin_id = some pin;
}

module _ (user item fingerprint p : ℕ) where
  evaluate-settled :
      (store : IdempotencyStore) (meanwhile : Db → Db) (uuid : ℕ) (now : Instant) (db : Db)
      (row : Row)
      → IsImported user item fingerprint p row
      → is_shaped db.pins row ≡ true
      → evaluate_existing store meanwhile uuid row
          (pin_owned db.pins row.pin_id row.submitter)
          fingerprint
          now
          db
        ≡ (db, some (settled_answer row.pk row.pin_id))
  unfolding evaluate_existing
  evaluate-settled store meanwhile uuid now db row h shaped = elim h.made [
    | inl e ↦ ground arith
    | inr e ↦ ground arith
  ]

  settled_answer-IsReplay :
      (row : Row)
      → IsImported user item fingerprint p row
      → IsReplay p (settled_answer row.pk row.pin_id)
  settled_answer-IsReplay row h = elim h.made [
    | inl e ↦ rw e (replay refl refl)
    | inr e ↦ rw e (deleted refl refl)
  ]

  create_item-settled :
      (make : ℕ → Row) (db : Db) {row : Row}
      → (make db.next_item_pk).submitter ≡ user
      → (make db.next_item_pk).client_item_id ≡ item
      → find (same_key user item) db.items ≡ some row
      → create_item make db ≡ none
  unfolding create_item
  create_item-settled make db {row} u i f =
      ground (arith, find-any (same_key user item) db.items {x = row})

  -- The first round, after the reads that others may have come between.
  reevaluate-IsReplay :
      (store : IdempotencyStore) (world : ℕ → Db → Db) (uuids : ℕ → ℕ) (now : Instant) (left : ℕ)
      (last : Option ℕ) (db : Db)
      → IsSettled user item fingerprint p (world 1 db)
      → All (λ r. is_shaped (world 1 db).pins r ≡ true) (world 1 db).items
      → let r = reevaluate store world uuids user item fingerprint now (suc left) 0 last db in
        (r.0 ≡ world 1 db) × ((c : ClaimResult) × (r.1 ≡ ok c) × IsReplay p c)
  reevaluate-IsReplay store world uuids now left last db settled shaped =
      let row = settled.row in
      let good =
        (find-All (λ r. is_shaped (world 1 db).pins r ≡ true) (same_key user item)
          (world 1 db).items shaped settled.found).0 in
      let answer =
        evaluate-settled store (world 2) (uuids 1) now (world 1 db) row settled.imported good in
      unfold reevaluate in
      rw (settled.found, reevaluate)
        (rw answer (
          refl,
          (settled_answer row.pk row.pin_id, refl, settled_answer-IsReplay row settled.imported),
        ))

  pub claim-IsReplay :
      (store : IdempotencyStore) (world : ℕ → Db → Db) (uuids : ℕ → ℕ) (created : Instant)
      (batch_id : ℕ) (now : Instant) (db : Db)
      → now.aware ≡ true
      → ((k : ℕ) (d : Db) → Reach d (world k d))
      → IsValid db
      → IsSettled user item fingerprint p db
      → let r = claim store world uuids created user batch_id item fingerprint now db in
        (r.0 ≡ world 1 (world 0 db)) × ((c : ClaimResult) × (r.1 ≡ ok c) × IsReplay p c)
  unfolding claim created_or_existing
  claim-IsReplay store world uuids created batch_id now db aware steps valid settled =
      let first = Reach-IsSettled user item fingerprint p (steps 0 db) settled in
      let again : Reach db (world 1 (world 0 db)) =
        Reach-trans (steps 0 db) (steps 1 (world 0 db)) in
      let second = Reach-IsSettled user item fingerprint p again settled in
      let taken =
        create_item-settled
          (new_item user batch_id item fingerprint (uuids 0) (plus_seconds now store.lease_seconds)
            created)
          (world 0 db) refl refl first.found in
      if_cases
        (λ (r : Db × Outcome ClaimResult).
          (r.0 ≡ world 1 (world 0 db)) × ((c : ClaimResult) × (r.1 ≡ ok c) × IsReplay p c))
        (not now.aware) _ _ (λ naive. ground arith)
        (λ _. rw taken (
          reevaluate-IsReplay store world uuids now 3 none (world 0 db) second
            (Reach-IsValid again valid).shaped))

-- In a database with well-formed items, let `record_success` return True for a claim's row and a
-- pin, and let any steps of the store and deletions of pins follow. A claim of that item with the
-- same fingerprint and an aware clock, whatever others commit by such steps between its
-- statements, then ends, writes nothing of its own, and answers with that pin or with its
-- permanent deletion.
pub imported_once :
    (store : IdempotencyStore) (world : ℕ → Db → Db) (uuids : ℕ → ℕ) (created : Instant)
    (user item batch_id pin : ℕ) (owner : ClaimResult) (then_now later_now : Instant) (a b : Db)
    (row : Row)
    → later_now.aware ≡ true
    → ((k : ℕ) (d : Db) → Reach d (world k d))
    → IsValid a
    → find (same_key user item) a.items ≡ some row
    → owner.row_id ≡ some row.pk
    → (record_success owner (some pin) then_now a).1 ≡ ok true
    → Reach (record_success owner (some pin) then_now a).0 b
    → let r =
        claim store world uuids created user batch_id item row.request_fingerprint later_now b in
      (r.0 ≡ world 1 (world 0 b)) × ((c : ClaimResult) × (r.1 ≡ ok c) × IsReplay pin c)
imported_once store world uuids created user item batch_id pin owner t now a b row aware steps valid
      found row_id success reach =
    let settled = record_success-IsSettled owner t pin user item a row valid found row_id success in
    let valid_b =
      Reach-IsValid reach (Reach-IsValid (next here (succeeds owner (some pin) t)) valid) in
    claim-IsReplay user item row.request_fingerprint pin store world uuids created batch_id now b
      aware steps valid_b (Reach-IsSettled user item row.request_fingerprint pin reach settled)
