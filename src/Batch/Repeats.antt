-- ===== src/Batch/Repeats.antt =====
-- An item that was imported before (core/services/batch_import.py over core/services/idempotency.py) is
-- answered with its pin.
use svrx_pinry.Prelude.{
  ℕ, ◌+◌, ◌≤◌, min, ◌≡◌, refl, ◌∙◌, ◌⊎◌, inl, inr, true, false, none, some, arith, Outcome, ok,
}
use svrx_pinry.Idempotency.Rows.{ClaimResult}
use svrx_pinry.Idempotency.Claim.{claim}
use svrx_pinry.Idempotency.Steps.{Reach}
use svrx_pinry.Idempotency.Invariant.{IsValid}
use svrx_pinry.Idempotency.Settled.{IsSettled}
use svrx_pinry.Idempotency.Once.{IsReplay, replay, deleted, claim-IsReplay}
use svrx_pinry.Batch.Errors.{safe_stored_error, failed, ImportResult, error_result, pin_result}
use svrx_pinry.Batch.Errors
use svrx_pinry.Batch.Service.{
  Services, Item, BatchRequest, ImportMetadata, map_claim, item_deadline_seconds,
}
use svrx_pinry.Batch.Process.{metadata_of, process_claimed, admitted_item}
use svrx_pinry.Database.{Db}
use svrx_pinry.Batch.Leases.{Surroundings, over_store}

-- The two answers to an item that was imported as `pin`.
abbrev pub IsRepeat : ℕ → ℕ → ImportResult → Type 0
IsRepeat id pin r =
    (r ≡ pin_result (some id) Errors.replayed pin)
    ⊎ (r
        ≡ error_result (some id) failed
            (record { code = "pin_permanently_deleted"; retryable = false }) none)

IsReplay-IsRepeat :
    (s : Services) (k user : ℕ) (m : ImportMetadata) (id deadline pin : ℕ) (db : Db)
    (c : ClaimResult)
    → 1 ≤ pin
    → IsReplay pin c
    → let r = process_claimed s k user m id deadline (db, ok c) in (r.0 ≡ db) × IsRepeat id pin r.1
unfolding process_claimed map_claim safe_stored_error
IsReplay-IsRepeat s k user m id deadline pin db c p (replay kind is) =
    rw (kind, is) (refl, inl (ground arith))
IsReplay-IsRepeat s k user m id deadline pin db c p (deleted kind error) =
    rw (kind, error) (refl, inr refl)

-- In a database with well-formed items where the item is settled as imported with a positive key
-- `pin` for the same fingerprint, an admitted item of a batch with an aware wall clock, whatever
-- others commit by steps of the store, is reported as replayed with that pin, or as failed since
-- the pin is permanently deleted; the batch writes nothing of its own for it.
pub admitted_item-IsRepeat :
    (w : Surroundings) (s : Services) (batch_deadline user : ℕ) (request : BatchRequest) (k : ℕ)
    (item : Item) (pin : ℕ) (db : Db)
    → ((j : ℕ) (d : Db) → Reach d (w.world k j d))
    → (w.wall_clock k).aware ≡ true
    → 1 ≤ pin
    → IsValid db
    → IsSettled user item.client_item_id (s.fingerprint (metadata_of request item)) pin db
    → let r = admitted_item (over_store w s) batch_deadline user request k item db in
      (r.0 ≡ w.world k 1 (w.world k 0 db)) × IsRepeat item.client_item_id pin r.1
unfolding admitted_item
admitted_item-IsRepeat w s batch_deadline user request k item pin db steps aware p valid settled =
    let m = metadata_of request item in
    let fingerprint = s.fingerprint m in
    let deadline = min batch_deadline (s.clock k + item_deadline_seconds) in
    let (state, (c, answer, replayed)) =
      claim-IsReplay user item.client_item_id fingerprint pin w.store (w.world k) (w.uuids k)
        (w.created_at k) request.batch_id (w.wall_clock k) db aware steps valid settled in
    answered deadline
      (claim w.store (w.world k) (w.uuids k) (w.created_at k) user request.batch_id
        item.client_item_id fingerprint (w.wall_clock k) db)
      c state answer replayed
  where
    answered :
        (deadline : ℕ) (o : Db × Outcome ClaimResult) (c : ClaimResult)
        → o.0 ≡ w.world k 1 (w.world k 0 db)
        → o.1 ≡ ok c
        → IsReplay pin c
        → let r =
            process_claimed
              (over_store w s)
              k
              user
              (metadata_of request item)
              item.client_item_id
              deadline
              o in
          (r.0 ≡ w.world k 1 (w.world k 0 db)) × IsRepeat item.client_item_id pin r.1
    answered deadline (d, o) c state answer replayed = rw answer (
        let (same, repeat) =
          IsReplay-IsRepeat (over_store w s) k user (metadata_of request item) item.client_item_id
            deadline pin d c p replayed in
        (same ∙ state, repeat))
