-- ===== src/Idempotency/Changes.antt =====
-- The steps by what they do to the items: nothing, one new row, one conditional UPDATE, or the
-- loss of a pin. A property of rows is kept by every step if it is kept by each of these.
use svrx_pinry.Prelude.{
  ℕ, suc, ◌≡◌, refl, String, Bool, true, ◌&&◌, not, Option, none, some, List, ◌∷◌, if_elim, Outcome,
  ok, raised, update, arith,
}
use svrx_pinry.Idempotency.Rows.{
  Instant, ItemState, Row, ClaimResult, StoredError, safe_code, stored_error,
}
use svrx_pinry.Idempotency.Store.{owned_pending, pin_owned}
use svrx_pinry.Idempotency.Claim.{reclaimable, reclaimed, create_item, new_item}
use svrx_pinry.Idempotency.Owner.{
  Reported, stored, reported, as_stored, fence, write_failure, write_success, record_failure,
  record_success, as_failed, as_succeeded,
}
use svrx_pinry.Idempotency.Steps.{
  Step, creates, reclaims, fences, fails, succeeds, deletes_pin, adds_pin, add_pin, IsSafe,
}
use svrx_pinry.Database.{Pin, Db, delete_pin, Through, Board}

-- The conditional UPDATEs of the store.
pub data Write : Type 0 where
  reclaim : Row → Instant → ItemState → ℕ → Instant → Write
  touch : ClaimResult → Instant → Write
  fail : ClaimResult → StoredError → Instant → Write
  succeed : ClaimResult → ℕ → Instant → Write

abbrev pub write_test : Write → List Pin → Row → Bool
write_test (reclaim read now expected uuid expires) pins row = reclaimable read now expected row
write_test (touch c now) pins row = owned_pending c now row
write_test (fail c e now) pins row = owned_pending c now row
write_test (succeed c p now) pins row =
    owned_pending c now row && pin_owned pins (some p) row.submitter

abbrev pub write_row : Write → Row → Row
write_row (reclaim read now expected uuid expires) row = reclaimed read now uuid expires row
write_row (touch c now) row = record row { updated_at = now }
write_row (fail c e now) row = as_failed e now row
write_row (succeed c p now) row = as_succeeded p now row

-- What a write may assume of its own values.
abbrev pub IsSound : Write → Type 0
IsSound (reclaim read now expected uuid expires) = expires.aware ≡ true
IsSound (touch c now) = Unit
IsSound (fail c e now) = IsSafe (stored e)
IsSound (succeed c p now) = Unit

pub data Change (db : Db) : Db → Type 0 where
  same : Change db db
  adds :
      (user batch_id client_item_id fingerprint uuid : ℕ) (expires created : Instant)
      → expires.aware ≡ true
      → create_item (new_item user batch_id client_item_id fingerprint uuid expires created) db
        ≡ some (record db {
          items =
              new_item user batch_id client_item_id fingerprint uuid expires created db.next_item_pk
              ∷ db.items;
          next_item_pk = suc db.next_item_pk;
        })
      → Change db (record db {
        items =
            new_item user batch_id client_item_id fingerprint uuid expires created db.next_item_pk
            ∷ db.items;
        next_item_pk = suc db.next_item_pk;
      })
  writes :
      (w : Write)
      → IsSound w
      → Change db (record db { items = update (write_test w db.pins) (write_row w) db.items })
  unpins : (pin : ℕ) → Change db (delete_pin pin db)
  pins_one :
      (pin : Pin) (boards : List Board) (through : List Through)
      → Change db (add_pin pin boards through db)

pub create_item-eq-some :
    (make : ℕ → Row) (db db' : Db)
    → create_item make db ≡ some db'
    → db'
      ≡ record db { items = make db.next_item_pk ∷ db.items; next_item_pk = suc db.next_item_pk }
unfolding create_item
create_item-eq-some make db db' c = ground arith

fence-Change : (c : ClaimResult) (now : Instant) (db : Db) → Change db (fence c now db).0
unfolding fence
fence-Change c now db =
    if_elim (λ (r : Db × Outcome Bool). Change db r.0) (not now.aware) _ _ same
      (writes (touch c now) tt)

stored_error-safe :
    (code : String) (retryable : Bool) (e : StoredError)
    → stored_error code retryable ≡ ok e
    → safe_code e.code ≡ true
unfolding stored_error
stored_error-safe code retryable e h = ground arith

as_stored-safe :
    (error : Reported) (e : StoredError)
    → IsSafe error
    → as_stored error ≡ ok e
    → safe_code e.code ≡ true
unfolding as_stored
as_stored-safe (stored error) e safe h = ground arith
as_stored-safe (reported code retryable) e safe h = stored_error-safe code retryable e h

write_failure-Change :
    (c : ClaimResult) (now : Instant) (db : Db) (o : Outcome StoredError)
    → ((e : StoredError) → o ≡ ok e → safe_code e.code ≡ true)
    → Change db (write_failure c now db o).0
unfolding write_failure
write_failure-Change c now db (raised x) safe = same
write_failure-Change c now db (ok e) safe = writes (fail c e now) (safe e refl)

record_failure-Change :
    (c : ClaimResult) (error : Reported) (now : Instant) (db : Db)
    → IsSafe error
    → Change db (record_failure c error now db).0
unfolding record_failure
record_failure-Change c error now db safe =
    if_elim (λ (r : Db × Outcome Bool). Change db r.0) (not now.aware) _ _ same
      (write_failure-Change c now db (as_stored error) (λ e h. as_stored-safe error e safe h))

write_success-Change :
    (c : ClaimResult) (now : Instant) (db : Db) (pin : Option ℕ)
    → Change db (write_success c now db pin).0
unfolding write_success
write_success-Change c now db none = same
write_success-Change c now db (some p) = writes (succeed c p now) tt

record_success-Change :
    (c : ClaimResult) (pin : Option ℕ) (now : Instant) (db : Db)
    → Change db (record_success c pin now db).0
unfolding record_success
record_success-Change c pin now db =
    if_elim (λ (r : Db × Outcome Bool). Change db r.0) (not now.aware) _ _ same
      (write_success-Change c now db pin)

creates-Change :
    (user batch_id client_item_id fingerprint uuid : ℕ) (expires created : Instant) (a b : Db)
    → expires.aware ≡ true
    → create_item (new_item user batch_id client_item_id fingerprint uuid expires created) a
      ≡ some b
    → Change a b
creates-Change user batch_id client_item_id fingerprint uuid expires created a b aware e =
    let eq = create_item-eq-some _ a b e in
    rw eq (adds user batch_id client_item_id fingerprint uuid expires created aware (rw eq at e))

pub Step-Change : {a b : Db} → Step a b → Change a b
Step-Change {a} {b}
      (creates user batch_id client_item_id fingerprint uuid expires created _ aware e) =
    creates-Change user batch_id client_item_id fingerprint uuid expires created a b aware e
Step-Change (reclaims read now expected uuid expires aware) =
    writes (reclaim read now expected uuid expires) aware
Step-Change {a} (fences c now) = fence-Change c now a
Step-Change {a} (fails c error now safe) = record_failure-Change c error now a safe
Step-Change {a} (succeeds c pin now) = record_success-Change c pin now a
Step-Change (deletes_pin pin) = unpins pin
Step-Change (adds_pin pin boards through) = pins_one pin boards through
