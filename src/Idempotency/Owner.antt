-- ===== src/Idempotency/Owner.antt =====
-- The writes of a lease's owner in core/services/idempotency.py: `fence`, `record_failure` and
-- `record_success`. Each is one conditional UPDATE of the items.
use svrx_pinry.Prelude.{
  ℕ, String, Bool, false, ◌&&◌, not, Option, none, some, ◌==◌, if◌then◌else◌, Outcome, ok, raised,
  value_error, update, count,
}
use svrx_pinry.Idempotency.Rows.{
  Instant, succeeded, failed, Row, StoredError, stored_error, ClaimResult,
}
use svrx_pinry.Idempotency.Store.{pin_owned, owned_pending}
use svrx_pinry.Database.{Db}

-- A conditional UPDATE of the items, and whether it changed exactly one row.
abbrev pub write_one : (Row → Bool) → (Row → Row) → Db → Db × Outcome Bool
write_one test write db =
    (record db { items = update test write db.items }, ok (count test db.items == 1))

-- `fence(claim)`, at the time `now` that its wall clock gives.
unfoldable pub fence : ClaimResult → Instant → Db → Db × Outcome Bool
unfolding owned_pending
fence c now db =
    if not now.aware
    then (db, raised value_error)
    else write_one (owned_pending c now) (λ row. record row { updated_at = now }) db

-- The SET clause of `record_failure`.
abbrev pub as_failed : StoredError → Instant → Row → Row
as_failed error now row = record row {
  state = failed;
  pin_id = none;
  error_code = some error.code;
  retryable = some error.retryable;
  lease_uuid = none;
  lease_expires_at = none;
  updated_at = now;
}

-- `record_failure(claim, error)`. An error that is no `StoredError` yet is made one first.
pub data Reported : Type 0 where
  stored : StoredError → Reported
  reported : String → Bool → Reported

unfoldable pub as_stored : Reported → Outcome StoredError
as_stored (stored error) = ok error
as_stored (reported code retryable) = stored_error code retryable

-- The write, once the error is a `StoredError`.
unfoldable pub write_failure : ClaimResult → Instant → Db → Outcome StoredError → Db × Outcome Bool
unfolding owned_pending
write_failure c now db (raised e) = (db, raised e)
write_failure c now db (ok e) = write_one (owned_pending c now) (as_failed e now) db

unfoldable pub record_failure : ClaimResult → Reported → Instant → Db → Db × Outcome Bool
unfolding as_stored write_failure
record_failure c error now db =
    if not now.aware then (db, raised value_error) else write_failure c now db (as_stored error)

-- The SET clause of `record_success`.
abbrev pub as_succeeded : ℕ → Instant → Row → Row
as_succeeded pin now row = record row {
  state = succeeded;
  pin_id = some pin;
  error_code = none;
  retryable = none;
  lease_uuid = none;
  lease_expires_at = none;
  updated_at = now;
}

-- The write for a saved pin; an unsaved one is refused.
unfoldable pub write_success : ClaimResult → Instant → Db → Option ℕ → Db × Outcome Bool
unfolding owned_pending
write_success c now db none = (db, ok false)
write_success c now db (some p) =
    write_one (λ row. owned_pending c now row && pin_owned db.pins (some p) row.submitter)
      (as_succeeded p now) db

-- `record_success(claim, pin)`, where `pin.pk` may be unset.
unfoldable pub record_success : ClaimResult → Option ℕ → Instant → Db → Db × Outcome Bool
unfolding write_success
record_success c pin now db =
    if not now.aware then (db, raised value_error) else write_success c now db pin
