-- ===== src/Idempotency/Claim.antt =====
-- `claim` of `IdempotencyStore` (core/services/idempotency.py), with its compare-and-set loop.
use svrx_pinry.Prelude.{
  ℕ, zero, suc, ◌+◌, ◌-◌, ◌*◌, ◌/◌, max, String, Bool, true, false, ◌&&◌, ◌||◌, not, Option, none,
  some, ◌∷◌, ◌==◌, opt_eq, if◌then◌else◌, contains, Outcome, ok, raised, value_error,
  integrity_error, any, find, update, count,
}
use svrx_pinry.Idempotency.Rows.{
  Instant, ItemState, pending, succeeded, failed, is_pending, is_failed, Row, replayed, in_progress,
  conflict, failed_claim, ClaimResult,
}
use svrx_pinry.Idempotency.Store.{
  IdempotencyStore, plus_seconds, is_after, is_not_after, valid_pending, valid_succeeded,
  valid_failed, pin_owned, empty_result, claimed_result, error_result, internal_failure,
}
use svrx_pinry.Database.{Db}

-- `max(1, ceil((expires - now).total_seconds()))`.
abbrev retry_after : Option Instant → Instant → ℕ
retry_after none now = 1
retry_after (some expires) now = max 1 ((expires.micros - now.micros + 999999) / 1000000)

-- The filter of the UPDATE in `_reclaim`, by the row that was read before.
unfoldable pub reclaimable : Row → Instant → ItemState → Row → Bool
reclaimable read now expected row =
    row.pk == read.pk
    && row.request_fingerprint == read.request_fingerprint
    && (elim expected [ pending ↦ is_pending row.state | _ ↦ is_failed row.state ])
    && opt_eq row.lease_uuid read.lease_uuid
    && row.lease_generation == read.lease_generation
    && (elim expected [
      | pending ↦ is_not_after row.lease_expires_at now
      | _ ↦ elim row.retryable [ some true ↦ true | _ ↦ false ]
    ])

-- The SET clause of that UPDATE.
unfoldable pub reclaimed : Row → Instant → ℕ → Instant → Row → Row
reclaimed read now uuid expires row = record row {
  state = pending;
  pin_id = none;
  error_code = none;
  retryable = none;
  lease_uuid = some uuid;
  lease_generation = read.lease_generation + 1;
  lease_expires_at = some expires;
  updated_at = now;
}

-- `none` where the row has changed since it was read.
unfoldable pub reclaim :
    IdempotencyStore → (Db → Db) → ℕ → Row → Instant → ItemState → Db → Db × Option ClaimResult
unfolding reclaimable reclaimed
reclaim store meanwhile uuid read now expected db =
    let db' = meanwhile db in
    let test = reclaimable read now expected in
    let write = reclaimed read now uuid (plus_seconds now store.lease_seconds) in
    (
      record db' { items = update test write db'.items },
      if count test db'.items == 1
          then some (claimed_result read.pk uuid (read.lease_generation + 1))
          else none,
    )

-- `row.error_code`, which is a text where `_valid_failed` holds.
abbrev stored_code : Option String → String
stored_code none = ""
stored_code (some code) = code

-- The branches of `_evaluate_existing` after the fingerprint.
unfoldable pub evaluate_state :
    ItemState
    → IdempotencyStore
    → (Db → Db)
    → ℕ
    → Row
    → Bool
    → Instant
    → Db
    → Db × Option ClaimResult
unfolding reclaim
evaluate_state succeeded store meanwhile uuid row owned now db =
    if not (valid_succeeded row owned)
    then (db, some (internal_failure (some row.pk) false))
    else elim row.pin_id [
      | none ↦ (db, some (error_result failed_claim row.pk "pin_permanently_deleted" false))
      | some pin ↦ (
        db,
        some (record (empty_result replayed) { row_id = some row.pk; replay_pin_id = some pin }),
      )
    ]
evaluate_state pending store meanwhile uuid row owned now db =
    if not (valid_pending row)
    then (db, some (internal_failure (some row.pk) false))
    else if is_after row.lease_expires_at now
    then (
      db,
      some (record (error_result in_progress row.pk "in_progress" true) {
        retry_after_seconds = some (retry_after row.lease_expires_at now);
      }),
    )
    else reclaim store meanwhile uuid row now pending db
evaluate_state failed store meanwhile uuid row owned now db =
    if not (valid_failed row)
    then (db, some (internal_failure (some row.pk) false))
    else elim row.retryable [
      | some true ↦ reclaim store meanwhile uuid row now failed db
      | _ ↦ (db, some (error_result failed_claim row.pk (stored_code row.error_code) false))
    ]

-- `_evaluate_existing`; `meanwhile` is what others commit between reading the row and the UPDATE.
unfoldable pub evaluate_existing :
    IdempotencyStore → (Db → Db) → ℕ → Row → Bool → ℕ → Instant → Db → Db × Option ClaimResult
unfolding evaluate_state
evaluate_existing store meanwhile uuid row owned fingerprint now db =
    if not (row.request_fingerprint == fingerprint)
    then (db, some (error_result conflict row.pk "idempotency_mismatch" false))
    else evaluate_state row.state store meanwhile uuid row owned now db

-- The unique constraint on `submitter` and `client_item_id`, as a test of one row.
abbrev pub same_key : ℕ → ℕ → Row → Bool
same_key user client_item_id row = row.submitter == user && row.client_item_id == client_item_id

-- The row that `claim` creates.
abbrev pub new_item : ℕ → ℕ → ℕ → ℕ → ℕ → Instant → Instant → ℕ → Row
new_item user batch_id client_item_id fingerprint uuid expires created pk = record {
  pk = pk;
  submitter = user;
  batch_id = batch_id;
  client_item_id = client_item_id;
  request_fingerprint = fingerprint;
  state = pending;
  pin_id = none;
  error_code = none;
  retryable = none;
  lease_uuid = some uuid;
  lease_generation = 1;
  lease_expires_at = some expires;
  created_at = created;
  updated_at = created;
}

-- `objects.create` in its own transaction: `none` is an `IntegrityError`, by the unique constraint
-- or by the foreign key to the user.
unfoldable pub create_item : (ℕ → Row) → Db → Option Db
create_item make db =
    let row = make db.next_item_pk in
    if any (same_key row.submitter row.client_item_id) db.items
      || not (contains row.submitter db.users)
    then none
    else some (record db { items = row ∷ db.items; next_item_pk = suc db.next_item_pk })

-- `if result is not None: return result`, else the next round.
abbrev pub answer_or_retry :
    (Db → Db × Outcome ClaimResult) → Db × Option ClaimResult → Db × Outcome ClaimResult
answer_or_retry retry (db, some r) = (db, ok r)
answer_or_retry retry (db, none) = retry db

-- The `for` loop of `claim`. Round `k` reads after `world (2k + 1)` and writes after
-- `world (2k + 2)`; `last` is the row id of the round before.
module _ (store : IdempotencyStore) (world : ℕ → Db → Db) (uuids : ℕ → ℕ)
    (user client_item_id fingerprint : ℕ) (now : Instant) where
  unfoldable pub reevaluate : ℕ → ℕ → Option ℕ → Db → Db × Outcome ClaimResult
  unfolding evaluate_existing
  reevaluate zero k last db = (db, ok (internal_failure last true))
  reevaluate (suc left) k last db =
      let db' = world (2 * k + 1) db in
      elim (find (same_key user client_item_id) db'.items) [
        | none ↦ (db', raised integrity_error)
        | some row ↦
            let owned = pin_owned db'.pins row.pin_id row.submitter in
            let meanwhile = world (2 * k + 2) in
            answer_or_retry (reevaluate left (suc k) (some row.pk))
              (evaluate_existing store meanwhile (uuids (suc k)) row owned fingerprint now db')
      ]

-- `_CAS_REEVALUATION_LIMIT`
abbrev pub cas_reevaluation_limit : ℕ
cas_reevaluation_limit = 4

-- What follows the INSERT: its lease, or the loop over the row that is there.
unfoldable pub created_or_existing :
    IdempotencyStore
    → (ℕ → Db → Db)
    → (ℕ → ℕ)
    → ℕ
    → ℕ
    → ℕ
    → Instant
    → Db
    → Option Db
    → Db × Outcome ClaimResult
created_or_existing store world uuids user client_item_id fingerprint now db (some db') =
    (db', ok (claimed_result db.next_item_pk (uuids 0) 1))
created_or_existing store world uuids user client_item_id fingerprint now db none =
    reevaluate store world uuids user client_item_id fingerprint now cas_reevaluation_limit 0 none
      db

-- `claim`. `uuids` are the successive values of `uuid4()`, and `created` is the clock of the row's
-- automatic timestamps.
unfoldable pub claim :
    IdempotencyStore
    → (ℕ → Db → Db)
    → (ℕ → ℕ)
    → Instant
    → ℕ
    → ℕ
    → ℕ
    → ℕ
    → Instant
    → Db
    → Db × Outcome ClaimResult
claim store world uuids created user batch_id client_item_id fingerprint now db =
    if not now.aware
    then (db, raised value_error)
    else let expires = plus_seconds now store.lease_seconds in
      let make = new_item user batch_id client_item_id fingerprint (uuids 0) expires created in
      let db' = world 0 db in
      created_or_existing store world uuids user client_item_id fingerprint now db'
        (create_item make db')
