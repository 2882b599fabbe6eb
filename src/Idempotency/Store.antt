-- ===== src/Idempotency/Store.antt =====
-- `IdempotencyStore` of core/services/idempotency.py. A method returns the database after it and
-- its outcome; what other connections commit between two of its statements is an argument.
use svrx_pinry.Prelude.{
  ℕ, ◌+◌, ◌*◌, String, Bool, false, ◌&&◌, ◌||◌, Option, none, some, List, leb, ltb, ◌==◌, opt_eq,
  is_none, is_some, if◌then◌else◌, Outcome, ok, raised, value_error, any,
}
use svrx_pinry.Idempotency.Rows.{
  Instant, is_pending, Row, safe_code, ClaimKind, claimed, failed_claim, ClaimResult,
}
use svrx_pinry.Database.{Pin}

pub record IdempotencyStore : Type 0 where
  pub lease_seconds : ℕ

-- `__init__`, with the setting as the argument where the caller gives none.
pub new_store : Option ℕ → ℕ → Outcome IdempotencyStore
new_store given setting =
    let seconds : ℕ = elim given [ none ↦ setting | some s ↦ s ] in
    if leb seconds 0 then raised value_error else ok (record { lease_seconds = seconds })

-- `value + timedelta(seconds=...)`.
abbrev pub plus_seconds : Instant → ℕ → Instant
plus_seconds t s = record t { micros = t.micros + s * 1000000 }

-- `column > now` and `column <= now` in a filter: false where the column is NULL.
abbrev pub is_after : Option Instant → Instant → Bool
is_after none now = false
is_after (some t) now = ltb now.micros t.micros

abbrev pub is_not_after : Option Instant → Instant → Bool
is_not_after none now = false
is_not_after (some t) now = leb t.micros now.micros

abbrev pub is_aware : Option Instant → Bool
is_aware none = false
is_aware (some t) = t.aware

unfoldable pub valid_generation : Row → Bool
valid_generation row = leb 1 row.lease_generation

unfoldable pub valid_pending : Row → Bool
unfolding valid_generation
valid_pending row =
    valid_generation row
    && is_none row.pin_id
    && is_none row.error_code
    && is_none row.retryable
    && is_some row.lease_uuid
    && is_aware row.lease_expires_at

-- `owned` is the annotation `pin_owned_by_submitter`.
unfoldable pub valid_succeeded : Row → Bool → Bool
unfolding valid_generation
valid_succeeded row owned =
    valid_generation row
    && (is_none row.pin_id || owned)
    && is_none row.error_code
    && is_none row.retryable
    && is_none row.lease_uuid
    && is_none row.lease_expires_at

abbrev has_safe_code : Option String → Bool
has_safe_code none = false
has_safe_code (some code) = safe_code code

unfoldable pub valid_failed : Row → Bool
unfolding valid_generation
valid_failed row =
    valid_generation row
    && is_none row.pin_id
    && has_safe_code row.error_code
    && is_some row.retryable
    && is_none row.lease_uuid
    && is_none row.lease_expires_at

-- `Exists(Pin.objects.filter(pk=OuterRef("pin_id"), submitter_id=OuterRef("submitter_id")))`.
unfoldable pub pin_owned : List Pin → Option ℕ → ℕ → Bool
pin_owned pins pin submitter = any (λ p. opt_eq (some p.pk) pin && p.submitter == submitter) pins

abbrev pub empty_result : ClaimKind → ClaimResult
empty_result kind = record {
  kind = kind;
  row_id = none;
  lease_uuid = none;
  lease_generation = none;
  replay_pin_id = none;
  error = none;
  retry_after_seconds = none;
}

abbrev pub claimed_result : ℕ → ℕ → ℕ → ClaimResult
claimed_result row_id uuid generation = record (empty_result claimed) {
  row_id = some row_id;
  lease_uuid = some uuid;
  lease_generation = some generation;
}

abbrev pub error_result : ClaimKind → ℕ → String → Bool → ClaimResult
error_result kind row_id code retryable = record (empty_result kind) {
  row_id = some row_id;
  error = some (record { code = code; retryable = retryable });
}

abbrev pub internal_failure : Option ℕ → Bool → ClaimResult
internal_failure row_id retryable = record (empty_result failed_claim) {
  row_id = row_id;
  error = some (record { code = "internal_error"; retryable = retryable });
}

-- The filter of `_owned_pending`. A claim with no row id meets no row, since `pk` is not NULL.
unfoldable pub owned_pending : ClaimResult → Instant → Row → Bool
owned_pending claim now row =
    opt_eq (some row.pk) claim.row_id
    && is_pending row.state
    && is_none row.pin_id
    && is_none row.error_code
    && is_none row.retryable
    && opt_eq row.lease_uuid claim.lease_uuid
    && opt_eq (some row.lease_generation) claim.lease_generation
    && is_after row.lease_expires_at now
