-- ===== src/Idempotency/Rows.antt =====
-- The rows of `BatchImportItem` (core/models.py), the results and the stored errors of
-- core/services/idempotency.py, and that module's validity checks.
use Prim.Native.Char.{code}
use svrx_pinry.Prelude.{
  ℕ, String, Bool, true, false, ◌&&◌, ◌||◌, Option, leb, ◌==◌, if◌then◌else◌, Outcome, ok, raised,
  value_error,
}

-- A datetime: microseconds since an epoch, and whether it carries a time zone.
pub record Instant : Type 0 where
  pub micros : ℕ
  pub aware : Bool

pub data ItemState : Type 0 where
  pending succeeded failed : ItemState

abbrev pub is_pending : ItemState → Bool
is_pending pending = true
is_pending _ = false

abbrev pub is_failed : ItemState → Bool
is_failed failed = true
is_failed _ = false

abbrev pub is_succeeded : ItemState → Bool
is_succeeded succeeded = true
is_succeeded _ = false

-- Keys, UUIDs and the hexadecimal fingerprint are numbers that are only compared. The generation has no
-- upper bound here, that of its column has.
pub record Row : Type 0 where
  pub pk : ℕ
  pub submitter : ℕ
  pub batch_id : ℕ
  pub client_item_id : ℕ
  pub request_fingerprint : ℕ
  pub state : ItemState
  pub pin_id : Option ℕ
  pub error_code : Option String
  pub retryable : Option Bool
  pub lease_uuid : Option ℕ
  pub lease_generation : ℕ
  pub lease_expires_at : Option Instant
  pub created_at : Instant
  pub updated_at : Instant

-- `[a-z]` and `[a-z0-9_]` of `_ERROR_CODE_PATTERN`.
is_lower : ℕ → Bool
is_lower c = leb b'a' c && leb c b'z'

is_word : ℕ → Bool
unfolding is_lower
is_word c = is_lower c || (leb b'0' c && leb c b'9') || c == b'_'

-- `[a-z0-9_]{0,room}\Z`.
word_tail : ℕ → String → Bool
unfolding is_word
word_tail room String.[] = true
word_tail room (String.◌∷◌ c s) = elim room [
  | ℕ.zero ↦ false
  | ℕ.suc left ↦ is_word (code c) && word_tail left s
]

-- `_ERROR_CODE_PATTERN.match(code)`.
unfoldable pub safe_code : String → Bool
unfolding is_lower word_tail
safe_code String.[] = false
safe_code (String.◌∷◌ c s) = is_lower (code c) && word_tail 63 s

pub record StoredError : Type 0 where
  pub code : String
  pub retryable : Bool

-- `StoredError(code, retryable)`, whose `__post_init__` raises on a code of another format.
unfoldable pub stored_error : String → Bool → Outcome StoredError
stored_error c r =
    if safe_code c then ok (record { code = c; retryable = r }) else raised value_error

pub data ClaimKind : Type 0 where
  claimed replayed in_progress conflict failed_claim : ClaimKind

pub record ClaimResult : Type 0 where
  pub kind : ClaimKind
  pub row_id : Option ℕ
  pub lease_uuid : Option ℕ
  pub lease_generation : Option ℕ
  pub replay_pin_id : Option ℕ
  pub error : Option StoredError
  pub retry_after_seconds : Option ℕ
