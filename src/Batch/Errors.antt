-- ===== src/Batch/Errors.antt =====
-- The error tables of core/services/batch_import.py, and the errors and results that they make safe.
use svrx_pinry.Prelude.{
  ℕ, String, Bool, true, false, ◌≡◌, refl, inl, inr, Option, none, some, List, [], ◌∷◌, str_eq,
  if◌then◌else◌, is_some, Option-cases,
}
use svrx_pinry.Idempotency.Rows.{StoredError}

-- `_SAFE_MESSAGES`
abbrev pub safe_messages : List (String × String)
safe_messages =
    ("batch_deadline_exceeded", "The batch deadline does not allow another item.")
    ∷ ("in_progress", "This item is already being imported.")
    ∷ ("idempotency_mismatch", "This item identifier was already used for different input.")
    ∷ ("pin_permanently_deleted", "The previously imported pin is no longer available.")
    ∷ ("lease_lost", "The import lease is no longer owned by this request.")
    ∷ ("board_access_changed", "Board access changed while the item was being imported.")
    ∷ ("database_busy", "The database is temporarily busy.")
    ∷ ("internal_error", "The image import could not be completed safely.")
    ∷ ("unsupported_http_stack", "The configured HTTP stack is not supported.")
    ∷ ("invalid_url_policy", "The image URL is not allowed.")
    ∷ ("blocked_address", "The image URL resolves to a blocked address.")
    ∷ ("dns_rebinding_detected", "The connected address did not match the validated address.")
    ∷ ("too_many_redirects", "The image URL redirected too many times.")
    ∷ ("image_download_failed", "The image could not be downloaded.")
    ∷ ("image_fetch_timeout", "The image download timed out.")
    ∷ ("unsupported_content_encoding", "The image response used an unsupported content encoding.")
    ∷ ("image_too_large", "The image exceeded the download size limit.")
    ∷ ("image_too_many_pixels", "The image exceeded the pixel limit.")
    ∷ ("invalid_image_content", "The response was not a valid image.")
    ∷ ("unsupported_image_format", "The response image format is not supported.")
    ∷ ("image_processing_timeout", "The image could not be processed before the deadline.")
    ∷ ("media_path_conflict", "The media destination could not be used safely.")
    ∷ ("image_processing_failed", "The image could not be processed safely.")
    ∷ ("media_configuration_error", "The image storage configuration is invalid.")
    ∷ ("media_publish_changed", "The published media changed before it could be committed.")
    ∷ ("media_storage_failed", "The media storage is temporarily unavailable.")
    ∷ ("media_storage_unsupported", "Atomic media publishing is not supported on this system.")
    ∷ []

-- `_FIXED_RETRYABILITY`
abbrev pub fixed_retryability : List (String × Bool)
fixed_retryability =
    ("batch_deadline_exceeded", true)
    ∷ ("in_progress", true)
    ∷ ("idempotency_mismatch", false)
    ∷ ("pin_permanently_deleted", false)
    ∷ ("lease_lost", true)
    ∷ ("board_access_changed", false)
    ∷ ("database_busy", true)
    ∷ ("internal_error", false)
    ∷ ("unsupported_http_stack", false)
    ∷ ("invalid_url_policy", false)
    ∷ ("blocked_address", false)
    ∷ ("dns_rebinding_detected", false)
    ∷ ("too_many_redirects", false)
    ∷ ("image_fetch_timeout", true)
    ∷ ("unsupported_content_encoding", false)
    ∷ ("image_too_large", false)
    ∷ ("image_too_many_pixels", false)
    ∷ ("invalid_image_content", false)
    ∷ ("unsupported_image_format", false)
    ∷ ("image_processing_timeout", true)
    ∷ ("media_path_conflict", false)
    ∷ ("image_processing_failed", false)
    ∷ ("media_configuration_error", false)
    ∷ ("media_publish_changed", false)
    ∷ ("media_storage_failed", true)
    ∷ ("media_storage_unsupported", false)
    ∷ []

-- `table.get(key)`.
unfoldable pub get {ℓ} : {A : Type ℓ} → String → List (String × A) → Option A
get key [] = none
get key ((k, a) ∷ rest) = let later = get key rest in if str_eq key k then some a else later

abbrev pub internal_error : StoredError
internal_error = record { code = "internal_error"; retryable = false }

abbrev fixed_or : Option Bool → Bool → Bool
fixed_or none given = given
fixed_or (some fixed) given = fixed

-- `_FIXED_RETRYABILITY.get(code, retryable)`.
unfoldable pub retryability : String → Bool → Bool
unfolding get
retryability code given = fixed_or (get code fixed_retryability) given

-- `_safe_stored_error`, of the two attributes that it reads.
unfoldable pub safe_stored_error : Option String → Option Bool → StoredError
unfolding get retryability
safe_stored_error none retryable = internal_error
safe_stored_error (some code) none = internal_error
safe_stored_error (some code) (some retryable) = elim (get code safe_messages) [
  | none ↦ internal_error
  | some message ↦ record { code = code; retryable = retryability code retryable }
]

pub data ImportStatus : Type 0 where
  created replayed failed conflict : ImportStatus

pub record ErrorDetail : Type 0 where
  pub code : String
  pub message : Option String  -- none where `_SAFE_MESSAGES[code]` raises
  pub retryable : Bool
  pub retry_after_seconds : Option ℕ

pub record ImportResult : Type 0 where
  pub client_item_id : Option ℕ
  pub status : ImportStatus
  pub pin_id : Option ℕ
  pub error : Option ErrorDetail

-- `_error_result`.
unfoldable pub error_result : Option ℕ → ImportStatus → StoredError → Option ℕ → ImportResult
unfolding safe_stored_error get
error_result id status error retry_after =
    let safe = safe_stored_error (some error.code) (some error.retryable) in
    record {
      client_item_id = id;
      status = status;
      pin_id = none;
      error = some (record {
        code = safe.code;
        message = get safe.code safe_messages;
        retryable = safe.retryable;
        retry_after_seconds = retry_after;
      });
    }

-- A result with a pin.
abbrev pub pin_result : Option ℕ → ImportStatus → ℕ → ImportResult
pin_result id status pin = record {
  client_item_id = id;
  status = status;
  pin_id = some pin;
  error = none;
}

-- An error that may leave the service: its code has a message, and its retryability is the fixed
-- one where the table fixes it.
pub record IsSafeError (e : StoredError) : Type 0 where
  pub known : is_some (get e.code safe_messages) ≡ true
  pub fixed : retryability e.code e.retryable ≡ e.retryable

fixed_or-twice : (o : Option Bool) (r : Bool) → fixed_or o (fixed_or o r) ≡ fixed_or o r
fixed_or-twice none r = refl
fixed_or-twice (some b) r = refl

retryability-twice :
    (code : String) (r : Bool) → retryability code (retryability code r) ≡ retryability code r
unfolding retryability
retryability-twice code r = fixed_or-twice (get code fixed_retryability) r

pub safe_stored_error-IsSafeError :
    (code : Option String) (retryable : Option Bool)
    → IsSafeError (safe_stored_error code retryable)
unfolding safe_stored_error
safe_stored_error-IsSafeError none retryable = record { known = refl; fixed = refl }
safe_stored_error-IsSafeError (some code) none = record { known = refl; fixed = refl }
safe_stored_error-IsSafeError (some code) (some r) = elim (Option-cases (get code safe_messages)) [
  | inl e ↦ rw (e, safe_stored_error) (record { known = refl; fixed = refl })
  | inr (m, e) ↦
      rw (e, safe_stored_error) (record { known = rw e refl; fixed = retryability-twice code r })
]
