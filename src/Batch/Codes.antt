-- ===== src/Batch/Codes.antt =====
-- Every code of the table of messages (core/services/batch_import.py) has the format that
-- `StoredError` of core/services/idempotency.py asks for.
use svrx_pinry.Prelude.{
  String, Bool, true, ◌≡◌, refl, sym, subst, inl, inr, Option, none, some, List, [], ◌∷◌, str_eq,
  All, all-All, ok, Option-cases, Bool-cases, eq_iff,
}
use svrx_pinry.Idempotency.Rows.{stored_error, safe_code}
use svrx_pinry.Batch.Errors.{safe_messages, get, safe_stored_error}

get-All :
    {A : Type 0} (P : String → Type 0) (key : String) (table : List (String × A)) {a : A}
    → All (λ row. P row.0) table
    → get key table ≡ some a
    → P key
unfolding get
get-All P key [] h e = cc
get-All P key ((k, b) ∷ rest) (h, hs) e = elim (Bool-cases (str_eq key k)) [
  | inl same ↦ subst P (sym ((eq_iff key k).0 same)) h
  | inr other ↦ get-All P key rest hs (rw (other, get) at e)
]

safe_messages-All : All (λ (row : String × String). safe_code row.0 ≡ true) safe_messages
unfolding safe_code
safe_messages-All = all-All (λ row. safe_code row.0) safe_messages refl

pub safe_stored_error-safe_code :
    (code : Option String) (retryable : Option Bool)
    → safe_code (safe_stored_error code retryable).code ≡ true
unfolding safe_stored_error safe_code
safe_stored_error-safe_code none retryable = refl
safe_stored_error-safe_code (some code) none = refl
safe_stored_error-safe_code (some code) (some r) = elim (Option-cases (get code safe_messages)) [
  | inl e ↦ rw (e, safe_stored_error) refl
  | inr (m, e) ↦
      rw (e, safe_stored_error)
        (get-All (λ c. safe_code c ≡ true) code safe_messages safe_messages-All e)
]

-- Whatever code and retryability an exception brings, the error that the batch makes of it is one
-- that `StoredError` accepts: its constructor does not raise.
pub safe_stored_error-stored :
    (code : Option String) (retryable : Option Bool)
    → let e = safe_stored_error code retryable in stored_error e.code e.retryable ≡ ok e
unfolding stored_error
safe_stored_error-stored code retryable = rw (safe_stored_error-safe_code code retryable) refl
