-- ===== src/Exports/Downloads.antt =====
-- Who may download an archive, of exports/services/download.py: the expectation that a request starts
-- with, and the decision under the write fence.
use svrx_pinry.Prelude.{
  ℕ, Bool, true, false, not, ◌&&◌, ◌||◌, Option, none, some, List, [], ◌∷◌, ◌==◌, leb, opt_eq,
  contains, find, Result, done, refused, refuse_if, if◌then◌else◌,
}
use svrx_pinry.Exports.Contracts.{complete, expired, same_state}
use svrx_pinry.Exports.Constraints.{is_retained}
use svrx_pinry.Exports.Tables.{Job, ReadyReceipt, OpenFileReceipt, same_receipt, ExportDb, save_job}
use svrx_pinry.Exports.Maintenance.{expire_job}
use svrx_pinry.Exports.Permissions.{LivePin, revoked_item_ids}
use svrx_pinry.Exports.Removal.{same_ready}

-- The exceptions that a download ends in.
pub data DownloadError : Type 0 where
  export_not_found : DownloadError
  export_not_ready : DownloadError
  export_expired : DownloadError

-- `_DownloadExpectation`.
pub record DownloadExpectation : Type 0 where
  pub job_id : ℕ
  pub owner_id : ℕ
  pub expires_at : Option ℕ
  pub ready : Option ReadyReceipt

unfoldable pub expectation_of : ℕ → Option Job → Result DownloadError DownloadExpectation
unfolding refuse_if
expectation_of owner none = refused export_not_found
expectation_of owner (some j) = refuse_if (same_state j.state expired) export_expired (
    refuse_if (not (same_state j.state complete)) export_not_ready (
      done
        (record { job_id = j.pk; owner_id = owner; expires_at = j.expires_at; ready = j.ready })))

-- `_expectation_for`.
unfoldable pub expectation_for : ℕ → ℕ → ExportDb → Result DownloadError DownloadExpectation
unfolding expectation_of
expectation_for job owner db =
    expectation_of owner (find (λ j. j.pk == job && opt_eq j.owner_id (some owner)) db.jobs)

-- What is seen of the file: its receipt without the digest.
pub record PhysicalReceipt : Type 0 where
  pub file : OpenFileReceipt
  pub size : ℕ
  pub mtime_ns : ℕ
  pub ctime_ns : ℕ

-- `observed == expectation.physical_receipt`.
abbrev pub is_physical : PhysicalReceipt → Option ReadyReceipt → Bool
is_physical seen none = false
is_physical seen (some r) =
    same_receipt seen.file r.file
    && (seen.size == r.size && (seen.mtime_ns == r.mtime_ns && seen.ctime_ns == r.ctime_ns))

-- The words that `_final_authorize` returns, with the job where there is one.
pub data Authorization : Type 0 where
  not_found : Authorization
  expired_archive : Authorization
  not_ready : Authorization
  retry : Authorization
  authorized : Job → Authorization

-- The time is over, where there is one.
abbrev pub is_over : ℕ → Option ℕ → Bool
is_over now none = true
is_over now (some t) = leb t now

abbrev pub is_empty : List ℕ → Bool
is_empty [] = true
is_empty (n ∷ ns) = false

-- The job is not the user's, or the user is there no longer.
abbrev pub is_foreign : DownloadExpectation → ExportDb → Job → Bool
is_foreign e db j = not (opt_eq j.owner_id (some e.owner_id)) || not (contains e.owner_id db.users)

-- The job or the file is not what was expected.
abbrev pub is_changed : DownloadExpectation → PhysicalReceipt → Job → Bool
is_changed e seen j =
    not (opt_eq j.expires_at e.expires_at)
    || (not (same_ready j.ready e.ready) || not (is_physical seen e.ready))

unfoldable pub authorize_job :
    DownloadExpectation
    → PhysicalReceipt
    → ℕ
    → ℕ
    → List LivePin
    → ExportDb
    → Job
    → ExportDb × Authorization
unfolding is_retained revoked_item_ids save_job
authorize_job e seen authorization_now decision_now pins db j =
    if is_foreign e db j
    then (db, not_found)
    else if same_state j.state expired
    then (db, expired_archive)
    else if not (same_state j.state complete)
    then (db, not_ready)
    else if not (is_retained j.ready_cleanup_state)
    then (db, expired_archive)
    else if is_changed e seen j
    then (db, retry)
    else if is_over authorization_now j.expires_at
    then (save_job (expire_job j) db, expired_archive)
    else if is_over decision_now j.expires_at
        || not (is_empty (revoked_item_ids j true db.items pins))
    then (save_job (expire_job j) db, expired_archive)
    else (db, authorized j)

unfoldable pub authorize_found :
    DownloadExpectation
    → PhysicalReceipt
    → ℕ
    → ℕ
    → List LivePin
    → ExportDb
    → Option Job
    → ExportDb × Authorization
unfolding authorize_job
authorize_found e seen authorization_now decision_now pins db none = (db, not_found)
authorize_found e seen authorization_now decision_now pins db (some j) =
    authorize_job e seen authorization_now decision_now pins db j

-- `_final_authorize`, with its two readings of the clock. The fence holds the users' rows too, so that
-- the owner who was found at first is found again.
unfoldable pub final_authorize :
    DownloadExpectation
    → PhysicalReceipt
    → ℕ
    → ℕ
    → List LivePin
    → ExportDb
    → ExportDb × Authorization
unfolding authorize_found
final_authorize e seen authorization_now decision_now pins db =
    authorize_found e seen authorization_now decision_now pins db
      (find (λ j. j.pk == e.job_id) db.jobs)
