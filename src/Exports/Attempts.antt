-- ===== src/Exports/Attempts.antt =====
-- The attempts at an archive and their file, of exports/services/attempts.py, and the progress and
-- the revocations of exports/services/archive.py. Every operation checks the lease first.
use svrx_pinry.Prelude.{
  ℕ, Bool, true, false, not, ◌&&◌, ◌||◌, Option, none, some, ◌∷◌, ◌==◌, opt_eq, is_none, is_some,
  find, update, Result, done, refuse_if, ◌>>=◌, if◌then◌else◌,
}
use svrx_pinry.Exports.Contracts.{
  archiving, verifying, same_state, LeaseToken, ExportFault, lease_lost, does_not_exist,
}
use svrx_pinry.Exports.Tables.{
  Job, OpenFileReceipt, same_receipt, DirectoryReceipt, same_directory, Attempt, AttemptState,
  attempt_writing, attempt_closed, attempt_verifying, AttemptFile, archive, FileState, file_writing,
  file_closed, file_verifying, FullReceipt, ExportDb, save_job,
}
use svrx_pinry.Exports.Queries.{get_or, lock_current_lease}
use svrx_pinry.Exports.Failures.{is_archive}

abbrev pub is_writing : AttemptState → Bool
is_writing attempt_writing = true
is_writing s = false

unfoldable pub save_attempt : Attempt → ExportDb → ExportDb
save_attempt a db = record db { attempts = update (λ b. b.pk == a.pk) (λ _. a) db.attempts }

unfoldable pub save_file : AttemptFile → ExportDb → ExportDb
save_file f db = record db { files = update (λ g. g.pk == f.pk) (λ _. f) db.files }

unfoldable pub get_attempt : ℕ → ExportDb → Result ExportFault Attempt
unfolding get_or
get_attempt pk db = get_or does_not_exist (find (λ a. a.pk == pk) db.attempts)

unfoldable pub get_file : ℕ → ExportDb → Result ExportFault AttemptFile
unfolding get_or
get_file pk db = get_or does_not_exist (find (λ f. f.pk == pk) db.files)

-- `_attempt_receipt(attempt) == receipt`.
abbrev pub has_directory : DirectoryReceipt → Option DirectoryReceipt → Bool
has_directory receipt none = false
has_directory receipt (some d) = same_directory d receipt

-- `get_or_create` of an attempt: a row that is there must be the one that is recorded.
unfoldable pub directory_row :
    ℕ
    → LeaseToken
    → DirectoryReceipt
    → ExportDb
    → Option Attempt
    → Result ExportFault (ExportDb × Attempt)
unfolding refuse_if
directory_row new_pk lease receipt db none =
    let a : Attempt = record {
      pk = new_pk;
      job = lease.job_id;
      attempt_generation = lease.attempt_generation;
      lease_uuid = lease.job_lease_uuid;
      state = attempt_writing;
      directory = some receipt;
      exported_at = none;
    } in
    done (record db { attempts = a ∷ db.attempts }, a)
directory_row new_pk lease receipt db (some a) =
    refuse_if (not (has_directory receipt a.directory && is_writing a.state)) lease_lost
      (done (db, a))

-- `record_directory_receipt_db_only`.
unfoldable pub record_directory_receipt :
    LeaseToken → ℕ → DirectoryReceipt → ExportDb → Result ExportFault (ExportDb × Attempt)
unfolding refuse_if lock_current_lease directory_row
record_directory_receipt lease new_pk receipt db = lock_current_lease lease db >>= λ current.
    refuse_if (not (same_state current.state archiving)) lease_lost (
      directory_row new_pk lease receipt db (
        find (λ a. a.job == current.pk && a.attempt_generation == lease.attempt_generation)
          db.attempts))

unfoldable pub file_row :
    ℕ
    → Attempt
    → OpenFileReceipt
    → ExportDb
    → Option AttemptFile
    → Result ExportFault (ExportDb × AttemptFile)
unfolding refuse_if
file_row new_pk a receipt db none =
    let f : AttemptFile = record {
      pk = new_pk;
      attempt = a.pk;
      kind = archive;
      state = file_writing;
      opened = receipt;
      full = none;
      receipt_sha256 = none;
    } in
    done (record db { files = f ∷ db.files }, f)
file_row new_pk a receipt db (some f) =
    refuse_if (not (same_receipt f.opened receipt)) lease_lost (done (db, f))

-- `record_open_file_receipt_db_only`. The archive of an attempt that is being written has its first
-- path, so that its row is the one of that kind.
unfoldable pub record_open_file_receipt :
    LeaseToken → ℕ → ℕ → OpenFileReceipt → ExportDb → Result ExportFault (ExportDb × AttemptFile)
unfolding refuse_if lock_current_lease get_attempt file_row
record_open_file_receipt lease attempt new_pk receipt db = lock_current_lease lease db >>= λ _.
    get_attempt attempt db >>= λ a.
    refuse_if (not (a.attempt_generation == lease.attempt_generation) || not (is_writing a.state))
      lease_lost
      (file_row new_pk a receipt db (find (λ f. f.attempt == a.pk && is_archive f.kind) db.files))

-- `ensure_exported_at`.
unfoldable pub ensure_exported_at :
    LeaseToken → ℕ → ℕ → ExportDb → Result ExportFault (ExportDb × Option ℕ)
unfolding refuse_if lock_current_lease get_attempt save_attempt
ensure_exported_at lease attempt value db = lock_current_lease lease db >>= λ _.
    get_attempt attempt db >>= λ a. refuse_if (not (is_writing a.state)) lease_lost (
      done (
        if is_none a.exported_at
        then (save_attempt (record a { exported_at = some value }) db, some value)
        else (db, a.exported_at)))

abbrev pub is_file_writing : FileState → Bool
is_file_writing file_writing = true
is_file_writing s = false

-- The check of `record_closed_file_receipt_db_only`.
abbrev pub is_closing : OpenFileReceipt → Attempt → AttemptFile → Bool
is_closing opened a f =
    is_writing a.state
    && (is_some a.exported_at && (is_file_writing f.state && same_receipt f.opened opened))

-- `record_closed_file_receipt_db_only`, with the receipt's two parts and its digest.
unfoldable pub record_closed_file_receipt :
    LeaseToken
    → ℕ
    → ℕ
    → OpenFileReceipt
    → FullReceipt
    → Option ℕ
    → ExportDb
    → Result ExportFault ExportDb
unfolding refuse_if lock_current_lease get_attempt get_file save_attempt save_file
record_closed_file_receipt lease attempt file opened full sha256 db =
    lock_current_lease lease db >>= λ _. get_attempt attempt db >>= λ a. get_file file db >>= λ f.
    refuse_if (not (is_closing opened a f)) lease_lost (
      done (
        save_attempt (record a { state = attempt_closed })
          (save_file (record f { state = file_closed; full = some full; receipt_sha256 = sha256 })
            db)))

abbrev pub is_closed : AttemptState → Bool
is_closed attempt_closed = true
is_closed s = false

abbrev pub is_file_closed : FileState → Bool
is_file_closed file_closed = true
is_file_closed s = false

abbrev pub size_in : Option FullReceipt → Option ℕ
size_in none = none
size_in (some r) = some r.size

abbrev pub receipt_size : AttemptFile → Option ℕ
receipt_size f = size_in f.full

-- The columns of the job that `record_verifying` writes.
abbrev pub verifying_by : LeaseToken → ℕ → ℕ → ℕ → Job → Job
verifying_by lease size sha256 exported_at j = record j {
  state = verifying;
  verifying_receipt = some (record {
    attempt_generation = lease.attempt_generation;
    size = size;
    sha256 = sha256;
    completed_at = exported_at;
  });
}

-- The check of `record_verifying`.
abbrev pub is_verifiable : ℕ → ℕ → Job → Attempt → AttemptFile → Bool
is_verifiable size exported_at j a f =
    same_state j.state archiving
    && (is_closed a.state
        && (is_file_closed f.state
            && (opt_eq (receipt_size f) (some size) && opt_eq a.exported_at (some exported_at))))

-- `record_verifying`.
unfoldable pub record_verifying :
    LeaseToken → ℕ → ℕ → ℕ → ℕ → ℕ → ExportDb → Result ExportFault ExportDb
unfolding refuse_if lock_current_lease get_attempt get_file save_attempt save_file save_job
record_verifying lease attempt file size sha256 exported_at db =
    lock_current_lease lease db >>= λ current. get_attempt attempt db >>= λ a.
    get_file file db >>= λ f.
    refuse_if (not (is_verifiable size exported_at current a f)) lease_lost (
      done (
        save_job (verifying_by lease size sha256 exported_at current) (
          save_attempt (record a { state = attempt_verifying })
            (save_file (record f { state = file_verifying; receipt_sha256 = some sha256 }) db))))
