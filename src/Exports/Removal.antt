-- ===== src/Exports/Removal.antt =====
-- The deletion of jobs, of their archives and of users, of exports/services/jobs.py and worker.py, with
-- what the foreign keys of exports/models.py do.
use svrx_pinry.Prelude.{
  ℕ, Bool, true, false, not, ◌&&◌, ◌||◌, Option, none, some, ◌==◌, opt_eq, is_none, any, select,
  update, Result, done, refuse_if, ◌>>=◌, if◌then◌else◌,
}
use svrx_pinry.Exports.Contracts.{
  failed, expired, same_state, WorkerLeaseToken, ExportFault, lease_lost,
}
use svrx_pinry.Exports.Tables.{
  Job, ReadyReceipt, same_receipt, ReadyCleanup, ready_pending, ready_cleaned, ready_blocked,
  FileState, file_cleaned, ExportDb, save_job, has_unclean_attempt,
}
use svrx_pinry.Exports.Queries.{first_in, by_age, lock_current_worker_lease, get_job}
use svrx_pinry.Exports.Maintenance.{is_clean, is_removed, has_unclean_blob}

abbrev pub is_file_cleaned : FileState → Bool
is_file_cleaned file_cleaned = true
is_file_cleaned s = false

abbrev pub has_unclean_file : ExportDb → Job → Bool
has_unclean_file db j =
    any
      (λ f.
        any (λ a. a.pk == f.attempt && a.job == j.pk) db.attempts && not (is_file_cleaned f.state))
      db.files

-- A job that has ended and that left nothing: the filter and the checks of
-- `_delete_retired_rows_if_cleanup_complete`, and of `_delete_clean_orphans` of worker.py.
unfoldable pub is_retired : ExportDb → Job → Bool
is_retired db j =
    (same_state j.state failed || same_state j.state expired)
    && (is_clean j.staging_cleanup_state
        && (is_removed j.ready_cleanup_state
            && (is_none j.snapshot_generation
                && (is_none j.candidate_snapshot_generation
                    && (is_none j.ready
                        && (not (has_unclean_blob db j)
                            && (not (has_unclean_attempt db j) && not (has_unclean_file db j))))))))

-- `job.delete()` of the jobs that a test chooses: what belongs to them goes with them, and the slots
-- that name them are set to NULL.
unfoldable pub delete_jobs : (Job → Bool) → ExportDb → ExportDb
delete_jobs test db =
    let gone = λ (pk : ℕ). any (λ j. j.pk == pk && test j) db.jobs in
    record db {
      jobs = select (λ j. not (test j)) db.jobs;
      targets = select (λ t. not (gone t.job)) db.targets;
      items = select (λ i. not (gone i.job)) db.items;
      blobs = select (λ b. not (gone b.job)) db.blobs;
      files = select (λ f. not (any (λ a. a.pk == f.attempt && gone a.job) db.attempts)) db.files;
      attempts = select (λ a. not (gone a.job)) db.attempts;
      slots =
          update (λ s. elim s.current_job [ none ↦ false | some pk ↦ gone pk ])
            (λ s. record s { current_job = none }) db.slots;
    }

-- `_delete_retired_rows_if_cleanup_complete`.
unfoldable pub delete_retired : ℕ → ExportDb → ExportDb
unfolding is_retired delete_jobs
delete_retired user db = delete_jobs (λ j. opt_eq j.owner_id (some user) && is_retired db j) db

-- The deletion of the first job of an ordered filter, if there is one.
unfoldable pub delete_first : ExportDb → Option Job → ExportDb
unfolding delete_jobs
delete_first db none = db
delete_first db (some j) = delete_jobs (λ k. k.pk == j.pk) db

-- `_delete_clean_orphans`.
unfoldable pub delete_clean_orphans : WorkerLeaseToken → ExportDb → Result ExportFault ExportDb
unfolding lock_current_worker_lease first_in is_retired delete_first
delete_clean_orphans worker db = lock_current_worker_lease worker db >>= λ _. done (
    delete_first db (first_in by_age (select (λ j. is_none j.owner_id && is_retired db j) db.jobs)))

-- The deletion of a user, as the tables of the exports see it: `ExportJob.owner` is set to NULL and the
-- slot goes with its owner.
unfoldable pub delete_user : ℕ → ExportDb → ExportDb
delete_user user db = record db {
  users = select (λ u. not (u == user)) db.users;
  jobs = update (λ j. opt_eq j.owner_id (some user)) (λ j. record j { owner_id = none }) db.jobs;
  slots = select (λ s. not (s.owner == user)) db.slots;
}

abbrev pub is_ready_pending : ReadyCleanup → Bool
is_ready_pending ready_pending = true
is_ready_pending s = false

abbrev pub same_ready : Option ReadyReceipt → Option ReadyReceipt → Bool
same_ready none none = true
same_ready none (some b) = false
same_ready (some a) none = false
same_ready (some a) (some b) =
    a.size == b.size
    && (a.sha256 == b.sha256
        && (same_receipt a.file b.file && (a.mtime_ns == b.mtime_ns && a.ctime_ns == b.ctime_ns)))

-- The columns that `_mark_ready_cleanup` writes after the removal of the archive, or after it failed.
abbrev pub removed_from : Bool → Job → Job
removed_from succeeded j =
    if succeeded
    then record j { ready_cleanup_state = ready_cleaned; ready = none }
    else record j { ready_cleanup_state = ready_blocked }

-- `_mark_ready_cleanup` of an expired job that `_cleanup_one_ready` has selected, with the archive that
-- it has seen.
unfoldable pub mark_ready_cleanup :
    WorkerLeaseToken → ℕ → Option ReadyReceipt → Bool → ExportDb → Result ExportFault ExportDb
unfolding refuse_if lock_current_worker_lease get_job save_job
mark_ready_cleanup worker pk seen succeeded db = lock_current_worker_lease worker db >>= λ _.
    get_job pk db >>= λ j.
    refuse_if
      (not (
        same_state j.state expired
        && (is_ready_pending j.ready_cleanup_state && same_ready j.ready seen)))
      lease_lost (done (save_job (removed_from succeeded j) db))
