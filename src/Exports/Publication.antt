-- ===== src/Exports/Publication.antt =====
-- The progress and the revocations of an archive, of exports/services/archive.py.
use svrx_pinry.Prelude.{
  ℕ, suc, Bool, true, false, not, ◌&&◌, ◌+◌, ◌-◌, Option, none, some, List, [], ◌∷◌, ◌==◌, ltb,
  contains, select, update, count, length, Result, done, refused, refuse_if, ◌>>=◌, ◌||◌,
}
use svrx_pinry.Exports.Contracts.{
  JobState, archiving, same_state, export_storage_unsafe, LeaseToken, ExportFault, lease_lost,
  export_error, integrity_error,
}
use svrx_pinry.Exports.Tables.{
  Job, Item, AttemptState, attempt_verifying, FileState, file_ready_candidate, ExportDb, save_job,
}
use svrx_pinry.Exports.Queries.{lock_current_lease}
use svrx_pinry.Exports.Chunks.{query_chunk_size, slices}

-- The columns that `_progress` writes.
abbrev pub progressed : ℕ → ℕ → ℕ → Job → Job
progressed written bytes now j = record j {
  archive_done = written;
  bytes_done = bytes;
  progress_at = some now;
}

-- `_progress`.
unfoldable pub record_progress : LeaseToken → ℕ → ℕ → ℕ → ExportDb → Result ExportFault ExportDb
unfolding refuse_if lock_current_lease save_job
record_progress lease written bytes now db = lock_current_lease lease db >>= λ current.
    refuse_if (not (same_state current.state archiving)) lease_lost (
      refuse_if (ltb current.archive_total written || ltb current.bytes_total bytes) integrity_error
        (done (save_job (progressed written bytes now current) db)))

-- What the loop of `_apply_revocations_locked` has excluded: rows and bytes.
pub record Excluded : Type 0 where
  pub items : List Item
  pub changed : ℕ
  pub removed_bytes : ℕ

-- `sum(sizes)`, where no size is None.
unfoldable pub sum_sizes : List Item → Option ℕ
sum_sizes [] = some 0
sum_sizes (i ∷ is) = elim i.blob_size [
  | none ↦ none
  | some s ↦ elim (sum_sizes is) [ none ↦ none | some t ↦ some (s + t) ]
]

abbrev pub is_chosen : ℕ → List ℕ → Item → Bool
is_chosen job ids i = i.job == job && (contains i.pk ids && i.included)

unfoldable pub exclude_sized : ℕ → List ℕ → Excluded → Option ℕ → Result ExportFault Excluded
exclude_sized job ids e none = refused (export_error export_storage_unsafe)
exclude_sized job ids e (some size) = done (record {
  items = update (is_chosen job ids) (λ i. record i { included = false }) e.items;
  changed = e.changed + count (is_chosen job ids) e.items;
  removed_bytes = e.removed_bytes + size;
})

unfoldable pub exclude_chunks : ℕ → List (List ℕ) → Excluded → Result ExportFault Excluded
unfolding sum_sizes exclude_sized
exclude_chunks job [] e = done e
exclude_chunks job (ids ∷ rest) e =
    exclude_sized job ids e (sum_sizes (select (is_chosen job ids) e.items)) >>= λ e'.
    exclude_chunks job rest e'

-- The counters that `_apply_revocations_locked` checks are in order.
abbrev pub is_countable : Job → Excluded → Bool
is_countable j e =
    j.included_total + j.excluded_total == j.requested_total
    && (j.archive_total == j.included_total
        && (not (ltb j.excluded_total j.excluded_permission_revoked_total)
            && (not (ltb j.included_total e.changed) && not (ltb j.bytes_total e.removed_bytes))))

-- The counters that it writes.
abbrev pub without : Excluded → Job → Job
without e j = record j {
  included_total = j.included_total - e.changed;
  excluded_total = j.excluded_total + e.changed;
  excluded_permission_revoked_total = j.excluded_permission_revoked_total + e.changed;
  archive_total = j.archive_total - e.changed;
  bytes_total = j.bytes_total - e.removed_bytes;
  archive_done = 0;
  bytes_done = 0;
}

-- `_apply_revocations_locked`, on the job that the caller saves.
unfoldable pub apply_revocations : Job → List ℕ → ExportDb → Result ExportFault (Job × Excluded)
unfolding refuse_if exclude_chunks slices
apply_revocations j revoked db =
    exclude_chunks j.pk (slices (length revoked) query_chunk_size revoked)
      (record { items = db.items; changed = 0; removed_bytes = 0 })
    >>= λ e.
        refuse_if (not (is_countable j e)) (export_error export_storage_unsafe)
          (done (without e j, e))

-- `_apply_revocation_batch`.
unfoldable pub apply_revocation_batch :
    LeaseToken → List ℕ → JobState → ExportDb → Result ExportFault ExportDb
unfolding refuse_if lock_current_lease apply_revocations save_job
apply_revocation_batch lease ids expected db = lock_current_lease lease db >>= λ current.
    refuse_if (not (same_state current.state expected)) lease_lost (
      apply_revocations current ids db >>= λ r.
      done (record (save_job r.0 db) { items = r.1.items }))

-- `_rotate_applied_locked`: another attempt, on the same lease.
abbrev pub rotated_job : Job → Job
rotated_job j = record j {
  state = archiving;
  attempt_generation = suc j.attempt_generation;
  verifying_receipt = none;
}

abbrev pub rotated_token : LeaseToken → Job → LeaseToken
rotated_token lease j = record lease { attempt_generation = suc j.attempt_generation }

abbrev pub is_verifying : AttemptState → Bool
is_verifying attempt_verifying = true
is_verifying s = false

abbrev pub is_candidate : FileState → Bool
is_candidate file_ready_candidate = true
is_candidate s = false
