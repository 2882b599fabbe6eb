-- ===== src/Exports/Removed.antt =====
-- The deletions keep the invariant of the tables (exports/services/worker.py, exports/models.py).
use svrx_pinry.Prelude.{
  ℕ, ◌≡◌, refl, sym, ap, ◌∙◌, subst, Bool, true, false, not, ◌&&◌, Option, none, some, List, [],
  ◌∷◌, map, ◌==◌, opt_eq, is_none, is_some, if◌then◌else◌, if_cases, if_elim, All-write, contains,
  select, update, find, arith, Ensures, returns, Ensures-refuse_if, Ensures-bind,
}
use svrx_pinry.Order.Positions.{Distinct}
use svrx_pinry.Exports.Contracts.{
  expired, same_state, is_active, WorkerLeaseToken, does_not_exist, lease_lost,
}
use svrx_pinry.Exports.Tables.{
  Job, Slot, ReadyReceipt, ReadyCleanup, ready_absent, ready_retained, ready_pending, ready_cleaned,
  ready_blocked, ExportDb,
}
use svrx_pinry.Exports.Constraints.{counters_valid, complete_valid, expired_cleanup, ready_valid}
use svrx_pinry.Exports.Queries.{first_in, by_age, lock_current_worker_lease, get_job}
use svrx_pinry.Exports.Removal.{
  is_retired, delete_first, delete_clean_orphans, delete_user, is_ready_pending, same_ready,
  removed_from, mark_ready_cleanup,
}
use svrx_pinry.Exports.Invariant.{IsJob, slot_job, HoldsSlot, IsExport}
use svrx_pinry.Exports.Saves.{save_job-IsExport, found-job}
use svrx_pinry.Exports.Phases.{same_state-eq}
use svrx_pinry.Exports.Failed.{get_or-done}
use svrx_pinry.Exports.Created.{delete_jobs-IsExport}

delete_first-IsExport :
    (db : ExportDb) (found : Option Job) → IsExport db → IsExport (delete_first db found)
unfolding delete_first
delete_first-IsExport db none h = h
delete_first-IsExport db (some j) h = delete_jobs-IsExport (λ k. k.pk == j.pk) db h

pub delete_clean_orphans-IsExport :
    (worker : WorkerLeaseToken) (db : ExportDb)
    → IsExport db
    → Ensures IsExport (delete_clean_orphans worker db)
unfolding delete_clean_orphans
delete_clean_orphans-IsExport worker db h =
    Ensures-bind (lock_current_worker_lease worker db) _ λ _ _. returns (
      delete_first-IsExport db
        (first_in by_age (select (λ j. is_none j.owner_id && is_retired db j) db.jobs)) h)

module _ (user : ℕ) where
  abbrev orphaned : Job → Job
  orphaned j = record j { owner_id = none }

  orphaned-IsJob : (j : Job) → IsJob j → IsJob (orphaned j)
  unfolding counters_valid
  orphaned-IsJob j h = record {
    counted = h.counted;
    completed = h.completed;
    failing = h.failing;
    readied = h.readied;
    candidate = h.candidate;
    snapshotted = h.snapshotted;
    verified = h.verified;
    led = h.led;
    faultless = h.faultless;
    resumed = h.resumed;
  }

  orphaned-pks :
      (js : List Job)
      → map (λ j. j.pk) (update (λ j. opt_eq j.owner_id (some user)) orphaned js)
        ≡ map (λ j. j.pk) js
  orphaned-pks [] = refl
  orphaned-pks (j ∷ js) =
      if_elim
        (λ (x : Job).
          x.pk ∷ map (λ k. k.pk) (update (λ k. opt_eq k.owner_id (some user)) orphaned js)
          ≡ j.pk ∷ map (λ k. k.pk) js)
        (opt_eq j.owner_id (some user)) _ _ (ap (λ (l : List ℕ). j.pk ∷ l) (orphaned-pks js))
        (ap (λ (l : List ℕ). j.pk ∷ l) (orphaned-pks js))

  slot_job-others :
      (u : ℕ) (slots : List Slot)
      → (user == u) ≡ false
      → slot_job u (select (λ s. not (s.owner == user)) slots) ≡ slot_job u slots
  unfolding slot_job
  slot_job-others u [] other = refl
  slot_job-others u (s ∷ slots) other = ground (arith, slot_job-others u slots)

  others-owner :
      (a : ℕ) (slots : List Slot)
      → contains a (map (λ s. s.owner) slots) ≡ false
      → contains a (map (λ s. s.owner) (select (λ s. not (s.owner == user)) slots)) ≡ false
  others-owner a [] h = refl
  others-owner a (s ∷ slots) h = ground (arith, others-owner a slots)

  others-Distinct :
      (slots : List Slot)
      → Distinct (map (λ s. s.owner) slots)
      → Distinct (map (λ s. s.owner) (select (λ s. not (s.owner == user)) slots))
  others-Distinct [] d = tt
  others-Distinct (s ∷ slots) (d, ds) =
      if_elim (λ (l : List Slot). Distinct (map (λ x. x.owner) l)) (not (s.owner == user)) _ _
        (others-owner s.owner slots d, others-Distinct slots ds) (others-Distinct slots ds)

  orphaned-HoldsSlot :
      (slots : List Slot) (j : Job)
      → HoldsSlot slots j
      → HoldsSlot
          (select (λ s. not (s.owner == user)) slots)
          (if opt_eq j.owner_id (some user) then orphaned j else j)
  orphaned-HoldsSlot slots j h =
      if_cases (HoldsSlot (select (λ s. not (s.owner == user)) slots))
        (opt_eq j.owner_id (some user)) _ _ (λ _ a u o. cc)
        (λ e a u o. slot_job-others u slots (let x = rw o at e in ground arith) ∙ h a u o)

pub delete_user-IsExport : (user : ℕ) (db : ExportDb) → IsExport db → IsExport (delete_user user db)
unfolding delete_user
delete_user-IsExport user db h = record {
  rows =
      All-write IsJob IsJob (λ j. opt_eq j.owner_id (some user)) (orphaned user) db.jobs
        (λ j g. if_elim IsJob (opt_eq j.owner_id (some user)) _ _ (orphaned-IsJob user j g) g)
        h.rows;
  slots =
      All-write (HoldsSlot db.slots) (HoldsSlot (select (λ s. not (s.owner == user)) db.slots))
        (λ j. opt_eq j.owner_id (some user)) (orphaned user) db.jobs
        (λ j g. orphaned-HoldsSlot user db.slots j g) h.slots;
  distinct = subst Distinct (sym (orphaned-pks user db.jobs)) h.distinct;
  owners = others-Distinct user db.slots h.owners;
}

ended-HoldsSlot : (slots : List Slot) (j : Job) → is_active j.state ≡ false → HoldsSlot slots j
ended-HoldsSlot slots j e a = cc

pending-ready :
    (cleanup : ReadyCleanup) (r : Option ReadyReceipt)
    → is_ready_pending cleanup ≡ true
    → expired_cleanup cleanup r ≡ true
    → is_some r ≡ true
unfolding expired_cleanup
pending-ready ready_pending r p h = h
pending-ready ready_absent r p h = cc
pending-ready ready_retained r p h = cc
pending-ready ready_cleaned r p h = cc
pending-ready ready_blocked r p h = cc

module _ (j : Job) (e : j.state ≡ expired) (p : is_ready_pending j.ready_cleanup_state ≡ true)
    (h : IsJob j) where
  expired-IsJob :
      (cleanup : ReadyCleanup) (r : Option ReadyReceipt)
      → expired_cleanup cleanup r ≡ true
      → IsJob (record j { ready_cleanup_state = cleanup; ready = r })
  unfolding counters_valid complete_valid ready_valid
  expired-IsJob cleanup r valid = record {
    counted = h.counted;
    completed = rw e refl;
    failing = h.failing;
    readied = rw e valid;
    candidate = h.candidate;
    snapshotted = h.snapshotted;
    verified = h.verified;
    led = h.led;
    faultless = h.faultless;
    resumed = h.resumed;
  }

  removed_from-IsJob : (succeeded : Bool) → IsJob (removed_from succeeded j)
  unfolding ready_valid expired_cleanup
  removed_from-IsJob true = expired-IsJob ready_cleaned none refl
  removed_from-IsJob false =
      expired-IsJob ready_blocked j.ready
        (pending-ready j.ready_cleanup_state j.ready p (rw e at h.readied))

pub mark_ready_cleanup-IsExport :
    (worker : WorkerLeaseToken) (pk : ℕ) (seen : Option ReadyReceipt) (succeeded : Bool)
    (db : ExportDb)
    → IsExport db
    → Ensures IsExport (mark_ready_cleanup worker pk seen succeeded db)
unfolding mark_ready_cleanup get_job
mark_ready_cleanup-IsExport worker pk seen succeeded db h =
    Ensures-bind (lock_current_worker_lease worker db) _ λ _ _.
      Ensures-bind (get_job pk db) _ λ j g.
        Ensures-refuse_if
          (not (
            same_state j.state expired
            && (is_ready_pending j.ready_cleanup_state && same_ready j.ready seen)))
          lease_lost _
          λ checked.
            let (good, holds, t) =
              found-job (λ k. k.pk == pk) db h
                (get_or-done does_not_exist (find (λ k. k.pk == pk) db.jobs) g) in
            let e = same_state-eq j.state expired (ground arith) in
            returns (
              save_job-IsExport (removed_from succeeded j) db
                (removed_from-IsJob j e (ground arith) good succeeded)
                (ended-HoldsSlot db.slots (removed_from succeeded j) (
                  if_elim (λ (x : Job). is_active x.state ≡ false) succeeded _ _ (rw e refl)
                    (rw e refl)))
                h)
