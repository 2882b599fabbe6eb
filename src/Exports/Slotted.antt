-- ===== src/Exports/Slotted.antt =====
-- A new job takes its owner's free slot (exports/services/jobs.py).
use svrx_pinry.Prelude.{
  ℕ, ◌≡◌, ◌+◌, refl, sym, ap, ◌∙◌, subst, inl, inr, true, false, not, ◌&&◌, ◌||◌, some, List, [],
  ◌∷◌, map, ◌==◌, ==_iff, opt_eq, String, if_cases, if_elim, Bool-cases, some_inj, All, All-map,
  All-both, contains, any, select, count, update, ltb, leb, length, arith, Result, Ensures, returns,
  Ensures-refuse_if, Ensures-bind, Ensures-then,
}
use svrx_pinry.Order.Positions.{Distinct}
use svrx_pinry.Exports.Contracts.{
  is_active, invalid_target, active_export_exists, insufficient_space, export_storage_unsafe,
  request_error, ExportFault, integrity_error,
}
use svrx_pinry.Exports.Tables.{Job, Slot, ExportDb}
use svrx_pinry.Exports.Maintenance.{is_blocked}
use svrx_pinry.Exports.Targets.{ExportSettings, TargetRequest, TargetDb}
use svrx_pinry.Exports.Sizes.{ObservedTargets, CapturedTargets, capture_locked}
use svrx_pinry.Exports.Removal.{is_retired, delete_jobs, delete_retired}
use svrx_pinry.Exports.Creation.{
  require_available, is_ready_blocked, owner_safety, new_job, ensure_slot, is_free, write_job,
  commit_locked,
}
use svrx_pinry.Exports.Invariant.{slot_job, HoldsSlot, IsExport}
use svrx_pinry.Exports.Published.{new_job-IsJob}
use svrx_pinry.Exports.Counted.{IsCapture, capture_locked-IsCapture}
use svrx_pinry.Exports.Created.{delete_jobs-IsExport}

module _ (user pk : ℕ) where
  abbrev taken : List Slot → List Slot
  taken slots = update (is_free user) (λ s. record s { current_job = some pk }) slots

  slot_job-taken :
      (u : ℕ) (slots : List Slot)
      → (user == u) ≡ false
      → slot_job u (taken slots) ≡ slot_job u slots
  unfolding slot_job
  slot_job-taken u [] other = refl
  slot_job-taken u (s ∷ slots) other = ground (arith, slot_job-taken u slots)

  slot_job-ensured :
      (u : ℕ) (slots : List Slot)
      → (user == u) ≡ false
      → slot_job u (ensure_slot user slots) ≡ slot_job u slots
  unfolding slot_job ensure_slot
  slot_job-ensured u slots other = ground arith

  no_free :
      (slots : List Slot)
      → contains user (map (λ s. s.owner) slots) ≡ false
      → count (is_free user) slots ≡ 0
  no_free [] h = refl
  no_free (s ∷ slots) h = ground (arith, no_free slots)

  slot_job-free :
      (slots : List Slot)
      → Distinct (map (λ s. s.owner) slots)
      → (count (is_free user) slots == 1) ≡ true
      → slot_job user (taken slots) ≡ some pk
  unfolding slot_job
  slot_job-free [] d h = cc
  slot_job-free (s ∷ slots) (d, ds) h = elim (Bool-cases (s.owner == user)) [
    | inl e ↦
        let none_left = no_free slots (
          subst (λ n. contains n (map (λ x. x.owner) slots) ≡ false) ((==_iff s.owner user).0 e)
            d) in
        ground arith
    | inr e ↦ ground (arith, slot_job-free slots ds)
  ]

  taken-owners : (slots : List Slot) → map (λ s. s.owner) (taken slots) ≡ map (λ s. s.owner) slots
  taken-owners [] = refl
  taken-owners (s ∷ slots) =
      if_elim
        (λ (x : Slot).
          x.owner ∷ map (λ s. s.owner) (taken slots) ≡ s.owner ∷ map (λ s. s.owner) slots)
        (is_free user s) _ _ (ap (λ (l : List ℕ). s.owner ∷ l) (taken-owners slots))
        (ap (λ (l : List ℕ). s.owner ∷ l) (taken-owners slots))

  no_owner :
      (slots : List Slot)
      → any (λ s. s.owner == user) slots ≡ false
      → contains user (map (λ s. s.owner) slots) ≡ false
  no_owner [] h = refl
  no_owner (s ∷ slots) h = ground (arith, no_owner slots)

  ensured-Distinct :
      (slots : List Slot)
      → Distinct (map (λ s. s.owner) slots)
      → Distinct (map (λ s. s.owner) (ensure_slot user slots))
  unfolding ensure_slot
  ensured-Distinct slots d =
      if_cases (λ (l : List Slot). Distinct (map (λ s. s.owner) l))
        (any (λ s. s.owner == user) slots) _ _ (λ _. d) (λ e. (no_owner slots e, d))

-- No job of the user is active.
abbrev pub IsIdle : ℕ → Job → Type 0
IsIdle user j = opt_eq j.owner_id (some user) ≡ true → is_active j.state ≡ false

IsIdle-jobs :
    (user : ℕ) (js : List Job)
    → any (λ j. is_active j.state) (select (λ j. opt_eq j.owner_id (some user)) js) ≡ false
    → All (IsIdle user) js
IsIdle-jobs user [] h = tt
IsIdle-jobs user (j ∷ js) h = elim (Bool-cases (opt_eq j.owner_id (some user))) [
  | inl e ↦ let here = rw e at h in ((λ _. ground arith), IsIdle-jobs user js (ground arith))
  | inr e ↦ ((λ t. cc), IsIdle-jobs user js (rw e at h))
]

write_job-IsExport :
    (user pk now : ℕ) (c : CapturedTargets) (db : ExportDb)
    → All (IsIdle user) db.jobs
    → c.snapshot.requested_total ≡ length c.snapshot.identities + c.snapshot.excluded_total
    → IsExport db
    → Ensures (λ r. IsExport r.0) (write_job user pk now c db)
unfolding write_job new_job
write_job-IsExport user pk now c db idle counted h =
    let slots = ensure_slot user db.slots in
    Ensures-refuse_if (not (count (is_free user) slots == 1))
      (request_error active_export_exists 409) _
      λ free.
        let d = ensured-Distinct user pk db.slots h.owners in
        Ensures-refuse_if (contains pk (map (λ j. j.pk) db.jobs)) integrity_error _ λ fresh.
          returns (record {
            rows = (new_job-IsJob pk user now c counted, h.rows);
            slots = (
              (λ _ u o.
                  subst (λ n. slot_job n (taken user pk slots) ≡ some pk) (some_inj o)
                    (slot_job-free user pk slots d (ground arith))),
              All-map db.jobs
                  (λ k (r : IsIdle user k × HoldsSlot db.slots k) a u o.
                    elim (Bool-cases (user == u)) [
                      | inl e ↦ (let x = r.0 (rw o (ground arith)) in cc)
                      | inr e ↦
                          slot_job-taken user pk u slots e
                          ∙ slot_job-ensured user pk u db.slots e
                          ∙ r.1 a u o
                    ])
                  (All-both (IsIdle user) (HoldsSlot db.slots) db.jobs idle h.slots),
            );
            distinct = (fresh, h.distinct);
            owners = subst Distinct (sym (taken-owners user pk slots)) d;
          })

safe-IsExport :
    (user : ℕ) (db : ExportDb) (rest : Result ExportFault (ExportDb × Job))
    → (All (IsIdle user) db.jobs → Ensures (λ r. IsExport r.0) rest)
    → Ensures (λ r. IsExport r.0) (owner_safety user db rest)
unfolding owner_safety
safe-IsExport user db rest keep =
    let own = select (λ j. opt_eq j.owner_id (some user)) db.jobs in
    Ensures-refuse_if
      (any (λ j. is_blocked j.staging_cleanup_state || is_ready_blocked j.ready_cleanup_state) own)
      (request_error export_storage_unsafe 503) _
      λ _. Ensures-refuse_if (leb 3 (length own)) (request_error export_storage_unsafe 503) _ λ _.
        Ensures-refuse_if (any (λ j. is_active j.state) own)
          (request_error active_export_exists 409) rest λ idle. keep (IsIdle-jobs user db.jobs idle)

pub commit_locked-IsExport :
    (encoded_size : String → ℕ) (settings : ExportSettings) (user : ℕ) (request : TargetRequest)
    (observed : ObservedTargets) (available pk health_now now : ℕ) (source : TargetDb)
    (db : ExportDb)
    → IsExport db
    → Ensures
        (λ r. IsExport r.0)
        (commit_locked encoded_size settings user request observed available pk health_now now
          source db)
unfolding commit_locked delete_retired delete_jobs
commit_locked-IsExport encoded_size settings user request observed available pk health_now now
      source db h =
    let kept = delete_retired user db in
    let good = delete_jobs-IsExport (λ j. opt_eq j.owner_id (some user) && is_retired db j) db h in
    Ensures-bind (require_available health_now db.worker) _ λ _ _.
      Ensures-refuse_if (not (contains user db.users)) (request_error invalid_target 404) _ λ _.
        safe-IsExport user kept _ λ idle.
          Ensures-then (IsCapture user source settings observed)
            (λ (r : ExportDb × Job). IsExport r.0)
            (capture_locked encoded_size settings user request observed source) _
            (capture_locked-IsCapture encoded_size settings user request observed source)
            λ c captured.
              Ensures-refuse_if (length c.snapshot.identities == 0)
                (request_error invalid_target 400) _
                λ _.
                  Ensures-refuse_if (ltb available c.space_budget.required_bytes)
                    (request_error insufficient_space 503) _
                    λ _. write_job-IsExport user pk now c kept idle captured.snapshot.counted good
