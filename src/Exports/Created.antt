-- ===== src/Exports/Created.antt =====
-- The creation and the deletion of jobs keep the invariant of the tables (exports/services/jobs.py,
-- worker.py and the on_delete of exports/models.py).
use svrx_pinry.Prelude.{
  ℕ, ◌≡◌, refl, sym, ap, subst, inl, inr, Bool, false, not, ◌&&◌, none, some, List, [], ◌∷◌, map,
  ◌==◌, if◌then◌else◌, if_cases, if_elim, Bool-cases, All, All-map, All-both, All-select, contains,
  any, select, update, arith,
}
use svrx_pinry.Order.Positions.{Distinct}
use svrx_pinry.Exports.Tables.{Job, Slot, ExportDb}
use svrx_pinry.Exports.Removal.{delete_jobs}
use svrx_pinry.Exports.Invariant.{IsJob, slot_job, HoldsSlot, IsExport}
use svrx_pinry.Exports.Failed.{absent-pks}

selected-pks :
    (a : ℕ) (test : Job → Bool) (js : List Job)
    → contains a (map (λ j. j.pk) js) ≡ false
    → contains a (map (λ j. j.pk) (select test js)) ≡ false
selected-pks a test [] h = refl
selected-pks a test (j ∷ js) h = ground (arith, selected-pks a test js)

selected-Distinct :
    (test : Job → Bool) (js : List Job)
    → Distinct (map (λ j. j.pk) js)
    → Distinct (map (λ j. j.pk) (select test js))
selected-Distinct test [] d = tt
selected-Distinct test (j ∷ js) (d, ds) =
    if_elim (λ (l : List Job). Distinct (map (λ x. x.pk) l)) (test j) _ _
      (selected-pks j.pk test js d, selected-Distinct test js ds) (selected-Distinct test js ds)

-- A slot that names a job which no cleared slot names keeps it.
slot_job-kept :
    (test : Slot → Bool) (user job : ℕ) (slots : List Slot)
    → ((s : Slot) → s.current_job ≡ some job → test s ≡ false)
    → slot_job user slots ≡ some job
    → slot_job user (update test (λ s. record s { current_job = none }) slots) ≡ some job
unfolding slot_job
slot_job-kept test user job [] other h = cc
slot_job-kept test user job (s ∷ slots) other h = elim (Bool-cases (s.owner == user)) [
  | inl e ↦ let named : s.current_job ≡ some job = rw e at h in rw (other s named) (rw e named)
  | inr e ↦
      if_elim
        (λ (x : Slot).
          (let rest = slot_job user (update test (λ r. record r { current_job = none }) slots) in
            if x.owner == user then x.current_job else rest)
          ≡ some job)
        (test s) _ _ (rw e (slot_job-kept test user job slots other (rw e at h)))
        (rw e (slot_job-kept test user job slots other (rw e at h)))
]

kept-owners :
    (test : Slot → Bool) (slots : List Slot)
    → map (λ s. s.owner) (update test (λ s. record s { current_job = none }) slots)
      ≡ map (λ s. s.owner) slots
kept-owners test [] = refl
kept-owners test (s ∷ slots) =
    if_elim
      (λ (x : Slot).
        x.owner ∷ map (λ s. s.owner) (update test (λ s. record s { current_job = none }) slots)
        ≡ s.owner ∷ map (λ s. s.owner) slots)
      (test s) _ _ (ap (λ (l : List ℕ). s.owner ∷ l) (kept-owners test slots))
      (ap (λ (l : List ℕ). s.owner ∷ l) (kept-owners test slots))

-- The key of a job that is not deleted is none of those of the deleted ones.
gone-absent :
    (test : Job → Bool) (a : ℕ) (js : List Job)
    → contains a (map (λ j. j.pk) js) ≡ false
    → any (λ j. j.pk == a && test j) js ≡ false
gone-absent test a [] h = refl
gone-absent test a (j ∷ js) h = ground (arith, gone-absent test a js)

selected-stays :
    (test : Job → Bool) (js : List Job)
    → Distinct (map (λ j. j.pk) js)
    → All (λ k. any (λ j. j.pk == k.pk && test j) js ≡ false) (select (λ j. not (test j)) js)
selected-stays test [] d = tt
selected-stays test (j ∷ js) (d, ds) =
    let stays = λ (k : Job). any (λ x. x.pk == k.pk && test x) (j ∷ js) ≡ false in
    let rest : All stays (select (λ x. not (test x)) js) =
      All-map (select (λ x. not (test x)) js)
        (λ k (r : (any (λ x. x.pk == k.pk && test x) js ≡ false) × ((j.pk == k.pk) ≡ false)).
          ground arith)
        (All-both (λ k. any (λ x. x.pk == k.pk && test x) js ≡ false) (λ k. (j.pk == k.pk) ≡ false)
          (select (λ x. not (test x)) js) (selected-stays test js ds)
          (All-select (λ k. (j.pk == k.pk) ≡ false) (λ x. not (test x)) js
            (absent-pks j.pk js d))) in
    if_cases (λ (l : List Job). All stays l) (not (test j)) _ _
      (λ e. (let absent = gone-absent test j.pk js d in ground arith, rest)) (λ _. rest)

pub delete_jobs-IsExport :
    (test : Job → Bool) (db : ExportDb) → IsExport db → IsExport (delete_jobs test db)
unfolding delete_jobs
delete_jobs-IsExport test db h = record {
  rows = All-select IsJob (λ j. not (test j)) db.jobs h.rows;
  slots =
      All-map (select (λ j. not (test j)) db.jobs)
        (λ k (r : (any (λ j. j.pk == k.pk && test j) db.jobs ≡ false) × HoldsSlot db.slots k) a u o.
          slot_job-kept
            (λ s. elim s.current_job [
              | none ↦ false
              | some pk ↦ any (λ j. j.pk == pk && test j) db.jobs
            ])
            u k.pk db.slots (λ s e. rw e r.0) (r.1 a u o))
        (All-both (λ k. any (λ j. j.pk == k.pk && test j) db.jobs ≡ false) (HoldsSlot db.slots)
          (select (λ j. not (test j)) db.jobs) (selected-stays test db.jobs h.distinct)
          (All-select (HoldsSlot db.slots) (λ j. not (test j)) db.jobs h.slots));
  distinct = selected-Distinct (λ j. not (test j)) db.jobs h.distinct;
  owners = subst Distinct (sym (kept-owners _ db.slots)) h.owners;
}
