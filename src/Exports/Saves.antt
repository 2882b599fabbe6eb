-- ===== src/Exports/Saves.antt =====
-- What the writes to one job keep of the invariant.
use svrx_pinry.Prelude.{
  ℕ, ◌≡◌, refl, sym, ap, ◌∙◌, subst, inl, inr, Bool, true, false, none, some, some_inj, List, [],
  ◌∷◌, map, ◌==◌, ==_iff, opt_eq, if_cases, Bool-cases, Option-cases, All, All-map, All-both,
  All-write, All-select, find, find-All, select, update, arith,
}
use svrx_pinry.Order.Positions.{Distinct}
use svrx_pinry.Exports.Contracts.{is_active}
use svrx_pinry.Exports.Tables.{Job, Slot, ExportDb, save_job}
use svrx_pinry.Exports.Queries.{first_in}
use svrx_pinry.Exports.Failures.{clear_slots}
use svrx_pinry.Exports.Invariant.{IsJob, slot_job, HoldsSlot, IsExport}

pub select-All {ℓ} :
    {A : Type ℓ} (test : A → Bool) (xs : List A) → All (λ x. test x ≡ true) (select test xs)
select-All test [] = tt
select-All test (x ∷ xs) =
    if_cases (All (λ y. test y ≡ true)) (test x) _ _ (λ e. (e, select-All test xs))
      (λ _. select-All test xs)

-- What `first_in` returns is one of the rows.
pub first_in-All {ℓ κ} :
    {A : Type ℓ} (P : A → Type κ) (before : A → A → Bool) (xs : List A) {x : A}
    → All P xs
    → first_in before xs ≡ some x
    → P x
unfolding first_in
first_in-All P before [] h f = cc
first_in-All P before (y ∷ ys) {x} (h, hs) f = elim (Option-cases (first_in before ys)) [
  | inl e ↦ subst P (some_inj (rw e at f)) h
  | inr (z, e) ↦
      let rest = first_in-All P before ys {x = z} hs e in
      elim (Bool-cases (before z y)) [
        | inl b ↦ subst P (some_inj (rw (e, b) at f)) rest
        | inr b ↦ subst P (some_inj (rw (e, b) at f)) h
      ]
]

save_job-pks :
    (job : Job) (js : List Job)
    → map (λ j. j.pk) (update (λ j. j.pk == job.pk) (λ _. job) js) ≡ map (λ j. j.pk) js
save_job-pks job [] = refl
save_job-pks job (j ∷ js) = elim (Bool-cases (j.pk == job.pk)) [
  | inl e ↦ rw (e, (==_iff j.pk job.pk).0 e, save_job-pks job js) refl
  | inr e ↦ rw (e, save_job-pks job js) refl
]

-- A job that is written in the place of another one with its key and owner.
pub same-HoldsSlot :
    (slots : List Slot) (j job : Job)
    → job.pk ≡ j.pk
    → job.owner_id ≡ j.owner_id
    → (is_active job.state ≡ true → is_active j.state ≡ true)
    → HoldsSlot slots j
    → HoldsSlot slots job
same-HoldsSlot slots j job pk owner active h a u o =
    h (active a) u (sym owner ∙ o) ∙ ap (λ (n : ℕ). some n) (sym pk)

pub save_job-IsExport :
    (job : Job) (db : ExportDb)
    → IsJob job
    → HoldsSlot db.slots job
    → IsExport db
    → IsExport (save_job job db)
unfolding save_job
save_job-IsExport job db good holds h = record {
  rows =
      All-write IsJob IsJob (λ j. j.pk == job.pk) (λ _. job) db.jobs
        (λ j g. if_cases IsJob (j.pk == job.pk) _ _ (λ _. good) (λ _. g)) h.rows;
  slots =
      All-write (HoldsSlot db.slots) (HoldsSlot db.slots) (λ j. j.pk == job.pk) (λ _. job) db.jobs
        (λ j g. if_cases (HoldsSlot db.slots) (j.pk == job.pk) _ _ (λ _. holds) (λ _. g)) h.slots;
  distinct = subst Distinct (sym (save_job-pks job db.jobs)) h.distinct;
  owners = h.owners;
}

-- A slot that names another job keeps it.
slot_job-clear :
    (pk : ℕ) (user job : ℕ) (slots : List Slot)
    → (job == pk) ≡ false
    → slot_job user slots ≡ some job
    → slot_job user
        (update (λ s. opt_eq s.current_job (some pk)) (λ s. record s { current_job = none }) slots)
      ≡ some job
unfolding slot_job
slot_job-clear pk user job [] other h = cc
slot_job-clear pk user job (s ∷ slots) other h = ground (arith, slot_job-clear pk user job slots)

cleared-owners :
    (pk : ℕ) (slots : List Slot)
    → map
        (λ s. s.owner)
        (update (λ s. opt_eq s.current_job (some pk)) (λ s. record s { current_job = none }) slots)
      ≡ map (λ s. s.owner) slots
cleared-owners pk [] = refl
cleared-owners pk (s ∷ slots) = ground (arith, cleared-owners pk slots)

-- A job that is active is none of those whose slots are cleared.
pub clear_slots-IsExport :
    (pk : ℕ) (db : ExportDb)
    → All (λ j. (j.pk == pk) ≡ true → is_active j.state ≡ false) db.jobs
    → IsExport db
    → IsExport (clear_slots pk db)
unfolding clear_slots
clear_slots-IsExport pk db ended h = record {
  rows = h.rows;
  slots =
      All-map db.jobs
        (λ j (r : (((j.pk == pk) ≡ true → is_active j.state ≡ false) × HoldsSlot db.slots j)) a u o.
          slot_job-clear pk u j.pk db.slots
            (elim (Bool-cases (j.pk == pk)) [ inl e ↦ (let x = r.0 e in cc) | inr e ↦ e ])
            (r.1 a u o))
        (All-both (λ j. (j.pk == pk) ≡ true → is_active j.state ≡ false) (HoldsSlot db.slots)
          db.jobs ended h.slots);
  distinct = h.distinct;
  owners = subst Distinct (sym (cleared-owners pk db.slots)) h.owners;
}

-- What holds of the rows holds of the job that is found among them.
pub found-job :
    (test : Job → Bool) (db : ExportDb) {j : Job}
    → IsExport db
    → find test db.jobs ≡ some j
    → IsJob j × HoldsSlot db.slots j × (test j ≡ true)
found-job test db {j} h f =
    let (good, t) = find-All IsJob test db.jobs {x = j} h.rows f in
    let (holds, t') = find-All (HoldsSlot db.slots) test db.jobs {x = j} h.slots f in
    (good, holds, t)

-- The same of the job that an ordered filter chooses.
pub first-job :
    (before : Job → Job → Bool) (test : Job → Bool) (db : ExportDb) {j : Job}
    → IsExport db
    → first_in before (select test db.jobs) ≡ some j
    → IsJob j × HoldsSlot db.slots j × (test j ≡ true)
first-job before test db {j} h f = (
  first_in-All IsJob before (select test db.jobs) (All-select IsJob test db.jobs h.rows) f,
  first_in-All (HoldsSlot db.slots) before (select test db.jobs)
      (All-select (HoldsSlot db.slots) test db.jobs h.slots) f,
  first_in-All (λ x. test x ≡ true) before (select test db.jobs) (select-All test db.jobs) f,
)
