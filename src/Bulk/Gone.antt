-- ===== src/Bulk/Gone.antt =====
-- The deletion of the pins that are exclusive to a board, in core/services/bulk_pin_management.py, and
-- what becomes of the pins that are not there.
use svrx_pinry.Prelude.{
  ℕ, ◌+◌, ◌≡◌, ◌==◌, refl, inl, inr, Bool, true, false, none, List, [], ◌∷◌, ap, any, contains,
  select, if_elim, is_some, subst, sym, ◌∙◌, ◌++◌, ==_refl, All-map, arith, Bool-cases,
  Option-cases, All, Ensures, returns, Ensures-bind,
}
use svrx_pinry.Database.{Pin, Db}
use svrx_pinry.Boards.Cover.{pin_of}
use svrx_pinry.Bulk.Results.{
  ItemResult, Summary, preserved_with, failed_with, internal_error, source_membership_changed,
  summarize,
}
use svrx_pinry.Bulk.Operations.{Context}
use svrx_pinry.Bulk.Exclusive.{
  ExclusiveOutcome, is_preserved_code, delete_exclusive_one, exclusive_result, owned_board,
  delete_if_exclusive_to_board,
}
use svrx_pinry.Bulk.Accounts.{
  summarize-IsAccount, attempt_all, attempt_each-IsStopped, attempt_each-ids, IsDeletion,
}

exclusive_result-own :
    (c : Context) (id : ℕ) (o : ExclusiveOutcome) → (exclusive_result c id o).id ≡ id
unfolding exclusive_result
exclusive_result-own c id ExclusiveOutcome.was_deleted = refl
exclusive_result-own c id (ExclusiveOutcome.was_preserved code) =
    if_elim (λ (r : ItemResult). r.id ≡ id) (is_preserved_code code) (preserved_with code id)
      (failed_with internal_error false id) refl refl
exclusive_result-own c id ExclusiveOutcome.unexpected = refl
exclusive_result-own c id (ExclusiveOutcome.faulted e) = refl

delete_exclusive_one-own :
    (c : Context) (existing : List Pin) (delete : ℕ → Db → Db × ExclusiveOutcome) (id : ℕ) (db : Db)
    → (delete_exclusive_one c existing delete id db).1.id ≡ id
unfolding delete_exclusive_one
delete_exclusive_one-own c existing delete id db = elim (Option-cases (pin_of id existing)) [
  | inl e ↦ rw (e, delete_exclusive_one) refl
  | inr (p, e) ↦ rw (e, delete_exclusive_one) (exclusive_result-own c id (delete id db).1)
]

-- The pin is in the table.
abbrev pub is_there : List Pin → ℕ → Bool
is_there pins id = any (λ p. p.pk == id) pins

-- `delete` of these pins, one after the other.
unfoldable pub delete_each : (ℕ → Db → Db × ExclusiveOutcome) → List ℕ → Db → Db
delete_each delete [] db = db
delete_each delete (id ∷ ids) db = delete_each delete ids (delete id db).0

-- A deletion of exclusive pins: of the pins that an attempt is made for, those that were there at first
-- are deleted one after the other and nothing else is done, and the others are preserved.
pub record IsExclusiveDeletion (c : Context) (delete : ℕ → Db → Db × ExclusiveOutcome)
    (ids : List ℕ) (started_at : ℕ) (db : Db) (r : Db × Summary) : Type 0 where
  pub deletion :
      IsDeletion c
        (delete_exclusive_one c (select (λ p. contains p.pk ids) db.pins) delete)
        ids
        started_at
        db
        r
  pub deleted : r.0 ≡ delete_each delete (select (is_there db.pins) deletion.stopped.before) db
  pub preserved :
      All
        (λ x. is_there db.pins x.id ≡ false → x ≡ preserved_with source_membership_changed x.id)
        (attempt_all c
          (started_at + c.fetch_total_timeout)
          (delete_exclusive_one c (select (λ p. contains p.pk ids) db.pins) delete)
          deletion.stopped.before
          db).1

gone-pin_of :
    (id : ℕ) (ids : List ℕ) (pins : List Pin)
    → is_there pins id ≡ false
    → pin_of id (select (λ p. contains p.pk ids) pins) ≡ none
gone-pin_of id ids [] h = refl
gone-pin_of id ids (p ∷ pins) h = ground (arith, gone-pin_of id ids pins)

there-pin_of :
    (id : ℕ) (ids : List ℕ) (pins : List Pin)
    → is_there pins id ≡ true
    → contains id ids ≡ true
    → is_some (pin_of id (select (λ p. contains p.pk ids) pins)) ≡ true
there-pin_of id ids [] h c = cc
there-pin_of id ids (p ∷ pins) h c = elim (Bool-cases (p.pk == id)) [
  | inl e ↦ let same : p.pk ≡ id = ground (arith, e) in rw (same, c, ==_refl id) refl
  | inr e ↦
      let rest = there-pin_of id ids pins (rw e at h) c in
      elim (Bool-cases (contains p.pk ids)) [ inl t ↦ rw (t, e) rest | inr t ↦ rw t rest ]
]

contains-before : (before after : List ℕ) → All (λ id. contains id (before ++ after) ≡ true) before
contains-before [] after = tt
contains-before (id ∷ before) after = (
  ground (arith, ==_refl id),
  All-map before (λ x h. ground (arith, h)) (contains-before before after),
)

module _ (c : Context) (deadline : ℕ) (delete : ℕ → Db → Db × ExclusiveOutcome) (ids : List ℕ)
    (pins : List Pin) where
  abbrev attempt : ℕ → Db → Db × ItemResult
  attempt = delete_exclusive_one c (select (λ p. contains p.pk ids) pins) delete

  attempt-gone :
      (id : ℕ) (db : Db)
      → is_there pins id ≡ false
      → attempt id db ≡ (db, preserved_with source_membership_changed id)
  unfolding delete_exclusive_one
  attempt-gone id db h = rw (gone-pin_of id ids pins h, delete_exclusive_one) refl

  attempt-there :
      (id : ℕ) (db : Db)
      → is_there pins id ≡ true
      → contains id ids ≡ true
      → (attempt id db).0 ≡ (delete id db).0
  unfolding delete_exclusive_one
  attempt-there id db h inside =
      elim (Option-cases (pin_of id (select (λ p. contains p.pk ids) pins))) [
        | inl e ↦ (let x = there-pin_of id ids pins h inside in let y = rw e at x in cc)
        | inr (p, e) ↦ rw (e, delete_exclusive_one) refl
      ]

  attempt_all-delete_each :
      (before : List ℕ) (db : Db)
      → All (λ id. contains id ids ≡ true) before
      → (attempt_all c deadline attempt before db).0
        ≡ delete_each delete (select (is_there pins) before) db
  unfolding attempt_all delete_each
  attempt_all-delete_each [] db h = refl
  attempt_all-delete_each (id ∷ before) db (h, hs) = elim (Bool-cases (is_there pins id)) [
    | inl t ↦ rw (attempt-there id db t h, t) (attempt_all-delete_each before (delete id db).0 hs)
    | inr t ↦ rw (attempt-gone id db t, t) (attempt_all-delete_each before db hs)
  ]

  attempt_all-preserved :
      (before : List ℕ) (db : Db)
      → All
          (λ x. is_there pins x.id ≡ false → x ≡ preserved_with source_membership_changed x.id)
          (attempt_all c deadline attempt before db).1
  unfolding attempt_all
  attempt_all-preserved [] db = tt
  attempt_all-preserved (id ∷ before) db = (
    λ t.
        let own = delete_exclusive_one-own c (select (λ p. contains p.pk ids) pins) delete id db in
        let gone = ap (λ (r : Db × ItemResult). r.1) (attempt-gone id db (rw own at t)) in
        rw own gone,
    attempt_all-preserved before (attempt id db).0,
  )

-- A deletion of the pins that are exclusive to a board, if it is not refused, gives each pin of the
-- request one result, counted once, and makes an attempt for every pin up to the first one for which the
-- deadline is reached and for none after it. Of the pins before it, exactly those that were in the table
-- at the start are deleted or judged, one after the other, and the database is what this leaves; a pin
-- that was not in the table is reported as preserved, since its membership has changed.
pub delete_if_exclusive_to_board-IsExclusiveDeletion :
    (c : Context) (delete : ℕ → Db → Db × ExclusiveOutcome) (user board_id : ℕ) (ids : List ℕ)
    (started_at : ℕ) (db : Db)
    → Ensures
        (IsExclusiveDeletion c delete ids started_at db)
        (delete_if_exclusive_to_board c delete user board_id ids started_at db)
unfolding delete_if_exclusive_to_board summarize
delete_if_exclusive_to_board-IsExclusiveDeletion c delete user board_id ids started_at db =
    let existing = select (λ p. contains p.pk ids) db.pins in
    let each = delete_exclusive_one c existing delete in
    let late = started_at + c.fetch_total_timeout in
    let stopped = attempt_each-IsStopped c late each 0 ids db in
    let inside : All (λ id. contains id ids ≡ true) stopped.before =
      subst (λ (l : List ℕ). All (λ id. contains id l ≡ true) stopped.before) (sym stopped.split)
        (contains-before stopped.before stopped.after) in
    Ensures-bind (owned_board user board_id db) _ λ board _. returns (record {
      deletion = record {
        account =
            summarize-IsAccount ids _
              (attempt_each-ids c late each (delete_exclusive_one-own c existing delete) ids db);
        stopped = stopped;
      };
      deleted =
          stopped.state
          ∙ attempt_all-delete_each c late delete ids db.pins stopped.before db inside;
      preserved = attempt_all-preserved c late delete ids db.pins stopped.before db;
    })
