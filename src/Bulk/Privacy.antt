-- ===== src/Bulk/Privacy.antt =====
-- `_update` of core/services/bulk_pin_management.py keeps the covers of public boards public.
use svrx_pinry.Prelude.{
  ℕ, ◌≡◌, refl, ap, ◌∙◌, ◌≢◌, inl, inr, Bool, true, false, ◌&&◌, Option, none, some, List, [], ◌∷◌,
  map, ◌==◌, if_cases, find-All, find-update, select, update, contains, contains-sorted_set,
  sorted_set, All, All-map, All-write, All-always, All-both, Result, done, ◌>>=◌, Ensures,
  Ensures-refuse_if, Ensures-bind, returns, stops, arith, Option-cases,
}
use svrx_pinry.Database.{Pin, Board, Through, Db}
use svrx_pinry.Boards.Cover.{
  CoverCode, pin_of, is_public_cover, probed_boards, clear_public_covers, pin_privacy_transition,
}
use svrx_pinry.Boards.Invariant.{cover_ok, is_public_pin, IsCovered}
use svrx_pinry.Bulk.Results.{BulkOperationError, Summary}
use svrx_pinry.Bulk.Operations.{
  TagMode, Changes, updated_pin, apply_locked_updates, owned_pins, update_pins, on_cover_error,
}

module _ (tag : TagMode → List ℕ → List ℕ → List ℕ) (changes : Changes) where
  updated_pin-public :
      (p : Pin) (private : Bool)
      → (changes.private ≡ some true → private ≡ true)
      → is_public_pin (some p) private ≡ true
      → is_public_pin (some (updated_pin tag changes p)) private ≡ true
  unfolding updated_pin
  updated_pin-public p private safe h = ground arith

  updated_pin-pk : (p : Pin) → (updated_pin tag changes p).pk ≡ p.pk
  unfolding updated_pin
  updated_pin-pk p = ground arith

  -- One write of the loop, seen through a board's cover.
  write-public :
      (c id : ℕ) (pins : List Pin) (private : Bool)
      → (changes.private ≡ some true → (c == id) ≡ true → private ≡ true)
      → is_public_pin (pin_of c pins) private ≡ true
      → is_public_pin (pin_of c (update (λ p. p.pk == id) (updated_pin tag changes) pins)) private
        ≡ true
  write-public c id pins private safe h = elim (Option-cases (pin_of c pins)) [
    | inl e ↦ ground arith
    | inr (p, e) ↦
        let found =
          find-update (λ x. x.pk == c) (λ x. x.pk == id) (updated_pin tag changes) pins
            (λ x. ap (λ (n : ℕ). n == c) (updated_pin-pk x)) e in
        let key =
          (find-All (λ _. Unit {0}) (λ x. x.pk == c) pins (All-always _ pins (λ x. tt)) e).1 in
        rw found (
          if_cases (λ (z : Pin). is_public_pin (some z) private ≡ true) (p.pk == id) _ _
            (λ same. updated_pin-public p private (λ t. safe t (ground arith)) (rw e at h))
            (λ _. rw e at h))
  ]

  apply-public :
      (c : ℕ) (ids : List ℕ) (db : Db) (private : Bool)
      → (changes.private ≡ some true → contains c ids ≡ true → private ≡ true)
      → is_public_pin (pin_of c db.pins) private ≡ true
      → is_public_pin (pin_of c (apply_locked_updates tag changes ids db).pins) private ≡ true
  unfolding apply_locked_updates
  apply-public c [] db private safe h = h
  apply-public c (id ∷ ids) db private safe h =
      apply-public c ids _ private (λ t m. safe t (ground arith))
        (write-public c id db.pins private (λ t m. safe t (ground arith)) h)

  pub boards-apply :
      (ids : List ℕ) (db : Db) → (apply_locked_updates tag changes ids db).boards ≡ db.boards
  unfolding apply_locked_updates
  boards-apply [] db = refl
  boards-apply (id ∷ ids) db = boards-apply ids _

  through-apply :
      (ids : List ℕ) (db : Db) → (apply_locked_updates tag changes ids db).through ≡ db.through
  unfolding apply_locked_updates
  through-apply [] db = refl
  through-apply (id ∷ ids) db = through-apply ids _

-- The second query finds every public board whose cover becomes private.
probed-All :
    (test : Board → Bool) (boards : List Board)
    → All (λ b. test b ≡ true → contains b.pk (map (λ x. x.pk) (select test boards)) ≡ true) boards
probed-All test [] = tt
probed-All test (b ∷ bs) = (
  λ e. ground arith,
  All-map bs
      (λ x (h : test x ≡ true → contains x.pk (map (λ y. y.pk) (select test bs)) ≡ true) e.
        ground (arith, h e))
      (probed-All test bs),
)

probed_boards-All :
    (ids : List ℕ) (db : Db)
    → All
        (λ b. is_public_cover ids b ≡ true → contains b.pk (probed_boards true ids db) ≡ true)
        db.boards
unfolding probed_boards
probed_boards-All ids db =
    All-map db.boards
      (λ b
          (h : is_public_cover ids b ≡ true
            → contains b.pk (map (λ x. x.pk) (select (is_public_cover ids) db.boards)) ≡ true)
          e.
        contains-sorted_set b.pk _ ∙ h e)
      (probed-All (is_public_cover ids) db.boards)

module _ (tag : TagMode → List ℕ → List ℕ → List ℕ) (changes : Changes) (ids : List ℕ)
    (db : Db) where
  abbrev new_pins : List Pin
  new_pins = (apply_locked_updates tag changes ids db).pins

  -- A cover that is not cleared stays valid.
  kept-ok :
      (rows : List Through) (b : Board)
      → (changes.private ≡ some true → is_public_cover (sorted_set ids) b ≡ false)
      → cover_ok db.pins rows b ≡ true
      → cover_ok new_pins rows b ≡ true
  kept-ok rows b safe h = elim (Option-cases b.cover_pin) [
    | inl e ↦ ground arith
    | inr (c, e) ↦ ground (
      arith,
      contains-sorted_set c ids,
      safe,
      apply-public tag changes c ids db b.private
          (λ t m. ground (arith, contains-sorted_set c ids, safe t)),
    )
  ]

  written-covers :
      changes.private ≢ some true
      → IsCovered db
      → IsCovered (apply_locked_updates tag changes ids db)
  written-covers other h = record {
    covers =
        rw (boards-apply tag changes ids db, through-apply tag changes ids db)
          (All-map db.boards (λ b. kept-ok db.through b (λ t. absurd (other t))) h.covers);
  }

  cleared-covers :
      IsCovered db
      → IsCovered (
          clear_public_covers true
            (probed_boards true (sorted_set ids) db)
            (sorted_set ids)
            (apply_locked_updates tag changes ids db))
  unfolding clear_public_covers
  cleared-covers h = record {
    covers =
        rw (boards-apply tag changes ids db, through-apply tag changes ids db)
          (All-write
            (λ b.
              (is_public_cover (sorted_set ids) b ≡ true
                → contains b.pk (probed_boards true (sorted_set ids) db) ≡ true)
              × (cover_ok db.pins db.through b ≡ true))
            (λ b. cover_ok new_pins db.through b ≡ true)
            (λ b.
              contains b.pk (probed_boards true (sorted_set ids) db)
              && is_public_cover (sorted_set ids) b)
            (λ b. record b { cover_pin = none }) db.boards
            (λ b (found, ok).
              if_cases (λ z. cover_ok new_pins db.through z ≡ true)
                (contains b.pk (probed_boards true (sorted_set ids) db)
                  && is_public_cover (sorted_set ids) b)
                (record b { cover_pin = none }) b (λ _. refl)
                (λ e. kept-ok db.through b (λ _. ground (arith, found)) ok))
            (All-both _ _ db.boards (probed_boards-All (sorted_set ids) db) h.covers));
  }

transition-covers :
    (tag : TagMode → List ℕ → List ℕ → List ℕ) (changes : Changes) (user : ℕ) (ids : List ℕ)
    (target : Bool) (meanwhile : Db → Db) (db : Db)
    → changes.private ≡ some target
    → IsCovered (meanwhile db)
    → Ensures IsCovered (
        pin_privacy_transition user ids target meanwhile
          (λ pins. apply_locked_updates tag changes ids)
          db)
unfolding pin_privacy_transition clear_public_covers
transition-covers tag changes user ids true meanwhile db e h =
    Ensures-refuse_if _ _ _
      λ _. Ensures-refuse_if _ _ _ λ _. returns (cleared-covers tag changes ids (meanwhile db) h)
transition-covers tag changes user ids false meanwhile db e h = Ensures-refuse_if _ _ _ λ _.
    Ensures-refuse_if _ _ _
      λ _. returns (written-covers tag changes ids (meanwhile db) (λ t. ground arith) h)

on_cover_error-Ensures :
    (r : Result CoverCode Db) → Ensures IsCovered r → Ensures IsCovered (on_cover_error r)
on_cover_error-Ensures _ (returns h) = returns h
on_cover_error-Ensures _ stops = stops

changed-covers :
    (tag : TagMode → List ℕ → List ℕ → List ℕ) (meanwhile : Db → Db) (user : ℕ) (ids : List ℕ)
    (changes : Changes) (db : Db) (o : Option Bool)
    → changes.private ≡ o
    → IsCovered db
    → IsCovered (meanwhile db)
    → Ensures IsCovered (elim o as (λ _. Result BulkOperationError Db) [
      | some target ↦ on_cover_error (
          pin_privacy_transition user ids target meanwhile
            (λ pins. apply_locked_updates tag changes ids)
            db)
      | none ↦ owned_pins user ids db >>= λ pins. done (apply_locked_updates tag changes ids db)
    ])
changed-covers tag meanwhile user ids changes db none e h m =
    Ensures-bind (owned_pins user ids db) _
      λ pins _. returns (written-covers tag changes ids db (λ t. ground arith) h)
changed-covers tag meanwhile user ids changes db (some target) e h m =
    on_cover_error-Ensures _ (transition-covers tag changes user ids target meanwhile db e m)

-- A bulk update of any pins that is not refused, to private or public and with any change of
-- tags, leaves every board's cover valid if it was valid before and others kept it so meanwhile.
pub update_pins-IsCovered :
    (tag : TagMode → List ℕ → List ℕ → List ℕ) (meanwhile : Db → Db) (user : ℕ) (ids : List ℕ)
    (changes : Changes) (db : Db)
    → IsCovered db
    → IsCovered (meanwhile db)
    → Ensures (λ r. IsCovered r.0) (update_pins tag meanwhile user ids changes db)
unfolding update_pins
update_pins-IsCovered tag meanwhile user ids changes db h m =
    Ensures-map _ _ (changed-covers tag meanwhile user ids changes db changes.private refl h m)
  where
    Ensures-map :
        (r : Result BulkOperationError Db) (f : Db → Summary)
        → Ensures IsCovered r
        → Ensures (λ (x : Db × Summary). IsCovered x.0) (r >>= λ d. done (d, f d))
    Ensures-map _ f (returns h) = returns h
    Ensures-map _ f stops = stops
