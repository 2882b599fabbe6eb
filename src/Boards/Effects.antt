-- ===== src/Boards/Effects.antt =====
-- What the methods of core/services/pin_membership.py do to the relation, and whom they let do it.
use svrx_pinry.Prelude.{
  ℕ, ◌≡◌, ◌≢◌, refl, sym, ◌∙◌, Bool, true, false, ◌&&◌, ◌||◌, not, List, [], ◌∷◌, map, ◌==◌,
  if◌then◌else◌, any, select, contains, contains-select, contains-sorted_set, sorted_set, length,
  same_count-contains, done, refuse_if, Ensures, Ensures-refuse_if, Ensures-bind, returns, arith,
}
use svrx_pinry.Database.{Pin, Board, Db}
use svrx_pinry.Boards.Members.{is_member, is_member-add_members}
use svrx_pinry.Boards.Membership.{
  MemberStatus, unchanged, added, lock_owned_boards, lock_pins, some_missing, add_owned_pins,
}

-- The pin exists, and the test holds of it.
abbrev pub has_pin : (Pin → Bool) → ℕ → List Pin → Bool
has_pin test id pins = any (λ p. p.pk == id && test p) pins

-- The board exists and is the user's.
abbrev pub owns_board : ℕ → ℕ → List Board → Bool
owns_board user id boards = any (λ b. b.pk == id && b.submitter == user) boards

contains-pks :
    (a : ℕ) (test : Pin → Bool) (pins : List Pin)
    → contains a (map (λ p. p.pk) (select test pins)) ≡ has_pin test a pins
contains-pks a test [] = refl
contains-pks a test (p ∷ ps) = ground (arith, contains-pks a test ps)

has_pin-weaken :
    (a : ℕ) (test other : Pin → Bool) (pins : List Pin)
    → any (λ p. not (other p)) (select test pins) ≡ false
    → has_pin test a pins ≡ true
    → has_pin other a pins ≡ true
has_pin-weaken a test other [] h c = c
has_pin-weaken a test other (p ∷ ps) h c = ground (arith, has_pin-weaken a test other ps)

has_pin-requested :
    (a : ℕ) (ids : List ℕ) (pins : List Pin)
    → has_pin (λ p. contains p.pk ids) a pins ≡ true
    → contains a ids ≡ true
has_pin-requested a ids [] h = cc
has_pin-requested a ids (p ∷ ps) h = ground (arith, has_pin-requested a ids ps)

-- The check of the pins lets a request through only if every pin of it exists and passes the test.
checked-pins :
    (requested : List ℕ) (db : Db) (test : Pin → Bool)
    → some_missing (lock_pins requested db) requested ≡ false
    → any (λ p. not (test p)) (lock_pins requested db) ≡ false
    → (a : ℕ) → contains a requested ≡ true
    → has_pin test a db.pins ≡ true
unfolding some_missing lock_pins
checked-pins requested db test none_missing none_failing a c =
    let wanted : Pin → Bool = λ p. contains p.pk (sorted_set requested) in
    let pks = map (λ p. p.pk) (select wanted db.pins) in
    let inside = λ (b : ℕ) (h : contains b pks ≡ true).
      sym (contains-sorted_set b requested)
      ∙ has_pin-requested b (sorted_set requested) db.pins
          (sym (contains-pks b wanted db.pins) ∙ h) in
    let all = same_count-contains pks requested inside (ground arith) a c in
    has_pin-weaken a wanted test db.pins none_failing (sym (contains-pks a wanted db.pins) ∙ all)

single-owned :
    (user id : ℕ) (bs : List Board)
    → length (select (λ b. b.submitter == user && contains b.pk (id ∷ [])) bs) ≢ 0
    → owns_board user id bs ≡ true
single-owned user id [] h = absurd (h refl)
single-owned user id (b ∷ bs) h = ground (arith, single-owned user id bs)

-- A single key: the one board that was locked has it.
locked-single :
    (user id : ℕ) (db : Db) (boards : List Board)
    → lock_owned_boards user (id ∷ []) db ≡ done boards
    → owns_board user id db.boards ≡ true
unfolding lock_owned_boards refuse_if sorted_set
locked-single user id db boards e = single-owned user id db.boards (ground arith)

-- What `add_owned_pins` has done when it returns.
pub record IsAddition (user board_id : ℕ) (requested : List ℕ) (db : Db)
    (r : Db × List MemberStatus) : Type 0 where
  pub owner : owns_board user board_id db.boards ≡ true
  pub own_pins :
      (a : ℕ) → contains a requested ≡ true → has_pin (λ p. p.submitter == user) a db.pins ≡ true
  pub members :
      (b p : ℕ)
      → is_member r.0.through b p
        ≡ (is_member db.through b p || (board_id == b && contains p requested))
  pub boards : r.0.boards ≡ db.boards
  pub pins : r.0.pins ≡ db.pins
  pub statuses :
      r.1 ≡ map (λ id. if is_member db.through board_id id then unchanged else added) requested

-- `add_owned_pins` returns only for the user's own board and own, existing pins; then the board has
-- its old members and the requested pins, no other board has changed, and each pin is reported
-- as added exactly where it was no member before.
pub add_owned_pins_lem :
    (user board_id : ℕ) (requested : List ℕ) (db : Db)
    → Ensures (IsAddition user board_id requested db) (add_owned_pins user board_id requested db)
unfolding add_owned_pins
add_owned_pins_lem user board_id requested db =
    Ensures-bind (lock_owned_boards user (board_id ∷ []) db) _ λ boards locked.
      Ensures-refuse_if _ _ _ λ checked. returns (record {
        owner = locked-single user board_id db boards locked;
        own_pins =
            checked-pins requested db (λ p. p.submitter == user) (ground arith) (ground arith);
        members = λ b p. ground (
          arith,
          is_member-add_members board_id b p
              (select (λ id. not (is_member db.through board_id id)) requested) db.through,
          contains-select p (λ id. not (is_member db.through board_id id)) requested,
        );
        boards = refl;
        pins = refl;
        statuses = refl;
      })
