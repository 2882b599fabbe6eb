-- ===== src/Boards/Moves.antt =====
-- What `move_pins` and `update_board_membership` of core/services/pin_membership.py change.
use svrx_pinry.Prelude.{
  ℕ, ◌≡◌, refl, sym, subst, ap, ◌∙◌, inl, inr, Bool, true, false, ◌&&◌, ◌||◌, not, List, [], ◌∷◌,
  map, ◌==◌, ==_iff, if◌then◌else◌, if_elim, any, find, find-All, All-always, select, contains,
  contains-select, Ensures, Ensures-refuse_if, Ensures-bind, returns, stops, arith, Option-cases,
  Bool-cases,
}
use svrx_pinry.Database.{Board, Db}
use svrx_pinry.Boards.Members.{
  is_member, remove_members, is_member-add_members, is_member-remove_members,
}
use svrx_pinry.Boards.Cover.{clear_if_removed, save_cover, opt_contains}
use svrx_pinry.Boards.Membership.{
  MemberStatus, unchanged, moved, lock_owned_boards, move_members, move_pins,
}

-- Clearing a cover touches no membership and no pin.
cleared-through :
    (b : Board) (removed : List ℕ) (db : Db)
    → (clear_if_removed b removed db).0.through ≡ db.through
unfolding clear_if_removed save_cover
cleared-through b removed db =
    if_elim (λ (r : Db × Bool). r.0.through ≡ db.through) (not (opt_contains b.cover_pin removed)) _
      _ refl refl

cleared-pins :
    (b : Board) (removed : List ℕ) (db : Db) → (clear_if_removed b removed db).0.pins ≡ db.pins
unfolding clear_if_removed save_cover
cleared-pins b removed db =
    if_elim (λ (r : Db × Bool). r.0.pins ≡ db.pins) (not (opt_contains b.cover_pin removed)) _ _
      refl refl

-- What `move_pins` has done when it returns.
pub record IsMove (source target : ℕ) (requested : List ℕ) (db : Db) (r : Db × List MemberStatus)
    : Type 0 where
  pub members :
      (b p : ℕ)
      → is_member r.0.through b p ≡ (
          (is_member db.through b p && not (source == b && contains p requested))
          || (target == b && contains p requested))
  pub known :
      (p : ℕ)
      → contains p requested ≡ true
      → (is_member db.through source p || is_member db.through target p) ≡ true
  pub pins : r.0.pins ≡ db.pins
  pub statuses :
      r.1 ≡ map (λ id. if is_member db.through source id then moved else unchanged) requested

any-none :
    (fails : ℕ → Bool) (xs : List ℕ) (p : ℕ)
    → any fails xs ≡ false
    → contains p xs ≡ true
    → fails p ≡ false
any-none fails [] p h c = cc
any-none fails (x ∷ xs) p h c = elim (Bool-cases (p == x)) [
  | inl e ↦ subst (λ (n : ℕ). fails n ≡ false) (sym ((==_iff p x).0 e)) (ground arith)
  | inr e ↦ any-none fails xs p (ground arith) (ground arith)
]

move_members-IsMove :
    (source : Board) (target : ℕ) (requested : List ℕ) (db : Db)
    → (source.pk == target) ≡ false
    → ((p : ℕ)
        → contains p requested ≡ true
        → (is_member db.through source.pk p || is_member db.through target p) ≡ true)
    → IsMove source.pk target requested db (move_members source target requested db)
unfolding move_members
move_members-IsMove source target requested db other known =
    let to_remove = select (is_member db.through source.pk) requested in
    let to_add = select (λ id. not (is_member db.through target id)) requested in
    let rows = (clear_if_removed source to_remove db).0.through in
    record {
      members = λ b p. rw (cleared-through source to_remove db) (
          is_member-add_members target b p to_add (remove_members source.pk to_remove db.through)
          ∙ rw
              (
                is_member-remove_members source.pk b p to_remove db.through,
                contains-select p (is_member db.through source.pk) requested,
                contains-select p (λ id. not (is_member db.through target id)) requested,
              )
              (let from_source = λ (e : (source.pk == b) ≡ true).
                  ap (λ (n : ℕ). is_member db.through n p) ((==_iff source.pk b).0 e) in
                let from_target = λ (e : (target == b) ≡ true).
                  ap (λ (n : ℕ). is_member db.through n p) ((==_iff target b).0 e) in
                ground (arith, from_source, from_target)));
      known = known;
      pins = cleared-pins source to_remove db;
      statuses = refl;
    }

-- `move_pins` between two different boards, if it is not refused: each requested pin was on one of them,
-- and is then on the target and not on the source; no other membership and no pin changes; and
-- a pin is reported as moved exactly where the source held it.
pub move_pins-IsMove :
    (user source target : ℕ) (requested : List ℕ) (db : Db)
    → (source == target) ≡ false
    → Ensures (IsMove source target requested db) (move_pins user source target requested db)
unfolding move_pins
move_pins-IsMove user source target requested db other =
    Ensures-bind (lock_owned_boards user (source ∷ target ∷ []) db) _ λ boards _.
      Ensures-refuse_if _ _ _ λ _. Ensures-refuse_if _ _ _ λ known.
        elim (Option-cases (find (λ b. b.pk == source) boards)) [
          | inl e ↦ rw e stops
          | inr (b, e) ↦
              let key =
                (==_iff b.pk source).0
                  (find-All (λ (x : Board). Unit {0}) (λ x. x.pk == source) boards
                    (All-always _ boards (λ x. tt)) e).1 in
              rw e (
                returns (
                  subst
                    (λ (n : ℕ). IsMove n target requested db (move_members b target requested db))
                    key
                    (move_members-IsMove b target requested db (rw key other) (λ p c. rw key (
                      let one =
                        any-none
                          (λ id.
                            not (is_member db.through source id)
                            && not (is_member db.through target id))
                          requested p known c in
                      ground arith)))))
        ]
