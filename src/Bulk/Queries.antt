-- ===== src/Bulk/Queries.antt =====
-- The accepted queries of `parse_selection_query` (core/services/bulk_pin_management.py).
use svrx_pinry.Prelude.{
  ℕ, ◌≤◌, ◌≡◌, inl, inr, String, true, Option, none, some, List, [], ◌∷◌, is_some, leb,
  if◌then◌else◌, Option-cases, Ensures, Ensures-refuse_if, Ensures-bind, Ensures-done, returns,
  stops, arith,
}
use svrx_pinry.Bulk.Selection.{
  QueryParams, SelectionQuery, getlist, decimal_from, positive_decimal, parse_board_id,
  parse_exclusive, parse_selection_query,
}

abbrev IsPositive : Option ℕ → Type 0
IsPositive o = (n : ℕ) → o ≡ some n → 1 ≤ n

-- The test that follows `int`.
abbrev at_least_one : Option ℕ → Option ℕ
at_least_one none = none
at_least_one (some n) = if leb 1 n then some n else none

at_least_one-IsPositive : (o : Option ℕ) → IsPositive (at_least_one o)
at_least_one-IsPositive none n e = cc
at_least_one-IsPositive (some m) n e = ground arith

positive_decimal-IsPositive : (s : String) → IsPositive (positive_decimal s)
unfolding positive_decimal
positive_decimal-IsPositive String.[] n e = cc
positive_decimal-IsPositive (String.◌∷◌ c rest) n e =
    at_least_one-IsPositive (decimal_from 0 (String.◌∷◌ c rest)) n e

parse_board_id-IsPositive : (values : List String) → Ensures IsPositive (parse_board_id values)
unfolding parse_board_id
parse_board_id-IsPositive [] = returns (λ n e. cc)
parse_board_id-IsPositive (v ∷ []) = elim (Option-cases (positive_decimal v)) [
  | inl e ↦ rw (e, parse_board_id) stops
  | inr (m, e) ↦
      rw (e, parse_board_id) (returns (λ n same. positive_decimal-IsPositive v n (rw e same)))
]
parse_board_id-IsPositive (v ∷ w ∷ rest) = stops

-- A query that is accepted: its board has a positive key, and exclusive pins are asked of a board.
pub record IsSelection (q : SelectionQuery) : Type 0 where
  pub positive : IsPositive q.board_id
  pub of_board : q.exclusive_owned ≡ true → is_some q.board_id ≡ true

-- What `parse_selection_query` accepts names a board by a positive key if it names one, and asks for
-- exclusive pins only of a board.
pub parse_selection_query-IsSelection :
    (params : QueryParams) → Ensures IsSelection (parse_selection_query params)
unfolding parse_selection_query
parse_selection_query-IsSelection params = Ensures-refuse_if _ _ _ λ _.
    Ensures-bind (parse_board_id (getlist "board_id" params)) _ λ board parsed.
      Ensures-bind (parse_exclusive (getlist "exclusive_owned" params)) _ λ exclusive _.
        Ensures-refuse_if _ _ _ λ checked. returns (record {
          positive = Ensures-done (parse_board_id-IsPositive (getlist "board_id" params)) parsed;
          of_board = λ asked. ground arith;
        })
