-- ===== src/Bulk/Selection.antt =====
-- The queries of core/services/bulk_pin_management.py: the selection of pins and the preview of a
-- board's deletion; and the guard of an exclusive deletion in core/models.py.
use Prim.Native.Char.{code}
use svrx_pinry.Prelude.{
  ℕ, zero, suc, ◌+◌, ◌-◌, ◌*◌, String, Bool, true, false, ◌&&◌, ◌||◌, not, Option, none, some, List,
  [], ◌∷◌, map, ltb, leb, ◌==◌, str_eq, if◌then◌else◌, any, select, count, length, is_none, Result,
  done, refused, refuse_if, ◌>>=◌,
}
use svrx_pinry.Database.{Pin, Board, Db}
use svrx_pinry.Boards.Members.{is_member}
use svrx_pinry.Boards.Membership.{lock_source_board_and_pin}
use svrx_pinry.Bulk.Results.{
  BulkCode, internal_error, shared_pin, non_owned_pin, source_membership_changed,
  selection_invalid_request, selection_too_large, BulkOperationError,
}
use svrx_pinry.Bulk.Operations.{error_of}
use svrx_pinry.Bulk.Exclusive.{owned_board}

-- The query parameters: each key with its values.
abbrev pub QueryParams : Type 0
QueryParams = List (String × List String)

-- `getlist(key)`.
unfoldable pub getlist : String → QueryParams → List String
getlist key [] = []
getlist key ((k, values) ∷ rest) =
    let later = getlist key rest in if str_eq key k then values else later

-- `_POSITIVE_DECIMAL.match` and then `int`, of a text that continues after the number `n`.
unfoldable pub decimal_from : ℕ → String → Option ℕ
decimal_from n String.[] = some n
decimal_from n (String.◌∷◌ c rest) =
    let d = code c in
    let later = decimal_from (n * 10 + (d - 48)) rest in
    if leb 48 d && leb d 57 then later else none

-- `_POSITIVE_DECIMAL` and `int`, which in Python refuses more than 4300 digits.
unfoldable pub positive_decimal : String → Option ℕ
unfolding decimal_from
positive_decimal String.[] = none
positive_decimal (String.◌∷◌ c rest) = elim (decimal_from 0 (String.◌∷◌ c rest)) [
  | none ↦ none
  | some n ↦ if leb 1 n then some n else none
]

pub record SelectionQuery : Type 0 where
  pub board_id : Option ℕ
  pub exclusive_owned : Bool

abbrev invalid_selection_query : BulkOperationError
invalid_selection_query = error_of selection_invalid_request 400

-- The values of `board_id`, and of `exclusive_owned`.
unfoldable pub parse_board_id : List String → Result BulkOperationError (Option ℕ)
unfolding positive_decimal
parse_board_id [] = done none
parse_board_id (v ∷ []) = elim (positive_decimal v) [
  | none ↦ refused invalid_selection_query
  | some n ↦ done (some n)
]
parse_board_id (v ∷ w ∷ rest) = refused invalid_selection_query

unfoldable pub parse_exclusive : List String → Result BulkOperationError Bool
parse_exclusive [] = done false
parse_exclusive (v ∷ []) = if str_eq v "true" then done true else refused invalid_selection_query
parse_exclusive (v ∷ w ∷ rest) = refused invalid_selection_query

-- `parse_selection_query`.
unfoldable pub parse_selection_query : QueryParams → Result BulkOperationError SelectionQuery
unfolding getlist parse_board_id parse_exclusive
parse_selection_query params =
    refuse_if (any (λ p. not (str_eq p.0 "board_id" || str_eq p.0 "exclusive_owned")) params)
      invalid_selection_query
      (do
        board_id ← parse_board_id (getlist "board_id" params)
        exclusive ← parse_exclusive (getlist "exclusive_owned" params)
        refuse_if (exclusive && is_none board_id) invalid_selection_query
            (done (record { board_id = board_id; exclusive_owned = exclusive })))

-- The annotation `board_count`.
unfoldable pub board_count : Db → Pin → ℕ
board_count db p = count (λ t. t.pin == p.pk) db.through

-- `_board_query`.
unfoldable pub board_query : ℕ → Board → Db → List Pin
board_query user board db =
    select (λ p. is_member db.through board.pk p.pk && (not p.private || p.submitter == user))
      db.pins

-- The filter of `exclusive_owned`.
abbrev pub is_exclusive : ℕ → Db → Pin → Bool
is_exclusive user db p = p.submitter == user && board_count db p == 1

-- `_selection_query`. The filter of `exclusive_owned` needs a board; without one the annotation is
-- not there and Django raises.
unfoldable pub selection_query : ℕ → Option Board → Bool → Db → Result BulkOperationError (List Pin)
unfolding board_query board_count
selection_query user none false db = done (select (λ p. p.submitter == user) db.pins)
selection_query user none true db = refused (error_of internal_error 500)
selection_query user (some board) exclusive db =
    let query = board_query user board db in
    done (if exclusive then select (is_exclusive user db) query else query)

-- `order_by("-id")`.
unfoldable pub insert_desc : Pin → List Pin → List Pin
insert_desc p [] = p ∷ []
insert_desc p (q ∷ qs) =
    let rest = insert_desc p qs in if ltb p.pk q.pk then q ∷ rest else p ∷ q ∷ qs

unfoldable pub order_by_id_desc : List Pin → List Pin
unfolding insert_desc
order_by_id_desc [] = []
order_by_id_desc (p ∷ ps) = insert_desc p (order_by_id_desc ps)

-- `rows[:n]`.
unfoldable pub take {ℓ} : {A : Type ℓ} → ℕ → List A → List A
take zero xs = []
take (suc n) [] = []
take (suc n) (x ∷ xs) = x ∷ take n xs

pub record Selection : Type 0 where
  pub count : ℕ
  pub results : List (ℕ × Bool)

-- The rows that are read: the keys, and whether the user owns the pin.
unfoldable pub selected : ℕ → ℕ → List Pin → Result BulkOperationError Selection
unfolding take order_by_id_desc
selected user max_ids pins =
    let rows = take (suc max_ids) (order_by_id_desc pins) in
    refuse_if (ltb max_ids (length rows)) (error_of selection_too_large 409)
      (done (record { count = length rows; results = map (λ p. (p.pk, p.submitter == user)) rows }))

-- `selection_ids`, where `max_ids` is MAX_SELECTION_IDS.
unfoldable pub selection_ids : ℕ → ℕ → SelectionQuery → Db → Result BulkOperationError Selection
unfolding selection_query selected
selection_ids max_ids user query db =
    (elim query.board_id [
      | none ↦ done none
      | some id ↦ owned_board user id db >>= λ board. done (some board)
    ])
    >>= λ (board : Option Board).
        selection_query user board query.exclusive_owned db >>= λ pins. selected user max_ids pins

abbrev pub max_selection_ids : ℕ
max_selection_ids = 50000

pub record DeletePreview : Type 0 where
  pub exclusive_owned_count : ℕ
  pub shared_owned_count : ℕ
  pub non_owned_count : ℕ

-- `board_delete_preview`.
unfoldable pub preview_of : ℕ → Db → List Pin → DeletePreview
unfolding board_count
preview_of user db pins = record {
  exclusive_owned_count = count (λ p. p.submitter == user && board_count db p == 1) pins;
  shared_owned_count = count (λ p. p.submitter == user && ltb 1 (board_count db p)) pins;
  non_owned_count = count (λ p. not (p.submitter == user)) pins;
}

unfoldable pub board_delete_preview : ℕ → ℕ → Db → Result BulkOperationError DeletePreview
unfolding preview_of board_query
board_delete_preview user board_id db = do
  board ← owned_board user board_id db
  done (preview_of user db (board_query user board db))

-- `_locked_exclusive_pin_status` of core/models.py: the code of a preserved pin, or none where the
-- pin may be deleted.
unfoldable pub locked_exclusive_pin_status : ℕ → ℕ → ℕ → Db → Option BulkCode
unfolding lock_source_board_and_pin take
locked_exclusive_pin_status submitter_id source_board_id pin db =
    let (source_board, current_pin) = lock_source_board_and_pin source_board_id pin db in
    elim source_board [
      | none ↦ some source_membership_changed
      | some board ↦ elim current_pin [
        | none ↦ some source_membership_changed
        | some current ↦
            if not (is_member db.through source_board_id current.pk)
            then some source_membership_changed
            else if not (current.submitter == submitter_id)
            then some non_owned_pin
            else let board_ids =
                take 2 (map (λ t. t.board) (select (λ t. t.pin == current.pk) db.through)) in
              if ltb 1 (length board_ids) then some shared_pin else none
      ]
    ]
