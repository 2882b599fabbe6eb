-- ===== src/Exports/Permissions.antt =====
-- Which items of an export its owner may no longer see, of exports/services/permissions.py.
use svrx_pinry.Prelude.{
  ℕ, Bool, false, not, ◌&&◌, Option, none, some, List, [], ◌∷◌, ◌++◌, map, ◌==◌, opt_eq, find,
  select, contains, Result, done, ◌>>=◌, if◌then◌else◌,
}
use svrx_pinry.Exports.Contracts.{ExportFault}
use svrx_pinry.Exports.Tables.{Job, Item}
use svrx_pinry.Exports.Chunks.{query_chunk_size, chunks_of, chunk_size}

-- The columns of `Pin` that the permissions are about.
pub record LivePin : Type 0 where
  pub pk : ℕ
  pub submitter_id : ℕ
  pub private : Bool
  pub published : ℕ

-- `_live_pins(...).get(pin_id)`: the pins are read for one chunk of items.
unfoldable pub live_pin : List LivePin → List Item → ℕ → Option LivePin
live_pin pins chunk pin = find (λ p. p.pk == pin && contains p.pk (map (λ i. i.pin_id) chunk)) pins

-- The tuple `(item.pin_owner_id, False, item.published_at)` is what the pin is now.
abbrev pub is_public_as : Item → Option LivePin → Bool
is_public_as i none = false
is_public_as i (some p) =
    p.submitter_id == i.pin_owner_id && (not p.private && p.published == i.published_at)

-- `iter_visible_foreign_pin_ids`: the sets that it yields, as lists.
unfoldable pub iter_visible_foreign_pin_ids :
    List LivePin → List Item → ℕ → ℕ → Result ExportFault (List (List ℕ))
unfolding chunks_of chunk_size live_pin
iter_visible_foreign_pin_ids pins items user size = chunk_size size >>= λ n. done (
    map
      (λ chunk.
        map (λ i. i.pin_id) (select (λ i. is_public_as i (live_pin pins chunk i.pin_id)) chunk))
      (chunks_of (select (λ i. not (i.pin_owner_id == user)) items) n))

-- The pin is there with the same time, and is another user's now.
abbrev pub is_given_away : Option ℕ → Item → Option LivePin → Bool
is_given_away owner i none = false
is_given_away owner i (some p) =
    p.published == i.published_at && not (opt_eq (some p.submitter_id) owner)

-- The branches of the loop of `revoked_item_ids`.
abbrev pub is_revoked : Option ℕ → Item → Option LivePin → Bool
is_revoked owner i live =
    if opt_eq (some i.pin_owner_id) owner
    then is_given_away owner i live
    else not (is_public_as i live)

-- The loop over the chunks.
unfoldable pub revoked_in : Option ℕ → List LivePin → List (List Item) → List ℕ
unfolding live_pin
revoked_in owner pins [] = []
revoked_in owner pins (chunk ∷ rest) =
    map (λ i. i.pk) (select (λ i. is_revoked owner i (live_pin pins chunk i.pin_id)) chunk)
    ++ revoked_in owner pins rest

-- `revoked_item_ids`, of the job's items with that inclusion state, in the order in which they stand;
-- the code gives them as a set.
unfoldable pub revoked_item_ids : Job → Bool → List Item → List LivePin → List ℕ
unfolding chunks_of revoked_in
revoked_item_ids j included items pins = revoked_in j.owner_id pins (
    chunks_of
      (select (λ i. i.job == j.pk && (if included then i.included else not i.included)) items)
      query_chunk_size)
