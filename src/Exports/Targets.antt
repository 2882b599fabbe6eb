-- ===== src/Exports/Targets.antt =====
-- Which pins an export holds and how much space it needs: `TargetingService` of
-- exports/services/targeting.py and `SpaceBudget` of exports/services/file_ops.py. How long a text is
-- in UTF-8 and the size of a stored file are arguments.
use svrx_pinry.Prelude.{
  ℕ, Bool, true, false, not, ◌&&◌, ◌||◌, ◌+◌, ◌*◌, ◌-◌, Option, none, some, List, [], ◌∷◌, map,
  ◌==◌, ltb, opt_eq, bool_eq, is_none, String, str_eq, any, find, select, count, length, Result,
  done, refused, refuse_if,
}
use svrx_pinry.Database.{Through}
use svrx_pinry.Exports.Contracts.{invalid_target, ExportFault, request_error}
use svrx_pinry.Exports.Maintenance.{sort_in}

-- `settings.PINRY_FETCH_MAX_BYTES` and `PINRY_EXPORT_SPACE_MIN_MARGIN_BYTES`.
pub record ExportSettings : Type 0 where
  pub fetch_max_bytes : ℕ
  pub space_min_margin_bytes : ℕ

-- A pin with its image and the texts that `_metadata_overhead` measures; a text that is None is left
-- out of them, since it counts 0.
pub record TargetPin : Type 0 where
  pub pk : ℕ
  pub submitter_id : ℕ
  pub private : Bool
  pub published : ℕ
  pub image_id : ℕ
  pub media_asset_id : Option ℕ
  pub storage_name : String
  pub content_sha256 : Option ℕ
  pub texts : List String

pub record TargetBoard : Type 0 where
  pub pk : ℕ
  pub submitter_id : ℕ
  pub private : Bool
  pub name : String
  pub owner_username : String

pub record TargetDb : Type 0 where
  pub rows : List TargetPin
  pub boards : List TargetBoard
  pub through : List Through

pub record SourceKey : Type 0 where
  pub image_id : ℕ
  pub media_asset_id : Option ℕ
  pub storage_name : String
  pub content_sha256 : Option ℕ

abbrev pub same_key : SourceKey → SourceKey → Bool
same_key a b =
    a.image_id == b.image_id
    && (opt_eq a.media_asset_id b.media_asset_id
        && (str_eq a.storage_name b.storage_name && opt_eq a.content_sha256 b.content_sha256))

pub record TargetIdentity : Type 0 where
  pub pin_id : ℕ
  pub source_key : SourceKey
  pub owner_id : ℕ
  pub private : Bool
  pub published : ℕ

abbrev pub same_identity : TargetIdentity → TargetIdentity → Bool
same_identity a b =
    a.pin_id == b.pin_id
    && (same_key a.source_key b.source_key
        && (a.owner_id == b.owner_id
            && (bool_eq a.private b.private && a.published == b.published)))

abbrev pub same_identities : List TargetIdentity → List TargetIdentity → Bool
same_identities [] [] = true
same_identities [] (b ∷ bs) = false
same_identities (a ∷ rest) [] = false
same_identities (a ∷ rest) (b ∷ bs) = same_identity a b && same_identities rest bs

-- The columns of the board, where the scope is one.
pub record BoardSnapshot : Type 0 where
  pub board_id : ℕ
  pub board_name : String
  pub board_private : Bool
  pub board_owner_username : String

pub record TargetSnapshot : Type 0 where
  pub board_of : Option BoardSnapshot
  pub identities : List TargetIdentity
  pub requested_total : ℕ
  pub excluded_total : ℕ
  pub owned_private_total : ℕ
  pub metadata_overhead : ℕ

abbrev pub same_board : Option BoardSnapshot → Option BoardSnapshot → Bool
same_board none none = true
same_board none (some b) = false
same_board (some a) none = false
same_board (some a) (some b) =
    a.board_id == b.board_id
    && (str_eq a.board_name b.board_name
        && (bool_eq a.board_private b.board_private
            && str_eq a.board_owner_username b.board_owner_username))

-- Equality of the dataclass.
abbrev pub same_snapshot : TargetSnapshot → TargetSnapshot → Bool
same_snapshot a b =
    same_board a.board_of b.board_of
    && (same_identities a.identities b.identities
        && (a.requested_total == b.requested_total
            && (a.excluded_total == b.excluded_total
                && (a.owned_private_total == b.owned_private_total
                    && a.metadata_overhead == b.metadata_overhead))))

-- `_identity`.
abbrev pub identity : TargetPin → TargetIdentity
identity p = record {
  pin_id = p.pk;
  source_key = record {
    image_id = p.image_id;
    media_asset_id = p.media_asset_id;
    storage_name = p.storage_name;
    content_sha256 = p.content_sha256;
  };
  owner_id = p.submitter_id;
  private = p.private;
  published = p.published;
}

abbrev pub sum : List ℕ → ℕ
sum [] = 0
sum (n ∷ ns) = n + sum ns

-- The request that the serializer has accepted.
pub data TargetRequest : Type 0 where
  for_pins : List ℕ → TargetRequest
  for_board : ℕ → TargetRequest

-- A pin that the user may see: `visible` of `_load_pins`.
abbrev pub is_visible : ℕ → TargetPin → Bool
is_visible user p = p.submitter_id == user || not p.private

-- `by_id.get(pin_id)` of `_load_pins`, for one of the keys that it loads.
abbrev pub load_pin : ℕ → TargetDb → ℕ → Option TargetPin
load_pin user db pin = find (λ p. p.pk == pin && is_visible user p) db.rows

abbrev pub with_loaded : Option TargetPin → List TargetPin → List TargetPin
with_loaded none ps = ps
with_loaded (some p) ps = p ∷ ps

-- The pins that are loaded, in the order of their keys.
unfoldable pub load_pins : ℕ → TargetDb → List ℕ → List TargetPin
load_pins user db [] = []
load_pins user db (id ∷ ids) = with_loaded (load_pin user db id) (load_pins user db ids)

abbrev pub owned_private : ℕ → List TargetPin → ℕ
owned_private user ps = count (λ p. p.submitter_id == user && p.private) ps

-- The keys of the pins on a board, `order_by("pin_id")`.
unfoldable pub membership_ids : ℕ → TargetDb → List ℕ
unfolding sort_in
membership_ids b db = sort_in ltb (map (λ t. t.pin) (select (λ t. t.board == b) db.through))

module _ (encoded_size : String → ℕ) where
  abbrev pub payload : TargetPin → ℕ
  payload p = sum (map encoded_size p.texts)

  -- `_metadata_overhead`.
  unfoldable pub metadata_overhead : List TargetPin → ℕ
  metadata_overhead ps = 65536 + length ps * 32768 + sum (map payload ps) * 16

  unfoldable pub snapshot_board :
      ℕ → TargetDb → Option TargetBoard → Result ExportFault TargetSnapshot
  unfolding metadata_overhead load_pins membership_ids
  snapshot_board user db none = refused (request_error invalid_target 404)
  snapshot_board user db (some b) =
      let ids = membership_ids b.pk db in
      let ps = load_pins user db ids in
      done (record {
        board_of = some (record {
          board_id = b.pk;
          board_name = b.name;
          board_private = b.private;
          board_owner_username = b.owner_username;
        });
        identities = map identity ps;
        requested_total = length ids;
        excluded_total = length ids - length ps;
        owned_private_total = owned_private user ps;
        metadata_overhead = metadata_overhead ps;
      })

  -- `_snapshot`.
  unfoldable pub snapshot_targets : ℕ → TargetRequest → TargetDb → Result ExportFault TargetSnapshot
  unfolding refuse_if metadata_overhead load_pins snapshot_board
  snapshot_targets user (for_pins ids) db =
      let ps = load_pins user db ids in
      refuse_if (any (λ id. is_none (load_pin user db id)) ids) (request_error invalid_target 404) (
        done (record {
          board_of = none;
          identities = map identity ps;
          requested_total = length ids;
          excluded_total = 0;
          owned_private_total = owned_private user ps;
          metadata_overhead = metadata_overhead ps;
        }))
  snapshot_targets user (for_board id) db =
      snapshot_board user db (find (λ b. b.pk == id && b.submitter_id == user) db.boards)
