-- ===== src/Exports/Recaptured.antt =====
-- A capture after an observation with no change between them (exports/services/targeting.py).
use svrx_pinry.Prelude.{
  ℕ, ◌≡◌, refl, Bool, true, false, not, ◌||◌, Option, none, some, List, [], ◌∷◌, ◌++◌, String,
  is_none, is_some, any, Bool-cases, inl, inr, arith, done, refuse_if-false, opt_eq, ==_refl,
  str_eq, bool_eq, subst, if◌then◌else◌, All,
}
use text.Mathlib.TextPositions.{eq_refl}
use svrx_pinry.Exports.Contracts.{target_identity_changed}
use svrx_pinry.Exports.Targets.{
  ExportSettings, SourceKey, same_key, TargetIdentity, same_identity, same_identities,
  BoardSnapshot, same_board, TargetSnapshot, same_snapshot, TargetRequest, TargetDb,
  snapshot_targets,
}
use svrx_pinry.Exports.Sizes.{
  Sizes, size_of, observed_size, observe_sizes, observe_snapshot, pin_bytes, key_bytes,
  distinct_keys, for_export, CapturedTargets, capture_locked,
}

opt_eq_refl : (x : Option ℕ) → opt_eq x x ≡ true
opt_eq_refl none = refl
opt_eq_refl (some n) = ==_refl n

bool_eq_refl : (b : Bool) → bool_eq b b ≡ true
bool_eq_refl true = refl
bool_eq_refl false = refl

str_eq_refl : (s : String) → str_eq s s ≡ true
str_eq_refl s = eq_refl s

same_key_refl : (k : SourceKey) → same_key k k ≡ true
same_key_refl k =
    rw
      (
        ==_refl k.image_id,
        opt_eq_refl k.media_asset_id,
        str_eq_refl k.storage_name,
        opt_eq_refl k.content_sha256,
      )
      refl

same_identity_refl : (i : TargetIdentity) → same_identity i i ≡ true
same_identity_refl i =
    rw
      (
        ==_refl i.pin_id,
        same_key_refl i.source_key,
        ==_refl i.owner_id,
        bool_eq_refl i.private,
        ==_refl i.published,
      )
      refl

same_identities_refl : (is : List TargetIdentity) → same_identities is is ≡ true
same_identities_refl [] = refl
same_identities_refl (i ∷ is) = rw (same_identity_refl i) (same_identities_refl is)

same_board_refl : (b : Option BoardSnapshot) → same_board b b ≡ true
same_board_refl none = refl
same_board_refl (some b) =
    rw
      (
        ==_refl b.board_id,
        str_eq_refl b.board_name,
        bool_eq_refl b.board_private,
        str_eq_refl b.board_owner_username,
      )
      refl

same_snapshot_refl : (s : TargetSnapshot) → same_snapshot s s ≡ true
same_snapshot_refl s =
    rw
      (
        same_board_refl s.board_of,
        same_identities_refl s.identities,
        ==_refl s.requested_total,
        ==_refl s.excluded_total,
        ==_refl s.owned_private_total,
        ==_refl s.metadata_overhead,
      )
      refl

-- A key that has a size keeps one.
size_of-append :
    (key : SourceKey) (sizes more : Sizes)
    → is_some (size_of key sizes) ≡ true
    → is_some (size_of key (sizes ++ more)) ≡ true
unfolding size_of
size_of-append key [] more h = cc
size_of-append key ((k, n) ∷ sizes) more h = ground (arith, size_of-append key sizes more)

size_of-new :
    (key : SourceKey) (sizes : Sizes) (n : ℕ)
    → is_some (size_of key (sizes ++ (key, n) ∷ [])) ≡ true
unfolding size_of
size_of-new key [] n = rw (same_key_refl key) refl
size_of-new key ((k, m) ∷ sizes) n = ground (arith, size_of-new key sizes n)

module _ (fallback : ℕ) (observe : TargetIdentity → Option ℕ) where
  observed-kept :
      (key : SourceKey) (is : List TargetIdentity) (sizes : Sizes)
      → is_some (size_of key sizes) ≡ true
      → is_some (size_of key (observe_sizes fallback observe is sizes)) ≡ true
  unfolding observe_sizes
  observed-kept key [] sizes h = h
  observed-kept key (i ∷ is) sizes h = elim (Bool-cases (is_some (size_of i.source_key sizes))) [
    | inl e ↦ rw e (observed-kept key is sizes h)
    | inr e ↦ rw e (observed-kept key is _ (size_of-append key sizes _ h))
  ]

  next-sized :
      (i : TargetIdentity) (sizes : Sizes)
      → is_some (
          size_of i.source_key (
            if is_some (size_of i.source_key sizes)
            then sizes
            else sizes ++ (i.source_key, observed_size fallback (observe i)) ∷ []))
        ≡ true
  next-sized i sizes = elim (Bool-cases (is_some (size_of i.source_key sizes))) [
    | inl e ↦ rw e e
    | inr e ↦ rw e (size_of-new i.source_key sizes (observed_size fallback (observe i)))
  ]

  observed-all :
      (is : List TargetIdentity) (sizes all : Sizes)
      → observe_sizes fallback observe is sizes ≡ all
      → All (λ i. is_some (size_of i.source_key all) ≡ true) is
  unfolding observe_sizes
  observed-all [] sizes all e = tt
  observed-all (i ∷ is) sizes all e = (
    subst (λ a. is_some (size_of i.source_key a) ≡ true) e
        (observed-kept i.source_key is _ (next-sized i sizes)),
    observed-all is _ all e,
  )

all-sized :
    (sizes : Sizes) (is : List TargetIdentity)
    → All (λ i. is_some (size_of i.source_key sizes) ≡ true) is
    → any (λ i. is_none (size_of i.source_key sizes)) is ≡ false
all-sized sizes [] h = refl
all-sized sizes (i ∷ is) (h, t) = ground (arith, all-sized sizes is t)

-- If the targets that are read under the write fence are those that were observed, with whatever sizes,
-- then the capture returns them.
pub capture_locked-observe_snapshot :
    (encoded_size : String → ℕ) (settings : ExportSettings) (observe : TargetIdentity → Option ℕ)
    (user : ℕ) (request : TargetRequest) (db : TargetDb) (s : TargetSnapshot)
    → snapshot_targets encoded_size user request db ≡ done s
    → (c : CapturedTargets) × (capture_locked encoded_size settings user request
          (observe_snapshot settings observe s)
          db
        ≡ done c)
      × (c.snapshot ≡ s)
unfolding capture_locked observe_snapshot
capture_locked-observe_snapshot encoded_size settings observe user request db s e =
    let sizes = observe_sizes settings.fetch_max_bytes observe s.identities [] in
    let sized =
      all-sized sizes s.identities
        (observed-all settings.fetch_max_bytes observe s.identities [] sizes refl) in
    let same = same_snapshot_refl s in
    (
      record {
        snapshot = s;
        bytes_total = pin_bytes sizes s.identities;
        space_budget =
            for_export settings.space_min_margin_bytes
              (key_bytes sizes (distinct_keys s.identities)) (pin_bytes sizes s.identities)
              s.metadata_overhead;
      },
      rw e (
          refuse_if-false
            (not (same_snapshot s s)
              || any (λ i. is_none (size_of i.source_key sizes)) s.identities)
            target_identity_changed _ (rw (same, sized) refl)),
      refl,
    )
