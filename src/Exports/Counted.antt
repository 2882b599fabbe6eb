-- ===== src/Exports/Counted.antt =====
-- The counters of the targets that an export captures (exports/services/targeting.py).
use svrx_pinry.Prelude.{
  ℕ, ◌≤◌, ◌≡◌, refl, inl, inr, true, false, not, ◌&&◌, ◌||◌, ◌+◌, Option, none, some, List, [], ◌∷◌,
  map, String, is_none, any, find, length, Option-cases, arith, Ensures, returns, stops,
  Ensures-refuse_if, Ensures-then, All, find-All, All-always, ◌==◌,
}
use svrx_pinry.Exports.Contracts.{invalid_target, request_error, target_identity_changed}
use svrx_pinry.Exports.Targets.{
  ExportSettings, TargetBoard, TargetDb, TargetIdentity, TargetSnapshot, same_snapshot, identity,
  TargetRequest, for_pins, for_board, is_visible, load_pin, load_pins, membership_ids,
  snapshot_board, snapshot_targets,
}
use svrx_pinry.Exports.Sizes.{ObservedTargets, CapturedTargets, size_of, for_export, capture_locked}

length-map {ℓ κ} :
    {A : Type ℓ} {B : Type κ} (f : A → B) (xs : List A) → length (map f xs) ≡ length xs
length-map f [] = refl
length-map f (x ∷ xs) = omega (arith, length-map f xs)

module _ (user : ℕ) (db : TargetDb) where
  length-load_pins : (ids : List ℕ) → length (load_pins user db ids) ≤ length ids
  unfolding load_pins
  length-load_pins [] = omega arith
  length-load_pins (id ∷ ids) = ground (arith, length-load_pins ids)

  load_pins-all :
      (ids : List ℕ)
      → any (λ id. is_none (load_pin user db id)) ids ≡ false
      → length (load_pins user db ids) ≡ length ids
  unfolding load_pins
  load_pins-all [] h = refl
  load_pins-all (id ∷ ids) h = ground (arith, load_pins-all ids)

  -- The target's owner is the user, or the pin was public.
  abbrev pub IsAllowed : TargetIdentity → Type 0
  IsAllowed i = (i.owner_id == user || not i.private) ≡ true

  load_pins-IsAllowed : (ids : List ℕ) → All IsAllowed (map identity (load_pins user db ids))
  unfolding load_pins
  load_pins-IsAllowed [] = tt
  load_pins-IsAllowed (id ∷ ids) = elim (Option-cases (load_pin user db id)) [
    | inl e ↦ rw e (load_pins-IsAllowed ids)
    | inr (p, e) ↦
        let (here, t) =
          find-All (λ p. p.pk ≡ p.pk) (λ p. p.pk == id && is_visible user p) db.rows {x = p}
            (All-always (λ p. p.pk ≡ p.pk) db.rows λ _. refl) e in
        rw e (ground arith, load_pins-IsAllowed ids)
  ]

  -- What a snapshot of targets is.
  pub record IsSnapshot (s : TargetSnapshot) : Type 0 where
    pub allowed : All IsAllowed s.identities
    pub counted : s.requested_total ≡ length s.identities + s.excluded_total

  snapshot_board-IsSnapshot :
      (encoded_size : String → ℕ) (found : Option TargetBoard)
      → Ensures IsSnapshot (snapshot_board encoded_size user db found)
  unfolding snapshot_board
  snapshot_board-IsSnapshot encoded_size none = stops
  snapshot_board-IsSnapshot encoded_size (some b) =
      let ids = membership_ids b.pk db in
      let le = length-load_pins ids in
      let len = length-map identity (load_pins user db ids) in
      returns (record { allowed = load_pins-IsAllowed ids; counted = omega arith })

  snapshot_targets-IsSnapshot :
      (encoded_size : String → ℕ) (request : TargetRequest)
      → Ensures IsSnapshot (snapshot_targets encoded_size user request db)
  unfolding snapshot_targets
  snapshot_targets-IsSnapshot encoded_size (for_pins ids) =
      Ensures-refuse_if (any (λ id. is_none (load_pin user db id)) ids)
        (request_error invalid_target 404) _
        λ all.
          let same = load_pins-all ids all in
          let len = length-map identity (load_pins user db ids) in
          returns (record { allowed = load_pins-IsAllowed ids; counted = omega arith })
  snapshot_targets-IsSnapshot encoded_size (for_board id) =
      snapshot_board-IsSnapshot encoded_size
        (find (λ b. b.pk == id && b.submitter_id == user) db.boards)

-- What is captured under the write fence.
pub record IsCapture (user : ℕ) (db : TargetDb) (settings : ExportSettings)
    (observed : ObservedTargets) (c : CapturedTargets) : Type 0 where
  pub snapshot : IsSnapshot user db c.snapshot
  pub unchanged : same_snapshot c.snapshot observed.snapshot ≡ true
  pub sized : any (λ i. is_none (size_of i.source_key observed.sizes)) c.snapshot.identities ≡ false
  pub space :
      c.bytes_total + c.snapshot.metadata_overhead + settings.space_min_margin_bytes
      ≤ c.space_budget.required_bytes

margin-bound :
    (least distinct archived metadata : ℕ)
    → archived + metadata + least ≤ (for_export least distinct archived metadata).required_bytes
unfolding for_export
margin-bound least distinct archived metadata = omega arith

-- The targets that are captured for an export are pins of the user or public ones, every pin that was
-- requested is a target or is counted as excluded, they are the targets that were observed before the
-- write fence, each with an observed size, and the space that is required covers the archive, the
-- metadata and the least margin.
pub capture_locked-IsCapture :
    (encoded_size : String → ℕ) (settings : ExportSettings) (user : ℕ) (request : TargetRequest)
    (observed : ObservedTargets) (db : TargetDb)
    → Ensures
        (IsCapture user db settings observed)
        (capture_locked encoded_size settings user request observed db)
unfolding capture_locked for_export
capture_locked-IsCapture encoded_size settings user request observed db =
    Ensures-then (IsSnapshot user db) (IsCapture user db settings observed)
      (snapshot_targets encoded_size user request db) _
      (snapshot_targets-IsSnapshot user db encoded_size request)
      λ s h.
        Ensures-refuse_if
          (not (same_snapshot s observed.snapshot)
            || any (λ i. is_none (size_of i.source_key observed.sizes)) s.identities)
          target_identity_changed _
          λ checked. returns (record {
            snapshot = h;
            unchanged = ground arith;
            sized = ground arith;
            space = margin-bound _ _ _ _;
          })
