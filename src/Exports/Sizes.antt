-- ===== src/Exports/Sizes.antt =====
-- The sizes that an export is planned with, of exports/services/targeting.py: what is observed
-- before the write fence, and what is captured under it.
use svrx_pinry.Prelude.{
  ℕ, max, not, ◌||◌, ◌+◌, ◌/◌, Option, none, some, List, [], ◌∷◌, ◌++◌, map, is_none, is_some,
  String, any, Result, done, refuse_if, ◌>>=◌, if◌then◌else◌,
}
use svrx_pinry.Exports.Contracts.{ExportFault, target_identity_changed}
use svrx_pinry.Exports.Targets.{
  ExportSettings, SourceKey, same_key, TargetIdentity, TargetSnapshot, same_snapshot, TargetRequest,
  TargetDb, sum, snapshot_targets,
}

-- The dictionary `sizes`, in the order of its insertions.
abbrev pub Sizes : Type 0
Sizes = List (SourceKey × ℕ)

-- `sizes.get(key)`.
unfoldable pub size_of : SourceKey → Sizes → Option ℕ
size_of key [] = none
size_of key ((k, n) ∷ rest) =
    let later = size_of key rest in if same_key k key then some n else later

-- A file that cannot be observed, or not as a number, counts as the largest that is fetched.
abbrev pub observed_size : ℕ → Option ℕ → ℕ
observed_size fallback none = fallback
observed_size fallback (some n) = n

-- The loop of `observe_snapshot`.
unfoldable pub observe_sizes : ℕ → (TargetIdentity → Option ℕ) → List TargetIdentity → Sizes → Sizes
unfolding size_of
observe_sizes fallback observe [] sizes = sizes
observe_sizes fallback observe (i ∷ is) sizes = observe_sizes fallback observe is (
    if is_some (size_of i.source_key sizes)
    then sizes
    else sizes ++ (i.source_key, observed_size fallback (observe i)) ∷ [])

-- The sum of `sizes[identity.source_key]`; every key is there.
unfoldable pub pin_bytes : Sizes → List TargetIdentity → ℕ
unfolding size_of
pin_bytes sizes [] = 0
pin_bytes sizes (i ∷ is) = observed_size 0 (size_of i.source_key sizes) + pin_bytes sizes is

-- `SpaceBudget`.
pub record SpaceBudget : Type 0 where
  pub distinct_original_bytes : ℕ
  pub archive_pin_bytes : ℕ
  pub metadata_overhead : ℕ
  pub margin_bytes : ℕ
  pub required_bytes : ℕ

-- `SpaceBudget.for_export`, of numbers that are not negative.
unfoldable pub for_export : ℕ → ℕ → ℕ → ℕ → SpaceBudget
for_export min_margin distinct archived metadata =
    let margin = max min_margin ((distinct + 9) / 10) in
    record {
      distinct_original_bytes = distinct;
      archive_pin_bytes = archived;
      metadata_overhead = metadata;
      margin_bytes = margin;
      required_bytes = distinct + archived + metadata + margin;
    }

pub record ObservedTargets : Type 0 where
  pub snapshot : TargetSnapshot
  pub sizes : Sizes
  pub distinct_original_bytes : ℕ
  pub archive_pin_bytes : ℕ

-- `observe_snapshot`.
unfoldable pub observe_snapshot :
    ExportSettings → (TargetIdentity → Option ℕ) → TargetSnapshot → ObservedTargets
unfolding observe_sizes pin_bytes
observe_snapshot settings observe s =
    let sizes = observe_sizes settings.fetch_max_bytes observe s.identities [] in
    record {
      snapshot = s;
      sizes = sizes;
      distinct_original_bytes = sum (map (λ e. e.1) sizes);
      archive_pin_bytes = pin_bytes sizes s.identities;
    }

-- The set of the source keys.
unfoldable pub distinct_keys : List TargetIdentity → List SourceKey
distinct_keys [] = []
distinct_keys (i ∷ is) =
    let rest = distinct_keys is in
    if any (λ k. same_key k i.source_key) rest then rest else i.source_key ∷ rest

-- `sum(observed_sizes[source_key] for source_key in distinct)`.
unfoldable pub key_bytes : Sizes → List SourceKey → ℕ
unfolding size_of
key_bytes sizes [] = 0
key_bytes sizes (k ∷ ks) = observed_size 0 (size_of k sizes) + key_bytes sizes ks

-- `CapturedTargets`: the counters of the job are those of the snapshot and its bytes.
pub record CapturedTargets : Type 0 where
  pub snapshot : TargetSnapshot
  pub bytes_total : ℕ
  pub space_budget : SpaceBudget

-- `capture_locked`, with the sizes and the snapshot that were observed, which its only caller passes.
unfoldable pub capture_locked :
    (String → ℕ)
    → ExportSettings
    → ℕ
    → TargetRequest
    → ObservedTargets
    → TargetDb
    → Result ExportFault CapturedTargets
unfolding refuse_if snapshot_targets size_of distinct_keys key_bytes pin_bytes for_export
capture_locked encoded_size settings user request observed db =
    snapshot_targets encoded_size user request db >>= λ s.
    refuse_if
      (not (same_snapshot s observed.snapshot)
        || any (λ i. is_none (size_of i.source_key observed.sizes)) s.identities)
      target_identity_changed
      (let archived = pin_bytes observed.sizes s.identities in
        done (record {
          snapshot = s;
          bytes_total = archived;
          space_budget =
              for_export settings.space_min_margin_bytes
                (key_bytes observed.sizes (distinct_keys s.identities)) archived
                s.metadata_overhead;
        }))
