-- ===== src/Exports/Revoked.antt =====
-- The items that are revoked, without the chunks (exports/services/permissions.py).
use svrx_pinry.Prelude.{
  ℕ, ◌≡◌, refl, sym, ap, ◌∙◌, subst, inl, inr, Bool, true, not, ◌&&◌, Option, List, [], ◌∷◌, ◌++◌,
  map, ◌==◌, ==_iff, ==_refl, if◌then◌else◌, Bool-cases, All, All-map, contains, find, select,
  arith,
}
use svrx_pinry.Exports.Tables.{Job, Item}
use svrx_pinry.Exports.Chunks.{query_chunk_size, chunks_of, concat}
use svrx_pinry.Exports.Permissions.{LivePin, live_pin, is_revoked, revoked_in, revoked_item_ids}
use svrx_pinry.Exports.Chunked.{concat-chunks_of}

-- The pin that the item names, read alone.
abbrev pub named_pin : List LivePin → Item → Option LivePin
named_pin pins i = find (λ p. p.pk == i.pin_id) pins

live_pin-named :
    (pins : List LivePin) (chunk : List Item) (pin : ℕ)
    → contains pin (map (λ i. i.pin_id) chunk) ≡ true
    → live_pin pins chunk pin ≡ find (λ p. p.pk == pin) pins
unfolding live_pin
live_pin-named [] chunk pin h = refl
live_pin-named (p ∷ pins) chunk pin h = elim (Bool-cases (p.pk == pin)) [
  | inl e ↦
      let same = (==_iff p.pk pin).0 e in
      let here : contains p.pk (map (λ i. i.pin_id) chunk) ≡ true =
        subst (λ n. contains n (map (λ i. i.pin_id) chunk) ≡ true) (sym same) h in
      rw (e, here) refl
  | inr e ↦ rw e (live_pin-named pins chunk pin h)
]

among : (is : List Item) → All (λ i. contains i.pin_id (map (λ k. k.pin_id) is) ≡ true) is
among [] = tt
among (i ∷ is) = (ground (arith, ==_refl i.pin_id), All-map is (λ k e. ground arith) (among is))

select-same :
    (f g : Item → Bool) (is : List Item) → All (λ i. f i ≡ g i) is → select f is ≡ select g is
select-same f g [] h = refl
select-same f g (i ∷ is) (e, h) = rw (e, select-same f g is h) refl

select-append :
    (f : Item → Bool) (is ks : List Item) → select f (is ++ ks) ≡ select f is ++ select f ks
select-append f [] ks = refl
select-append f (i ∷ is) ks = elim (Bool-cases (f i)) [
  | inl e ↦ rw e (ap (λ (l : List Item). i ∷ l) (select-append f is ks))
  | inr e ↦ rw e (select-append f is ks)
]

pks-append :
    (is ks : List Item) → map (λ i. i.pk) (is ++ ks) ≡ map (λ i. i.pk) is ++ map (λ i. i.pk) ks
pks-append [] ks = refl
pks-append (i ∷ is) ks = ap (λ (l : List ℕ). i.pk ∷ l) (pks-append is ks)

module _ (owner : Option ℕ) (pins : List LivePin) where
  abbrev revoked : Item → Bool
  revoked i = is_revoked owner i (named_pin pins i)

  revoked_in-select :
      (chunks : List (List Item))
      → revoked_in owner pins chunks ≡ map (λ i. i.pk) (select revoked (concat chunks))
  unfolding revoked_in
  revoked_in-select [] = refl
  revoked_in-select (chunk ∷ rest) =
      let same =
        select-same (λ i. is_revoked owner i (live_pin pins chunk i.pin_id)) revoked chunk
          (All-map chunk
            (λ i h.
              ap (λ (p : Option LivePin). is_revoked owner i p)
                (live_pin-named pins chunk i.pin_id h))
            (among chunk)) in
      ap (λ (l : List Item). map (λ i. i.pk) l ++ revoked_in owner pins rest) same
      ∙ ap (λ (l : List ℕ). map (λ i. i.pk) (select revoked chunk) ++ l) (revoked_in-select rest)
      ∙ sym (pks-append (select revoked chunk) (select revoked (concat rest)))
      ∙ ap (λ (l : List Item). map (λ i. i.pk) l) (sym (select-append revoked chunk (concat rest)))

-- The revoked items of a job are those of its items with the inclusion state, in their order, for which
-- the pin that the item names is, if the item's owner is not the job's, no longer public, of that owner
-- and of that time of publication, and if the owner is the job's, another user's with the same time. The
-- chunks in which the pins are read make no difference.
pub revoked_item_ids-select :
    (j : Job) (included : Bool) (items : List Item) (pins : List LivePin)
    → revoked_item_ids j included items pins
      ≡ map
          (λ i. i.pk)
          (select
            (λ i. is_revoked j.owner_id i (named_pin pins i))
            (select
              (λ i. i.job == j.pk && (if included then i.included else not i.included))
              items))
unfolding revoked_item_ids
revoked_item_ids-select j included items pins =
    let own =
      select (λ i. i.job == j.pk && (if included then i.included else not i.included)) items in
    revoked_in-select j.owner_id pins (chunks_of own query_chunk_size)
    ∙ ap (λ (l : List Item). map (λ i. i.pk) (select (revoked j.owner_id pins) l))
        (concat-chunks_of own 399)
