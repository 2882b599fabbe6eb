-- ===== src/Prelude/Results.antt =====
-- What a call of the services ends in: a value, or a Python exception of one of these classes.
use Prim.Native.String.{String}
use mathlib.Core.Bool.{Bool, true, false}
use mathlib.Core.Logic.{◌⊎◌, inl, inr}
use mathlib.Core.Path.{◌≡◌, refl, subst}

pub data Exception : Type 0 where
  value_error : Exception
  runtime_error : Exception
  integrity_error : Exception
  operational_error : String → Exception
  pin_import_error : String → Bool → Exception
  safe_fetch_error : String → Bool → Exception
  media_storage_error : String → Bool → Exception
  other_exception : Exception

pub data Outcome {ℓ} (A : Type ℓ) : Type ℓ where
  ok : A → Outcome A
  raised : Exception → Outcome A

pub ok_inj {ℓ} : {A : Type ℓ} {a b : A} → ok a ≡ ok b → a ≡ b
ok_inj h = cc

-- A call that ends in a value, or in an error of the service's own class with its code.
pub data Result {ℓ κ} (E : Type ℓ) (A : Type κ) : Type (ℓ ⊔ κ) where
  done : A → Result E A
  refused : E → Result E A

infixl 5 ◌>>=◌
abbrev pub ◌>>=◌ {ℓ κ ι} :
    {E : Type ℓ} {A : Type κ} {B : Type ι} → Result E A → (A → Result E B) → Result E B
done a >>= f = f a
refused e >>= f = refused e

-- `if test: raise error`, before the rest.
unfoldable pub refuse_if {ℓ κ} : {E : Type ℓ} {A : Type κ} → Bool → E → Result E A → Result E A
refuse_if true e r = refused e
refuse_if false e r = r

-- A test that comes out true refuses, and one of a call that is refused alike refuses either way.
pub refuse_if-true {ℓ κ} :
    {E : Type ℓ} {A : Type κ} (b : Bool) (e : E) (r : Result E A)
    → b ≡ true
    → refuse_if b e r ≡ refused e
unfolding refuse_if
refuse_if-true true e r h = refl
refuse_if-true false e r h = cc

pub refuse_if-false {ℓ κ} :
    {E : Type ℓ} {A : Type κ} (b : Bool) (e : E) (r : Result E A) → b ≡ false → refuse_if b e r ≡ r
unfolding refuse_if
refuse_if-false true e r h = cc
refuse_if-false false e r h = refl

pub refuse_if-refused {ℓ κ} :
    {E : Type ℓ} {A : Type κ} (b : Bool) (e : E) (r : Result E A)
    → r ≡ refused e
    → refuse_if b e r ≡ refused e
unfolding refuse_if
refuse_if-refused true e r h = refl
refuse_if-refused false e r h = h

pub Result-cases {ℓ κ} :
    {E : Type ℓ} {A : Type κ} (r : Result E A)
    → ((a : A) × (r ≡ done a)) ⊎ ((e : E) × (r ≡ refused e))
Result-cases (done a) = inl (a, refl)
Result-cases (refused e) = inr (e, refl)

pub done_inj {ℓ κ} :
    {E : Type ℓ} {A : Type κ} {a b : A} → ◌≡◌ {A = Result E A} (done a) (done b) → a ≡ b
done_inj h = cc

-- What holds of the value, where there is one.
pub data Ensures {ℓ κ ι} {E : Type ℓ} {A : Type κ} (P : A → Type ι)
    : Result E A → Type (ℓ ⊔ κ ⊔ ι) where
  returns : {a : A} → P a → Ensures P (done a)
  stops : {e : E} → Ensures P (refused e)

module _ {ℓ κ ι} {E : Type ℓ} {A : Type κ} {P : A → Type ι} where
  pub Ensures-refuse_if :
      (test : Bool) (e : E) (r : Result E A)
      → (test ≡ false → Ensures P r)
      → Ensures P (refuse_if test e r)
  unfolding refuse_if
  Ensures-refuse_if true e r h = stops
  Ensures-refuse_if false e r h = h refl

  pub Ensures-bind {κ'} :
      {B : Type κ'} (m : Result E B) (f : B → Result E A)
      → ((b : B) → m ≡ done b → Ensures P (f b))
      → Ensures P (m >>= f)
  Ensures-bind (done b) f h = h b refl
  Ensures-bind (refused e) f h = stops

  -- A value that the call has returned.
  pub Ensures-done : {r : Result E A} {a : A} → Ensures P r → r ≡ done a → P a
  Ensures-done (returns h) e = subst P (done_inj e) h
  Ensures-done stops e = cc

-- The rest of a call, after what has ensured something of its value.
pub Ensures-then {ℓ κ κ' ι ι'} :
    {E : Type ℓ} {A : Type κ} {B : Type κ'} (P : A → Type ι) (Q : B → Type ι') (m : Result E A)
    (f : A → Result E B)
    → Ensures P m
    → ((a : A) → P a → Ensures Q (f a))
    → Ensures Q (m >>= f)
Ensures-then P Q (done a) f (returns h) k = k a h
Ensures-then P Q (refused e) f stops k = stops

pub Ensures-weaken {ℓ κ ι ι'} :
    {E : Type ℓ} {A : Type κ} (P : A → Type ι) (Q : A → Type ι') (r : Result E A)
    → ((a : A) → P a → Q a)
    → Ensures P r
    → Ensures Q r
Ensures-weaken P Q (done a) f (returns h) = returns (f a h)
Ensures-weaken P Q (refused e) f stops = stops
