-- ===== src/Exports/Retry.antt =====
-- The retry of a database operation, `_retry_database` of exports/services/worker.py with the
-- `DatabaseFenceDeadline` of core/services/database_fence.py. What the operation, the retry checkpoint and
-- the monotonic clock do at each round are arguments; times are milliseconds.
use svrx_pinry.Prelude.{
  ap, ◌∙◌, ◌==◌, inl, inr, Bool-cases, ℕ, zero, suc, ◌+◌, ◌*◌, ◌≤◌, ◌<◌, ◌≡◌, ◌≢◌, refl, Bool, true,
  false, Option, none, some, leb, if◌then◌else◌, arith,
}

-- What one call of the operation comes to: its value, a busy database (or its own deadline, which is of
-- that class too), or an error that is not one of a busy database.
pub data Try {ℓ κ} (E : Type ℓ) (A : Type κ) : Type (ℓ ⊔ κ) where
  gives : A → Try E A
  busy : Try E A
  errs : E → Try E A

-- What the loop comes to; `unfinished` is that of the fuel.
pub data Retried {ℓ κ} (E : Type ℓ) (A : Type κ) : Type (ℓ ⊔ κ) where
  returned : A → Retried E A
  failing : E → Retried E A
  timed_out : Retried E A
  unfinished : Retried E A

module _ {ℓ κ} {E : Type ℓ} {A : Type κ} where
  -- The checkpoint of a round: the retry checkpoint may raise, and the deadline may be over.
  unfoldable pub after_checkpoint : Option E → Bool → Retried E A → Retried E A
  after_checkpoint (some e) over rest = failing e
  after_checkpoint none over rest = if over then timed_out else rest

  unfoldable pub after_try : Try E A → Retried E A → Retried E A
  after_try (gives a) rest = returned a
  after_try (errs e) rest = failing e
  after_try busy rest = rest

  -- The loop of `_retry_database` from a round on: the operation, the retry checkpoint, the clock at the
  -- deadline's check and the deadline. A round ends in a sleep of 10 milliseconds.
  unfoldable pub retry_database : ℕ → ℕ → (ℕ → Try E A) → (ℕ → Option E) → (ℕ → ℕ) → ℕ → Retried E A
  unfolding after_checkpoint after_try
  retry_database zero n operation checkpoint clock deadline = unfinished
  retry_database (suc fuel) n operation checkpoint clock deadline =
      let rest = retry_database fuel (suc n) operation checkpoint clock deadline in
      after_try (operation n) (after_checkpoint (checkpoint n) (leb deadline (clock n)) rest)

  after_try-ends :
      (t : Try E A) (rest : Retried E A) → rest ≢ unfinished → after_try t rest ≢ unfinished
  unfolding after_try
  after_try-ends (gives a) rest h e = cc
  after_try-ends (errs x) rest h e = cc
  after_try-ends busy rest h e = h e

  after_checkpoint-ends :
      (c : Option E) (over : Bool) (rest : Retried E A)
      → (over ≡ false → rest ≢ unfinished)
      → after_checkpoint c over rest ≢ unfinished
  unfolding after_checkpoint
  after_checkpoint-ends (some x) over rest h e = cc
  after_checkpoint-ends none true rest h e = cc
  after_checkpoint-ends none false rest h e = h refl e

  module _ (operation : ℕ → Try E A) (checkpoint : ℕ → Option E) (clock : ℕ → ℕ) (start budget : ℕ)
      (first : start ≤ clock 0) (sleeps : (n : ℕ) → clock n + 10 ≤ clock (suc n)) where
    clock-rises : (n : ℕ) → start + n * 10 ≤ clock n
    clock-rises zero = omega (arith, first)
    clock-rises (suc n) = omega (arith, clock-rises n, sleeps n)

    rounds-end :
        (fuel n : ℕ)
        → n * 10 < budget + 10
        → budget + 10 ≤ (n + fuel) * 10
        → retry_database fuel n operation checkpoint clock (start + budget) ≢ unfinished
    unfolding retry_database
    rounds-end zero n a b = ground arith
    rounds-end (suc fuel) n a b =
        let rest = retry_database fuel (suc n) operation checkpoint clock (start + budget) in
        after_try-ends (operation n) _ (
          after_checkpoint-ends (checkpoint n) (leb (start + budget) (clock n)) rest λ early.
            let rises = clock-rises n in
            let inside : clock n < start + budget = ground arith in
            rounds-end fuel (suc n) (omega arith) (omega arith))

-- The loop ends: if the clock starts no earlier than the deadline's start and each round's sleep advances
-- it by 10 milliseconds at least, one round more than the budget has tens of milliseconds is enough for
-- the loop to return, to fail or to time out, whatever the operation and the checkpoint do.
pub retry_database-ends {ℓ κ} :
    {E : Type ℓ} {A : Type κ} (operation : ℕ → Try E A) (checkpoint : ℕ → Option E) (clock : ℕ → ℕ)
    (start budget fuel : ℕ)
    → start ≤ clock 0
    → ((n : ℕ) → clock n + 10 ≤ clock (suc n))
    → budget + 10 ≤ fuel * 10
    → retry_database fuel 0 operation checkpoint clock (start + budget) ≢ unfinished
retry_database-ends operation checkpoint clock start budget fuel first sleeps enough =
    rounds-end operation checkpoint clock start budget first sleeps fuel 0 (omega arith)
      (omega arith)

-- A round that does not end the loop: the database is busy, the checkpoint does not raise, and the
-- deadline is not over.
pub record IsBusyRound {ℓ κ} {E : Type ℓ} {A : Type κ} (operation : ℕ → Try E A)
    (checkpoint : ℕ → Option E) (clock : ℕ → ℕ) (deadline n : ℕ) : Type (ℓ ⊔ κ) where
  pub occupied : operation n ≡ busy
  pub quiet : checkpoint n ≡ none
  pub early : leb deadline (clock n) ≡ false

module _ {ℓ κ} {E : Type ℓ} {A : Type κ} (operation : ℕ → Try E A) (checkpoint : ℕ → Option E)
    (clock : ℕ → ℕ) (deadline n : ℕ) (a : A) (given : operation n ≡ gives a) where
  rounds-returned :
      (fuel k : ℕ)
      → k ≤ n
      → n < k + fuel
      → ((i : ℕ) → k ≤ i → i < n → IsBusyRound operation checkpoint clock deadline i)
      → retry_database fuel k operation checkpoint clock deadline ≡ returned a
  unfolding retry_database after_checkpoint after_try
  rounds-returned zero k le lt h = ground (arith, le, lt)
  rounds-returned (suc fuel) k le lt h = elim (Bool-cases (k == n)) [
    | inl e ↦ let same : k ≡ n = ground (arith, e) in rw (ap operation same ∙ given) refl
    | inr e ↦
        let below : k < n = ground (arith, e, le) in
        let round = h k (omega arith) below in
        rw (round.occupied, round.quiet, round.early)
          (rounds-returned fuel (suc k) (omega (arith, below)) (omega (arith, lt))
            λ i le' lt'. h i (omega (arith, le')) lt')
  ]

-- The loop returns the value of the first round that gives one, if every round before it finds the
-- database busy with a checkpoint that does not raise and before the deadline, and the fuel is more
-- than the number of those rounds.
pub retry_database-returned {ℓ κ} :
    {E : Type ℓ} {A : Type κ} (operation : ℕ → Try E A) (checkpoint : ℕ → Option E) (clock : ℕ → ℕ)
    (deadline n fuel : ℕ) (a : A)
    → n < fuel
    → operation n ≡ gives a
    → ((i : ℕ) → i < n → IsBusyRound operation checkpoint clock deadline i)
    → retry_database fuel 0 operation checkpoint clock deadline ≡ returned a
retry_database-returned operation checkpoint clock deadline n fuel a enough given h =
    rounds-returned operation checkpoint clock deadline n a given fuel 0 (omega arith) (omega arith)
      λ i le lt. h i lt
