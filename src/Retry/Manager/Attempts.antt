-- ===== src/Retry/Manager/Attempts.antt =====
-- The loop ends, and what it ends with.
use semantask.Prelude.{
  ℕ, zero, suc, ◌+◌, ◌-◌, ◌≤◌, ◌<◌, ltb, Bool, true, false, ◌&&◌, List, [], ◌∷◌, length, some, ◌≡◌,
  ◌⊎◌, inl, inr, refl, arith, Bool-cases,
}
use semantask.Prelude.Result.{Result, ok, err}
use semantask.Retry.Manager.{RetryAttemptDetails, details, execute_loop, execute}

module _ {E A : Type 0} (schedule : List ℕ) (op : ℕ → ℕ → Result E A) (should : E → Bool)
    (limit : ℕ) where
  -- The result is that of the last attempt, one more than the retries; the retries stay within
  -- the budget, and an error is the result only where the budget is used up or where the error is
  -- one that is not retried.
  pub record Attempted (attempt retry_count : ℕ) (r : Result E A)
      (log : List (RetryAttemptDetails E)) : Type 0 where
    pub last : op (suc (attempt + length log)) (retry_count + length log) ≡ r
    pub bounded : length log ≤ limit - retry_count
    pub gives_up : (e : E) → r ≡ err e → (limit ≤ retry_count + length log) ⊎ (should e ≡ false)

  Ends : (fuel attempt retry_count : ℕ) → Type 0
  Ends fuel attempt retry_count =
      (r : Result E A) × (log : List (RetryAttemptDetails E)) × (execute_loop schedule op should
          limit fuel attempt retry_count
        ≡ some (r, log))
      × Attempted attempt retry_count r log

  stops :
      (e : E) (retry_count : ℕ)
      → (ltb retry_count limit && should e) ≡ false
      → (limit ≤ retry_count) ⊎ (should e ≡ false)
  stops e n h = ground arith

  goes :
      (e : E) (retry_count : ℕ) → (ltb retry_count limit && should e) ≡ true → retry_count < limit
  goes e n h = ground arith

  same-op : (a n b m : ℕ) (r : Result E A) → b ≡ a → m ≡ n → op a n ≡ r → op b m ≡ r
  same-op a n b m r p q s = cc

  Result-cases : (x : Result E A) → ((a : A) × (x ≡ ok a)) ⊎ ((e : E) × (x ≡ err e))
  Result-cases (ok a) = inl (a, refl)
  Result-cases (err e) = inr (e, refl)

  execute_loop-Ends : (fuel attempt n : ℕ) → limit - n < fuel → Ends fuel attempt n
  unfolding Ends execute_loop
  execute_loop-Ends zero attempt n h = absurd (omega arith)
  execute_loop-Ends (suc fuel) attempt n h = elim (Result-cases (op (suc attempt) n)) [
    | inl (a, s) ↦ (
      ok a,
      [],
      rw (s, execute_loop),
      record {
        last = same-op (suc attempt) n _ _ _ (omega arith) (omega arith) s;
        bounded = omega arith;
        gives_up = λ e x. absurd (ground arith);
      },
    )
    | inr (e, s) ↦ elim (Bool-cases (ltb n limit && should e)) [
      | inr stop ↦ (
        err e,
        [],
        rw (s, execute_loop) (rw stop refl),
        record {
          last = same-op (suc attempt) n _ _ _ (omega arith) (omega arith) s;
          bounded = omega arith;
          gives_up = λ x same. ground (arith, stops e n stop);
        },
      )
      | inl go ↦
          let (r, log, eq, ran) =
            execute_loop-Ends fuel (suc attempt) (suc n) (omega (arith, goes e n go)) in
          (
            r,
            details schedule limit (suc attempt) (suc n) e ∷ log,
            rw (s, execute_loop) (rw go (rw eq refl)),
            record {
              last =
                  same-op (suc (suc attempt + length log)) (suc n + length log) _ _ _ (omega arith)
                    (omega arith) ran.last;
              bounded = omega (arith, goes e n go, ran.bounded);
              gives_up = λ x same. ground (arith, ran.gives_up x same);
            },
          )
    ]
  ]

-- Whatever the operation does, the manager comes to an end: with the result of its last attempt,
-- after no more retries than the budget had left, and with an error only where the budget is used
-- up or where the error is one that is not retried.
pub execute_lem :
    {E A : Type 0} (schedule : List ℕ) (op : ℕ → ℕ → Result E A) (should : E → Bool) (limit n : ℕ)
    → (r : Result E A) × (log : List (RetryAttemptDetails E)) × (execute schedule op should limit n
        ≡ some (r, log))
      × Attempted schedule op should limit 0 n r log
unfolding execute Ends
execute_lem schedule op should limit n =
    execute_loop-Ends schedule op should limit (suc (limit - n)) 0 n (omega arith)
