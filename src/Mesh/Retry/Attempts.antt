-- ===== src/Mesh/Retry/Attempts.antt =====
-- How often a call is made, and what its outcome says.
use nimbuscore.Prelude.{
  ℕ, zero, suc, ◌+◌, ◌-◌, ◌≤◌, ◌<◌, ◌≡◌, refl, sym, subst, ◌⊎◌, inl, inr, Bool, true, false, [],
  ◌∷◌, Option, none, some, pos_part, ℤ, leb, arith, Bool-cases,
}
use nimbuscore.Mesh.Breaker.{Breaker, allow}
use nimbuscore.Mesh.Retry.{
  RetryPolicy, attempts_of, Outcome, succeeded, gave_up_waiting, breaker_open, failed, Run, is_zero,
  retryable, capped, turn, loop, recorded, intercept,
}

module _ {E : Type 0} (code_of : E → Option ℕ) (grow : ℤ → ℤ) (p : RetryPolicy)
    (invoke : ℕ → Option E) (cancelled : ℕ → Bool) where
  -- The attempt failed with an error of the policy's codes, and the wait after it ended.
  abbrev pub IsRetried : ℕ → Type 0
  IsRetried n =
      (e : E) × (invoke n ≡ some e) × (retryable code_of grow p e ≡ true) × (cancelled n ≡ false)

  -- Why the attempt `last` was the last one, where `limit` is the last that the policy allows.
  abbrev pub EndsAt : ℕ → ℕ → Outcome E → Type 0
  EndsAt limit last succeeded = invoke last ≡ none
  EndsAt limit last (failed e) =
      (invoke last ≡ some e) × ((last ≡ limit) ⊎ (retryable code_of grow p e ≡ false))
  EndsAt limit last gave_up_waiting = cancelled last ≡ true
  EndsAt limit last breaker_open = ⊥

  abbrev pub IsExplained : ℕ → ℕ → Run E → Type 0
  IsExplained attempt limit r =
      (last : ℕ) × (r.calls ≡ suc last)
      × (attempt ≤ last)
      × (last ≤ limit)
      × ((n : ℕ) → attempt ≤ n → n < last → IsRetried n)
      × EndsAt limit last r.outcome

  stops :
      (left attempt : ℕ) (backoff : ℤ) (o : Option E) (rest : Run E)
      → invoke attempt ≡ o
      → ((e : E)
          → o ≡ some e
          → is_zero left ≡ false
          → retryable code_of grow p e ≡ true
          → cancelled attempt ≡ false
          → IsExplained (suc attempt) (attempt + left) rest)
      → IsExplained attempt
          (attempt + left)
          (turn code_of grow p invoke cancelled left attempt backoff o rest)
  stops left attempt backoff none rest q ih =
      (attempt, refl, omega arith, omega arith, λ n a b. absurd (omega arith), q)
  stops left attempt backoff (some e) rest q ih = elim (Bool-cases (is_zero left)) [
    | inl z ↦ rw z (
      attempt,
      refl,
      omega arith,
      omega arith,
      λ n a b. absurd (omega arith),
      (q, inl (zero_end left z)),
    )
    | inr z ↦ elim (Bool-cases (retryable code_of grow p e)) [
      | inr f ↦
          rw (z, f)
            (attempt, refl, omega arith, omega arith, λ n a b. absurd (omega arith), (q, inr f))
      | inl f ↦ elim (Bool-cases (cancelled attempt)) [
        | inl c ↦
            rw (z, f, c) (attempt, refl, omega arith, omega arith, λ n a b. absurd (omega arith), c)
        | inr c ↦ rw (z, f, c) (later z f c (ih e refl z f c))
      ]
    ]
  ]
    where
      zero_end : (n : ℕ) → is_zero n ≡ true → attempt ≡ attempt + n
      zero_end zero h = omega arith
      zero_end (suc n) h = absurd (ground arith)

      retried :
          is_zero left ≡ false
          → retryable code_of grow p e ≡ true
          → cancelled attempt ≡ false
          → (last : ℕ) → ((n : ℕ) → suc attempt ≤ n → n < last → IsRetried n)
          → (n : ℕ) → attempt ≤ n
          → n < last
          → IsRetried n
      retried z f c last k n a b = elim (Bool-cases (leb (suc attempt) n)) [
        | inl l ↦ k n (ground arith) b
        | inr l ↦ subst IsRetried {x = attempt} {y = n} (ground arith) (e, q, f, c)
      ]

      later :
          is_zero left ≡ false
          → retryable code_of grow p e ≡ true
          → cancelled attempt ≡ false
          → IsExplained (suc attempt) (attempt + left) rest
          → IsExplained attempt (attempt + left) (record rest { waits = backoff ∷ rest.waits })
      later z f c (last, a, b, d, k, g) = (last, a, omega arith, d, retried z f c last k, g)

  loop-IsExplained :
      (left attempt : ℕ) (backoff : ℤ)
      → IsExplained attempt
          (attempt + left)
          (loop code_of grow p invoke cancelled left attempt backoff)
  unfolding loop
  loop-IsExplained zero attempt backoff =
      stops 0 attempt backoff (invoke attempt) _ refl (λ e a b. absurd (ground arith))
  loop-IsExplained (suc left) attempt backoff =
      stops (suc left) attempt backoff (invoke attempt) _ refl (λ e a b c d.
        subst (λ n. IsExplained (suc attempt) n (rest_of backoff)) (omega arith)
          (loop-IsExplained left (suc attempt) (capped code_of grow p (grow backoff))))
    where
      rest_of : ℤ → Run E
      rest_of b =
          loop code_of grow p invoke cancelled left (suc attempt) (capped code_of grow p (grow b))

  abbrev refused : Run E
  refused = record { outcome = breaker_open; calls = 0; waits = [] }

  abbrev through : Run E
  through = loop code_of grow p invoke cancelled (pos_part (attempts_of p) - 1) 0 p.initial_backoff

  through-IsExplained : IsExplained 0 (pos_part (attempts_of p) - 1) through
  through-IsExplained =
      subst (λ n. IsExplained 0 n through) (omega arith)
        (loop-IsExplained (pos_part (attempts_of p) - 1) 0 p.initial_backoff)

  intercept-refused :
      (now later : ℤ) (cb : Breaker)
      → (allow now cb).0 ≡ false
      → intercept code_of grow p invoke cancelled now later cb ≡ (refused, (allow now cb).1)
  unfolding intercept
  intercept-refused now later cb h = rw h

  intercept-through :
      (now later : ℤ) (cb : Breaker)
      → (allow now cb).0 ≡ true
      → intercept code_of grow p invoke cancelled now later cb
        ≡ (through, recorded code_of grow p invoke cancelled later through.outcome (allow now cb).1)
  unfolding intercept
  intercept-through now later cb h = rw h

  -- A call that the breaker does not let through is refused, and nothing is sent. Otherwise some
  -- attempt is the last, no later than the policy's number of attempts, at least one: each attempt
  -- before it failed with a retryable error, and the outcome is that of the last one, which
  -- succeeded, or failed with an error that is not retryable or as the last attempt that the policy
  -- allows, or was followed by the end of the context; and the breaker has recorded that outcome.
  pub intercept-IsExplained :
      (now later : ℤ) (cb : Breaker)
      → let r = intercept code_of grow p invoke cancelled now later cb in
        (((allow now cb).0 ≡ false) × (r.0.outcome ≡ breaker_open) × (r.0.calls ≡ 0))
        ⊎ (((allow now cb).0 ≡ true)
            × IsExplained 0 (pos_part (attempts_of p) - 1) r.0
            × (r.1 ≡ recorded code_of grow p invoke cancelled later r.0.outcome (allow now cb).1))
  intercept-IsExplained now later cb = elim (Bool-cases (allow now cb).0) [
    | inl e ↦
        subst Holds (sym (intercept-through now later cb e)) (inr (e, through-IsExplained, refl))
    | inr e ↦ subst Holds (sym (intercept-refused now later cb e)) (inl (e, refl, refl))
  ]
    where
      Holds : Run E × Breaker → Type 0
      Holds r =
          (((allow now cb).0 ≡ false) × (r.0.outcome ≡ breaker_open) × (r.0.calls ≡ 0))
          ⊎ (((allow now cb).0 ≡ true)
              × IsExplained 0 (pos_part (attempts_of p) - 1) r.0
              × (r.1 ≡ recorded code_of grow p invoke cancelled later r.0.outcome (allow now cb).1))
