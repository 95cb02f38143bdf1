-- ===== src/Mesh/Tests.antt =====
-- A breaker of two failures, and a call that is retried.
use nimbuscore.Prelude.{
  ℕ, zero, suc, ◌-◌, ◌≡◌, ◌⊎◌, pos, true, false, List, [], ◌∷◌, Option, some, none, pos_part, arith,
}
use nimbuscore.Mesh.Breaker.{Breaker, closed, allow, Event, failed, allowed, succeeded, steps}
use nimbuscore.Mesh.Breaker.Opening.{IsSteady, steps-IsSteady}
use nimbuscore.Mesh.Retry.{RetryPolicy, attempts_of, intercept, Run, recorded, breaker_open}
use nimbuscore.Mesh.Retry.Attempts.{IsExplained, intercept-IsExplained}

abbrev fresh : Breaker
fresh = record {
  state = closed;
  failures = pos 0;
  threshold = pos 2;
  reset_timeout = pos 10;
  opened_at = pos 0;
}

fresh-IsSteady : IsSteady fresh
fresh-IsSteady = record {
  bounded = λ h. (ground arith, ground arith);
  positive = ground arith;
  fits = (ground arith, ground arith);
}

abbrev events : List Event
events = allowed (pos 1) ∷ failed (pos 2) ∷ failed (pos 3) ∷ allowed (pos 20) ∷ succeeded ∷ []

steps-IsSteady_example : IsSteady (steps events fresh)
steps-IsSteady_example = steps-IsSteady events fresh fresh-IsSteady

abbrev policy : RetryPolicy
policy = record {
  max_attempts = pos 3;
  initial_backoff = pos 100;
  max_backoff = pos 150;
  retryable_codes = 14 ∷ [];
}

-- The first attempt is refused as unavailable, the second succeeds.
abbrev flaky : ℕ → Option ℕ
flaky zero = some 14
flaky (suc n) = none

abbrev run : Run ℕ × Breaker
run = intercept some (λ b. b) policy flaky (λ n. false) (pos 1) (pos 2) fresh

intercept-IsExplained_example :
    (((allow (pos 1) fresh).0 ≡ false) × (run.0.outcome ≡ breaker_open) × (run.0.calls ≡ 0))
    ⊎ (((allow (pos 1) fresh).0 ≡ true)
        × IsExplained some
            (λ b. b)
            policy
            flaky
            (λ n. false)
            0
            (pos_part (attempts_of policy) - 1)
            run.0
        × (run.1
            ≡ recorded some
                (λ b. b)
                policy
                flaky
                (λ n. false)
                (pos 2)
                run.0.outcome
                (allow (pos 1) fresh).1))
intercept-IsExplained_example =
    intercept-IsExplained some (λ b. b) policy flaky (λ n. false) (pos 1) (pos 2) fresh
