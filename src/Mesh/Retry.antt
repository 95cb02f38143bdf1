-- ===== src/Mesh/Retry.antt =====
-- internal/mesh/retry.go and interceptor.go: one call through the interceptor. What the wire does
-- is a parameter: `invoke n` is the error of the n-th attempt, `cancelled n` says that the context
-- ended while the interceptor waited after it. `code_of` is the library's status.FromError, and
-- `grow` the product of a duration with the multiplier, in floating point.
pub mod Attempts
use nimbuscore.Prelude.{
  ℕ, zero, suc, ◌-◌, Bool, true, false, not, ◌&&◌, ◌||◌, List, [], ◌∷◌, Option, none, some, any,
  eqb, pos_part, ℤ, pos, ltb_ℤ, leb_ℤ, if◌then◌else◌,
}
use nimbuscore.Mesh.Breaker.{Breaker, allow, record_success, record_failure}

pub record RetryPolicy : Type 0 where
  pub max_attempts : ℤ
  pub initial_backoff : ℤ
  pub max_backoff : ℤ
  pub retryable_codes : List ℕ

-- RetryPolicy.attempts
unfoldable pub attempts_of : RetryPolicy → ℤ
attempts_of p = if leb_ℤ p.max_attempts (pos 0) then pos 1 else p.max_attempts

pub data Outcome (E : Type 0) : Type 0 where
  succeeded gave_up_waiting breaker_open : Outcome E
  failed : E → Outcome E

-- The outcome, the number of calls made, and the waits between them.
pub record Run (E : Type 0) : Type 0 where
  pub outcome : Outcome E
  pub calls : ℕ
  pub waits : List ℤ

abbrev pub is_zero : ℕ → Bool
is_zero zero = true
is_zero (suc n) = false

module _ {E : Type 0} (code_of : E → Option ℕ) (grow : ℤ → ℤ) (p : RetryPolicy) where
  abbrev pub has_code : Option ℕ → Bool
  has_code none = false
  has_code (some c) = any (λ d. eqb d c) p.retryable_codes

  -- RetryPolicy.retryable
  abbrev pub retryable : E → Bool
  retryable e = has_code (code_of e)

  abbrev pub capped : ℤ → ℤ
  capped b = if ltb_ℤ (pos 0) p.max_backoff && ltb_ℤ p.max_backoff b then p.max_backoff else b

  module _ (invoke : ℕ → Option E) (cancelled : ℕ → Bool) where
    -- One turn of the loop, before `rest`, the remaining ones; `left` of them are left.
    abbrev pub turn : ℕ → ℕ → ℤ → Option E → Run E → Run E
    turn left attempt backoff none rest = record {
      outcome = succeeded;
      calls = suc attempt;
      waits = [];
    }
    turn left attempt backoff (some e) rest =
        if is_zero left || not (retryable e)
        then record { outcome = failed e; calls = suc attempt; waits = [] }
        else (if cancelled attempt
            then record { outcome = gave_up_waiting; calls = suc attempt; waits = backoff ∷ [] }
            else record rest { waits = backoff ∷ rest.waits })

    -- The loop, from an attempt on, with `left` attempts after it.
    unfoldable pub loop : ℕ → ℕ → ℤ → Run E
    loop zero attempt backoff =
        turn 0 attempt backoff (invoke attempt)
          (record { outcome = succeeded; calls = attempt; waits = [] })
    loop (suc left) attempt backoff =
        let rest = loop left (suc attempt) (capped (grow backoff)) in
        turn (suc left) attempt backoff (invoke attempt) rest

    -- RecordSuccess after a success, and RecordFailure after all else.
    abbrev pub recorded : ℤ → Outcome E → Breaker → Breaker
    recorded later succeeded cb = record_success cb
    recorded later _ cb = record_failure later cb

    -- The function that NewClientInterceptor returns, called at the time `now`; it ends at `later`.
    unfoldable pub intercept : ℤ → ℤ → Breaker → Run E × Breaker
    unfolding loop attempts_of
    intercept now later breaker =
        let (lets, cb) = allow now breaker in
        if lets
        then (let run = loop (pos_part (attempts_of p) - 1) 0 p.initial_backoff in
            (run, recorded later run.outcome cb))
        else (record { outcome = breaker_open; calls = 0; waits = [] }, cb)
