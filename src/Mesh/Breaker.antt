-- ===== src/Mesh/Breaker.antt =====
-- internal/mesh/circuitbreaker.go. Times and durations are counts of nanoseconds; the clock is an
-- argument of the operations that read it. The breaker's lock makes each operation one step.
pub mod Opening
use nimbuscore.Prelude.{
  ℕ, zero, suc, Bool, true, false, not, ◌&&◌, ◌||◌, List, [], ◌∷◌, ℤ, pos, ◌-ℤ◌, ltb_ℤ, leb_ℤ,
  add64, if◌then◌else◌,
}

pub data State : Type 0 where
  closed opened half_opened : State

abbrev pub is_closed : State → Bool
is_closed closed = true
is_closed _ = false

abbrev pub is_open : State → Bool
is_open opened = true
is_open _ = false

abbrev pub is_half_open : State → Bool
is_half_open half_opened = true
is_half_open _ = false

pub record Breaker : Type 0 where
  pub state : State
  pub failures : ℤ
  pub threshold : ℤ
  pub reset_timeout : ℤ
  pub opened_at : ℤ

-- NewCircuitBreaker
unfoldable pub new_circuit_breaker : ℤ → ℤ → Breaker
new_circuit_breaker threshold reset_timeout = record {
  state = closed;
  failures = pos 0;
  threshold = if leb_ℤ threshold (pos 0) then pos 5 else threshold;
  reset_timeout = if leb_ℤ reset_timeout (pos 0) then pos 30000000000 else reset_timeout;
  opened_at = pos 0;
}

-- Allow
unfoldable pub allow : ℤ → Breaker → Bool × Breaker
allow now cb =
    if not (is_open cb.state)
    then (true, cb)
    else (if ltb_ℤ (now -ℤ cb.opened_at) cb.reset_timeout
        then (false, cb)
        else (true, record cb { state = half_opened }))

-- RecordSuccess
unfoldable pub record_success : Breaker → Breaker
record_success cb = record cb { failures = pos 0; state = closed }

-- RecordFailure
unfoldable pub record_failure : ℤ → Breaker → Breaker
record_failure now cb =
    let failures = add64 cb.failures (pos 1) in
    if is_half_open cb.state || leb_ℤ cb.threshold failures
    then record cb { failures = failures; state = opened; opened_at = now }
    else record cb { failures = failures }

-- What the callers do, at the times they do it.
pub data Event : Type 0 where
  allowed failed : ℤ → Event
  succeeded : Event

unfoldable pub step : Event → Breaker → Breaker
unfolding allow record_success record_failure
step (allowed now) cb = (allow now cb).1
step (failed now) cb = record_failure now cb
step succeeded cb = record_success cb

unfoldable pub steps : List Event → Breaker → Breaker
unfolding step
steps [] cb = cb
steps (e ∷ es) cb = steps es (step e cb)
