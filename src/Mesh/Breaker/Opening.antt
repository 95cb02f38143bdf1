-- ===== src/Mesh/Breaker/Opening.antt =====
-- When the breaker opens, and what it lets through.
use nimbuscore.Prelude.{
  ℕ, suc, ◌+◌, ◌<◌, ◌≡◌, refl, ◌∙◌, subst, sym, ◌⊎◌, inl, inr, true, false, ◌||◌, List, [], ◌∷◌,
  map, length, ℤ, pos, negsuc, ◌+ℤ◌, ◌-ℤ◌, ◌<ℤ◌, ◌≤ℤ◌, leb_ℤ, leb, add64, wrap_lem, Fits, half64,
  arith, Bool-cases,
}
use nimbuscore.Mesh.Breaker.{
  half_opened, is_closed, is_open, is_half_open, Breaker, new_circuit_breaker, allow,
  record_success, record_failure, Event, allowed, failed, succeeded, step, steps,
}

-- A closed breaker has counted fewer failures than its threshold.
pub record IsSteady (cb : Breaker) : Type 0 where
  pub bounded : is_closed cb.state ≡ true → (pos 0 ≤ℤ cb.failures) × (cb.failures <ℤ cb.threshold)
  pub positive : pos 0 <ℤ cb.threshold
  pub fits : Fits half64 cb.threshold

add64-suc :
    (a b : ℤ)
    → pos 0 ≤ℤ a
    → a <ℤ b
    → Fits half64 b
    → (n : ℕ) × (a ≡ pos n) × (add64 a (pos 1) ≡ pos (suc n))
unfolding ◌+ℤ◌
add64-suc (pos n) b h l f =
    (n, refl, wrap_lem half64 (pos n +ℤ pos 1) (ground arith, ground arith) ∙ ground arith)
add64-suc (negsuc n) b h l f = absurd (omega arith)

allow-cases :
    (now : ℤ) (cb : Breaker)
    → ((allow now cb).1 ≡ cb) ⊎ ((allow now cb).1 ≡ record cb { state = half_opened })
unfolding allow
allow-cases now cb = ground arith

add64-pos : (n : ℕ) → suc n < half64 → add64 (pos n) (pos 1) ≡ pos (suc n)
unfolding ◌+ℤ◌
add64-pos n h = wrap_lem half64 (pos n +ℤ pos 1) (ground arith, ground arith) ∙ ground arith

step-IsSteady : (e : Event) (cb : Breaker) → IsSteady cb → IsSteady (step e cb)
unfolding step allow record_failure record_success
step-IsSteady (allowed now) cb h = elim (allow-cases now cb) [
  | inl e ↦ subst IsSteady (sym e) h
  | inr e ↦
      subst IsSteady (sym e)
        (record { bounded = λ q. ground arith; positive = h.positive; fits = h.fits })
]
step-IsSteady (failed now) cb h =
    elim (Bool-cases (is_half_open cb.state || leb_ℤ cb.threshold (add64 cb.failures (pos 1)))) [
      | inl e ↦ rw e (record { bounded = λ q. ground arith; positive = h.positive; fits = h.fits })
      | inr e ↦
          rw e
            (record { bounded = λ q. within e (h.bounded q); positive = h.positive; fits = h.fits })
    ]
  where
    within :
        (is_half_open cb.state || leb_ℤ cb.threshold (add64 cb.failures (pos 1))) ≡ false
        → (pos 0 ≤ℤ cb.failures) × (cb.failures <ℤ cb.threshold)
        → (pos 0 ≤ℤ add64 cb.failures (pos 1)) × (add64 cb.failures (pos 1) <ℤ cb.threshold)
    within e (p, q) =
        let (n, a, b) = add64-suc cb.failures cb.threshold p q h.fits in
        (rw b (omega arith), ground arith)
step-IsSteady succeeded cb h = record {
  bounded = λ q. (omega arith, h.positive);
  positive = h.positive;
  fits = h.fits;
}

-- From a steady breaker, no sequence of calls, successes and failures, at any times, reaches a
-- breaker that is closed with as many failures as its threshold.
pub steps-IsSteady : (es : List Event) (cb : Breaker) → IsSteady cb → IsSteady (steps es cb)
unfolding steps
steps-IsSteady [] cb h = h
steps-IsSteady (e ∷ es) cb h = steps-IsSteady es (step e cb) (step-IsSteady e cb h)

record_failure-opened :
    (t : ℤ) (cb : Breaker) → is_open cb.state ≡ true → is_open (record_failure t cb).state ≡ true
unfolding record_failure
record_failure-opened t cb h = ground arith

steps-opened :
    (ts : List ℤ) (cb : Breaker)
    → is_open cb.state ≡ true
    → is_open (steps (map failed ts) cb).state ≡ true
unfolding steps step
steps-opened [] cb h = h
steps-opened (t ∷ ts) cb h = steps-opened ts (record_failure t cb) (record_failure-opened t cb h)

-- A closed breaker that has counted n failures, of a limit.
abbrev Counts : ℕ → ℕ → Breaker → Type 0
Counts n limit cb = (is_closed cb.state ≡ true) × (cb.failures ≡ pos n) × (cb.threshold ≡ pos limit)

record_failure-Counts :
    (t : ℤ) (n limit : ℕ) (cb : Breaker)
    → suc n < half64
    → Counts n limit cb
    → (leb limit (suc n) ≡ true → is_open (record_failure t cb).state ≡ true)
      × (leb limit (suc n) ≡ false → Counts (suc n) limit (record_failure t cb))
unfolding record_failure
record_failure-Counts t n limit cb f (c, a, b) =
    let e = add64-pos n f in (λ h. ground arith, λ h. (ground arith, ground arith, ground arith))

steps-Counts :
    (ts : List ℤ) (n limit : ℕ) (cb : Breaker)
    → n < limit
    → n + length ts < half64
    → Counts n limit cb
    → is_open (steps (map failed ts) cb).state ≡ leb limit (n + length ts)
unfolding steps step
steps-Counts [] n limit cb l f c = ground arith
steps-Counts (t ∷ ts) n limit cb l f c = elim (Bool-cases (leb limit (suc n))) [
  | inl e ↦
      steps-opened ts (record_failure t cb)
        ((record_failure-Counts t n limit cb (omega arith) c).0 e)
      ∙ ground arith
  | inr e ↦
      steps-Counts ts (suc n) limit (record_failure t cb) (ground arith) (omega arith)
        ((record_failure-Counts t n limit cb (omega arith) c).1 e)
      ∙ ground arith
]

-- After any number of failures in a row a new breaker is open exactly when they are at least the
-- threshold, for a positive threshold and fewer than 2^63 failures.
failures_open :
    (ts : List ℤ) (limit : ℕ) (reset : ℤ)
    → 0 < limit
    → length ts < half64
    → is_open (steps (map failed ts) (new_circuit_breaker (pos limit) reset)).state
      ≡ leb limit (length ts)
unfolding new_circuit_breaker
failures_open ts limit reset p f =
    steps-Counts ts 0 limit (new_circuit_breaker (pos limit) reset) p (omega arith)
      (refl, refl, ground arith)
    ∙ ground arith

-- An open breaker lets a call through exactly from the end of its reset time on, and is half open
-- exactly when it does.
pub allow-opened :
    (now : ℤ) (cb : Breaker)
    → is_open cb.state ≡ true
    → ((allow now cb).0 ≡ leb_ℤ cb.reset_timeout (now -ℤ cb.opened_at))
      × (is_half_open (allow now cb).1.state ≡ (allow now cb).0)
unfolding allow
allow-opened now cb h = (ground arith, ground arith)

-- When an open breaker lets a call through, a failure of the call opens it again from the time of
-- the failure, whatever was counted, and a success closes it and forgets the count.
probe_after_reset :
    (now later : ℤ) (cb : Breaker)
    → is_open cb.state ≡ true
    → (allow now cb).0 ≡ true
    → (is_open (record_failure later (allow now cb).1).state ≡ true)
      × ((record_failure later (allow now cb).1).opened_at ≡ later)
      × (is_closed (record_success (allow now cb).1).state ≡ true)
      × ((record_success (allow now cb).1).failures ≡ pos 0)
unfolding allow record_failure record_success
probe_after_reset now later cb h a = (ground arith, ground arith, ground arith, ground arith)
