-- ===== src/CarrierBreaker/Sequential.antt =====
-- apps/carrier-connector/internal/infra/circuitbreaker.go, for calls one after another.
use telecom_platform.Base.{
  ℕ, ◌+◌, ◌^◌, ◌≤◌, ◌<◌, ◌≡◌, ◌↔◌, ◌≢◌, refl, ap, ◌∙◌, Option, none, some, List, [], ◌∷◌, arith,
  length,
}
use telecom_platform.CarrierBreaker.{
  CircuitBreaker, CircuitBreakerConfig, CallError, state_closed, state_open, state_half_open,
  execute, execute_with_fallback, circuit_open, of_call,
}

module _ {E : Type 0} (start end : ℕ) (outcome : Option E) (cb : CircuitBreaker) where
  -- A call is refused exactly when the circuit is open and no more than the timeout has passed
  -- since the last failure, and then nothing of the breaker changes.
  pub refused_iff :
      (((execute start end outcome cb).1 ≡ some circuit_open)
        ↔ ((cb.state ≡ state_open) × (start ≤ cb.last_failure + cb.config.timeout)))
      × ((execute start end outcome cb).1 ≡ some circuit_open
          → (execute start end outcome cb).0 ≡ cb)
  unfolding execute
  refused_iff = (((λ h. ground arith), λ h. ground arith), λ h. ground arith)

  -- A fallback has no say in the breaker's state; it is called exactly when `Execute` would fail,
  -- for an open circuit or a failed call, and then its result is the result.
  pub fallback_lem :
      (result : Option E)
      → let plain = execute start end outcome cb in
        let covered = execute_with_fallback start end outcome (some result) cb in
        let bare = execute_with_fallback start end outcome none cb in
        (covered.0 ≡ plain.0)
        × (bare ≡ plain)
        × (plain.1 ≡ none → covered.1 ≡ none)
        × ((err : CallError E) → plain.1 ≡ some err → covered.1 ≡ of_call result)
  unfolding execute execute_with_fallback
  fallback_lem result = (ground arith, ground arith, (λ h. ground arith), λ err h. ground arith)

-- Calls with their start, end and outcome.
unfoldable pub run_calls : List (ℕ × ℕ × Option ℕ) → CircuitBreaker → CircuitBreaker
run_calls [] cb = cb
run_calls ((start, end, outcome) ∷ calls) cb = run_calls calls (execute start end outcome cb).0

abbrev pub AllFail : List (ℕ × ℕ × Option ℕ) → Type 0
AllFail [] = Unit {0}
AllFail ((start, end, outcome) ∷ calls) = (outcome ≢ none) × AllFail calls

abbrev pub AllSucceed : List (ℕ × ℕ × Option ℕ) → Type 0
AllSucceed [] = Unit {0}
AllSucceed ((start, end, outcome) ∷ calls) = (outcome ≡ none) × AllSucceed calls

closed_failure :
    (start end : ℕ) (outcome : Option ℕ) (cb : CircuitBreaker)
    → cb.state ≡ state_closed
    → outcome ≢ none
    → cb.config.failure_threshold < 2 ^ 63
    → cb.failure_count < cb.config.failure_threshold
    → let cb' = (execute start end outcome cb).0 in
      (cb'.config ≡ cb.config)
      × (cb.failure_count + 1 < cb.config.failure_threshold
          → (cb'.state ≡ state_closed) × (cb'.failure_count ≡ cb.failure_count + 1))
      × (cb.failure_count + 1 ≡ cb.config.failure_threshold
          → (cb'.state ≡ state_open) × (cb'.last_failure ≡ end))
unfolding execute
closed_failure start end none cb c n w h = absurd (n refl)
closed_failure start end (some e) cb c n w h =
    (ground arith, (λ k. ground arith), λ k. ground arith)

failures_counted :
    (calls : List (ℕ × ℕ × Option ℕ)) (cb : CircuitBreaker)
    → cb.state ≡ state_closed
    → AllFail calls
    → cb.config.failure_threshold < 2 ^ 63
    → cb.failure_count + length calls < cb.config.failure_threshold
    → let cb' = run_calls calls cb in
      (cb'.config ≡ cb.config)
      × (cb'.state ≡ state_closed)
      × (cb'.failure_count ≡ cb.failure_count + length calls)
unfolding run_calls
failures_counted [] cb c a w h = ground arith
failures_counted ((start, end, outcome) ∷ calls) cb c a w h = ground (
  arith,
  closed_failure start end outcome cb c a.0 w,
  failures_counted calls (execute start end outcome cb).0,
)

-- From a closed breaker with no failures, failing calls that are one fewer than the threshold leave
-- it closed, and one more failing call opens it as of the time at which that call ended.
pub failures_open :
    (calls : List (ℕ × ℕ × Option ℕ)) (start end e : ℕ) (cb : CircuitBreaker)
    → cb.state ≡ state_closed
    → cb.failure_count ≡ 0
    → AllFail calls
    → cb.config.failure_threshold < 2 ^ 63
    → length calls + 1 ≡ cb.config.failure_threshold
    → let before = run_calls calls cb in
      let after = (execute start end (some e) before).0 in
      (before.state ≡ state_closed) × (after.state ≡ state_open) × (after.last_failure ≡ end)
failures_open calls start end e cb c z a w h =
    let counted = failures_counted calls cb c a w (omega arith) in
    let same : (run_calls calls cb).config.failure_threshold ≡ cb.config.failure_threshold =
      ap (λ (k : CircuitBreakerConfig). k.failure_threshold) counted.0 in
    let opens =
      closed_failure start end (some e) (run_calls calls cb) counted.1 (λ p. cc) (omega arith)
        (omega arith) in
    (counted.1, (opens.2 (omega arith)).0, (opens.2 (omega arith)).1)

probe_success :
    (start end : ℕ) (cb : CircuitBreaker)
    → cb.state ≡ state_half_open
    → cb.config.success_threshold < 2 ^ 63
    → cb.success_count < cb.config.success_threshold
    → let cb' = (execute {E = ℕ} start end none cb).0 in
      (cb'.config ≡ cb.config)
      × (cb.success_count + 1 < cb.config.success_threshold
          → (cb'.state ≡ state_half_open) × (cb'.success_count ≡ cb.success_count + 1))
      × (cb.success_count + 1 ≡ cb.config.success_threshold
          → (cb'.state ≡ state_closed) × (cb'.failure_count ≡ 0))
unfolding execute
probe_success start end cb c w h = (ground arith, (λ k. ground arith), λ k. ground arith)

first_probe :
    (start end : ℕ) (cb : CircuitBreaker)
    → cb.state ≡ state_open
    → cb.last_failure + cb.config.timeout < start
    → 1 < cb.config.success_threshold
    → cb.config.success_threshold < 2 ^ 63
    → let cb' = (execute {E = ℕ} start end none cb).0 in
      (cb'.config ≡ cb.config) × (cb'.state ≡ state_half_open) × (cb'.success_count ≡ 1)
unfolding execute
first_probe start end cb o t h w = ground arith

successes_counted :
    (calls : List (ℕ × ℕ × Option ℕ)) (cb : CircuitBreaker)
    → cb.state ≡ state_half_open
    → AllSucceed calls
    → cb.config.success_threshold < 2 ^ 63
    → cb.success_count + length calls < cb.config.success_threshold
    → let cb' = run_calls calls cb in
      (cb'.config ≡ cb.config)
      × (cb'.state ≡ state_half_open)
      × (cb'.success_count ≡ cb.success_count + length calls)
unfolding run_calls
successes_counted [] cb c a w h = ground arith
successes_counted ((start, end, outcome) ∷ calls) cb c a w h = ground (
  arith,
  probe_success start end cb c w,
  successes_counted calls (execute {E = ℕ} start end none cb).0,
)

-- An open breaker whose timeout has passed lets calls through again: it goes half-open, stays so for
-- as long as its successes are fewer than the success threshold, and the success that reaches
-- the threshold closes it with no failures counted.
pub successes_close :
    (first second : ℕ) (calls : List (ℕ × ℕ × Option ℕ)) (start end : ℕ) (cb : CircuitBreaker)
    → cb.state ≡ state_open
    → cb.last_failure + cb.config.timeout < first
    → AllSucceed calls
    → cb.config.success_threshold < 2 ^ 63
    → length calls + 2 ≡ cb.config.success_threshold
    → let before = run_calls ((first, second, none) ∷ calls) cb in
      let after = (execute {E = ℕ} start end none before).0 in
      (before.state ≡ state_half_open) × (after.state ≡ state_closed) × (after.failure_count ≡ 0)
unfolding run_calls
successes_close first second calls start end cb o t a w h =
    let (k, s, n) = first_probe first second cb o t (omega arith) w in
    let th : (execute {E = ℕ} first second none cb).0.config.success_threshold
        ≡ cb.config.success_threshold =
      ap (λ (k : CircuitBreakerConfig). k.success_threshold) k in
    let counted =
      successes_counted calls (execute first second none cb).0 s a (omega arith) (omega arith) in
    let th' : (run_calls calls (execute first second none cb).0).config.success_threshold
        ≡ cb.config.success_threshold =
      ap (λ (k : CircuitBreakerConfig). k.success_threshold) (counted.0 ∙ k) in
    let closes =
      probe_success start end (run_calls calls (execute first second none cb).0) counted.1
        (omega arith) (omega arith) in
    (counted.1, (closes.2 (omega arith)).0, (closes.2 (omega arith)).1)
