-- ===== src/CircuitBreaker/Sequential.antt =====
-- apps/api-server/internal/circuitbreaker/circuitbreaker.go, for calls one after another.
use telecom_platform.Base.{
  ℕ, ◌+◌, ◌^◌, ◌≤◌, ◌<◌, ◌≡◌, ◌↔◌, Option, none, some, List, [], ◌∷◌, arith, length,
}
use telecom_platform.CircuitBreaker.{
  CircuitBreaker, state_closed, state_open, state_half_open, execute, breaker_open,
}

module _ {E : Type 0} where
  -- `Execute` refuses a call exactly when the circuit is open and no more than the timeout has
  -- passed since the last failure, and then nothing of the breaker changes.
  pub execute_refuses :
      (start end : ℕ) (outcome : Option E) (cb : CircuitBreaker)
      → (((execute start end outcome cb).1 ≡ some breaker_open)
          ↔ ((cb.state ≡ state_open) × (start ≤ cb.last_failure_time + cb.timeout)))
        × ((execute start end outcome cb).1 ≡ some breaker_open
            → (execute start end outcome cb).0 ≡ cb)
  unfolding execute
  execute_refuses start end outcome cb =
      (((λ h. ground arith), (λ h. ground arith)), λ h. ground arith)

  -- Failing calls, each with its start, its end and its error.
  unfoldable pub run_failures : List (ℕ × ℕ × E) → CircuitBreaker → CircuitBreaker
  run_failures [] cb = cb
  run_failures ((start, end, e) ∷ calls) cb = run_failures calls (execute start end (some e) cb).0

  -- A closed breaker stays closed for as long as its failures in a row are fewer than the
  -- threshold, and counts them.
  pub run_failures_below :
      (calls : List (ℕ × ℕ × E)) (cb : CircuitBreaker)
      → cb.state ≡ state_closed
      → cb.failure_threshold < 2 ^ 64
      → cb.failure_count + length calls < cb.failure_threshold
      → ((run_failures calls cb).state ≡ state_closed)
        × ((run_failures calls cb).failure_count ≡ cb.failure_count + length calls)
        × ((run_failures calls cb).failure_threshold ≡ cb.failure_threshold)
  unfolding run_failures execute
  run_failures_below [] cb c w h = ground arith
  run_failures_below ((start, end, e) ∷ calls) cb c w h =
      ground (arith, run_failures_below calls (execute start end (some e) cb).0)

  failure_opens :
      (start end : ℕ) (e : E) (cb : CircuitBreaker)
      → cb.state ≡ state_closed
      → cb.failure_threshold < 2 ^ 64
      → cb.failure_count + 1 ≡ cb.failure_threshold
      → let cb' = (execute start end (some e) cb).0 in
        (cb'.state ≡ state_open) × (cb'.last_failure_time ≡ end)
  unfolding execute
  failure_opens start end e cb c w h = ground arith

  -- From a closed breaker with no failures, failing calls that are one fewer than the threshold
  -- leave it closed, and one more failing call opens it as of the time at which that call ended.
  pub threshold_failures_open :
      (calls : List (ℕ × ℕ × E)) (start end : ℕ) (e : E) (cb : CircuitBreaker)
      → cb.state ≡ state_closed
      → cb.failure_count ≡ 0
      → cb.failure_threshold < 2 ^ 64
      → length calls + 1 ≡ cb.failure_threshold
      → let before = run_failures calls cb in
        let after = (execute start end (some e) before).0 in
        (before.state ≡ state_closed) × (after.state ≡ state_open) × (after.last_failure_time ≡ end)
  threshold_failures_open calls start end e cb c z w h =
      ground (arith, run_failures_below calls cb, failure_opens start end e (run_failures calls cb))

-- Successful calls, each with its start and its end.
unfoldable pub run_successes : List (ℕ × ℕ) → CircuitBreaker → CircuitBreaker
run_successes [] cb = cb
run_successes ((start, end) ∷ calls) cb = run_successes calls (execute {E = ℕ} start end none cb).0

run_successes_below :
    (calls : List (ℕ × ℕ)) (cb : CircuitBreaker)
    → cb.state ≡ state_half_open
    → cb.success_threshold < 2 ^ 64
    → cb.half_open_successes + length calls < cb.success_threshold
    → ((run_successes calls cb).state ≡ state_half_open)
      × ((run_successes calls cb).half_open_successes ≡ cb.half_open_successes + length calls)
      × ((run_successes calls cb).success_threshold ≡ cb.success_threshold)
unfolding run_successes execute
run_successes_below [] cb c w h = ground arith
run_successes_below ((start, end) ∷ calls) cb c w h =
    ground (arith, run_successes_below calls (execute {E = ℕ} start end none cb).0)

first_probe :
    (start end : ℕ) (cb : CircuitBreaker)
    → cb.state ≡ state_open
    → cb.last_failure_time + cb.timeout < start
    → 1 < cb.success_threshold
    → let cb' = (execute {E = ℕ} start end none cb).0 in
      (cb'.state ≡ state_half_open)
      × (cb'.half_open_successes ≡ 1)
      × (cb'.success_threshold ≡ cb.success_threshold)
unfolding execute
first_probe start end cb o t w = ground arith

last_probe :
    (start end : ℕ) (cb : CircuitBreaker)
    → cb.state ≡ state_half_open
    → cb.success_threshold < 2 ^ 64
    → cb.half_open_successes + 1 ≡ cb.success_threshold
    → let cb' = (execute {E = ℕ} start end none cb).0 in
      (cb'.state ≡ state_closed) × (cb'.failure_count ≡ 0)
unfolding execute
last_probe start end cb o w h = ground arith

-- An open breaker whose timeout has passed lets calls through again: successful calls that are one
-- fewer than the success threshold (here 2 or more) leave it half-open, and one more closes it with
-- its failures forgotten.
pub threshold_successes_close :
    (first : ℕ × ℕ) (calls : List (ℕ × ℕ)) (last : ℕ × ℕ) (cb : CircuitBreaker)
    → cb.state ≡ state_open
    → cb.last_failure_time + cb.timeout < first.0
    → cb.success_threshold < 2 ^ 64
    → length calls + 2 ≡ cb.success_threshold
    → let before = run_successes (first ∷ calls) cb in
      let after = run_successes (last ∷ []) before in
      (before.state ≡ state_half_open) × (after.state ≡ state_closed) × (after.failure_count ≡ 0)
unfolding run_successes
threshold_successes_close first calls last cb o t w h = ground (
  arith,
  first_probe first.0 first.1 cb,
  run_successes_below calls (execute {E = ℕ} first.0 first.1 none cb).0,
  last_probe last.0 last.1 (run_successes calls (execute {E = ℕ} first.0 first.1 none cb).0),
)

-- While the breaker is half-open, one failing call opens it again and restarts the timeout, if the
-- failures counted have reached the threshold and do not wrap.
pub half_open_failure :
    {E : Type 0} (start end : ℕ) (e : E) (cb : CircuitBreaker)
    → cb.state ≡ state_half_open
    → cb.failure_threshold ≤ cb.failure_count
    → cb.failure_count + 1 < 2 ^ 64
    → let cb' = (execute start end (some e) cb).0 in
      (cb'.state ≡ state_open) × (cb'.last_failure_time ≡ end)
unfolding execute
half_open_failure start end e cb o f w = ground arith
