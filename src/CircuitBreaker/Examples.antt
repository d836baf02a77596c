-- ===== src/CircuitBreaker/Examples.antt =====
-- Witnesses and tests for apps/api-server/internal/circuitbreaker/circuitbreaker.go.
use telecom_platform.Base.{ℕ, ◌+◌, ◌*◌, ◌≡◌, refl, none, some, List, [], ◌∷◌, arith}
use telecom_platform.CircuitBreaker.{
  CircuitBreaker, Config, state_closed, state_open, state_half_open, new_circuit_breaker,
  default_config, execute, admit, settle, second,
}
use telecom_platform.CircuitBreaker.Sequential.{
  execute_refuses, run_failures, run_failures_below, threshold_failures_open, run_successes,
  threshold_successes_close,
}
use telecom_platform.CircuitBreaker.Interleaving.{
  System, Reach, here, next, starts, finishes, Inv, Reach-Inv, reached_half_open_failure,
}

abbrev fresh : CircuitBreaker
unfolding new_circuit_breaker default_config
fresh = new_circuit_breaker default_config

abbrev four_failures : List (ℕ × ℕ × ℕ)
four_failures = (1, 2, 7) ∷ (3, 4, 7) ∷ (5, 6, 7) ∷ (7, 8, 7) ∷ []

-- Open since time 10.
abbrev tripped : CircuitBreaker
tripped = record {
  state = state_open;
  failure_count = 5;
  failure_threshold = 5;
  success_threshold = 2;
  timeout = 60 * second;
  last_failure_time = 10;
  half_open_successes = 0;
}

trips : (execute {E = ℕ} 9 10 (some 7) (run_failures four_failures fresh)).0 ≡ tripped
unfolding fresh run_failures execute
trips = refl

execute_refuses_example : (execute {E = ℕ} 11 12 none tripped).0 ≡ tripped
unfolding execute
execute_refuses_example = (execute_refuses {E = ℕ} 11 12 none tripped).1 refl

run_failures_below_example : (run_failures four_failures fresh).failure_count ≡ 0 + 4
unfolding fresh
run_failures_below_example =
    (run_failures_below four_failures fresh refl (omega arith) (omega arith)).1

threshold_failures_open_example :
    (execute {E = ℕ} 9 10 (some 7) (run_failures four_failures fresh)).0.state ≡ state_open
unfolding fresh
threshold_failures_open_example =
    (threshold_failures_open four_failures 9 10 7 fresh refl refl (omega arith) (omega arith)).1

threshold_successes_close_example :
    (run_successes
      ((70 * second, 71 * second) ∷ [])
      (run_successes ((61 * second, 62 * second) ∷ []) tripped)).state
    ≡ state_closed
threshold_successes_close_example =
    (threshold_successes_close (61 * second, 62 * second) [] (70 * second, 71 * second) tripped refl
      (omega arith) (omega arith) (omega arith)).1

abbrev hasty : Config
hasty = record { failure_threshold = 1; success_threshold = 2; timeout = 5 }

-- One call fails at time 1; the next one starts at time 10.
abbrev probing : System
probing = record {
  breaker = record {
    state = state_half_open;
    failure_count = 1;
    failure_threshold = 1;
    success_threshold = 2;
    timeout = 5;
    last_failure_time = 1;
    half_open_successes = 0;
  };
  in_flight = 1;
}

probing-Reach : Reach hasty 3 probing
unfolding new_circuit_breaker admit settle
probing-Reach = next (next (next here (starts 0)) (finishes 1 (some 7) (omega arith))) (starts 10)

Reach-Inv_example : Inv hasty 3 probing.breaker
Reach-Inv_example = Reach-Inv hasty 3 probing probing-Reach (omega arith) (omega arith)

reached_half_open_failure_example : (settle {E = ℕ} 11 (some 9) probing.breaker).state ≡ state_open
reached_half_open_failure_example =
    (reached_half_open_failure hasty 3 probing 11 9 probing-Reach (omega arith) (omega arith)
      refl).0
