-- ===== src/CarrierBreaker/Examples.antt =====
-- Witnesses and tests for apps/carrier-connector/internal/infra/circuitbreaker.go.
use telecom_platform.Base.{ℕ, ◌≡◌, refl, true, none, some, [], ◌∷◌, arith}
use telecom_platform.CarrierBreaker.{
  CircuitBreaker, CircuitBreakerConfig, state_closed, state_open, state_half_open,
  new_circuit_breaker, on_state_change, check, record_result, execute, execute_with_fallback,
  circuit_open,
}
use telecom_platform.CarrierBreaker.Sequential.{
  run_calls, refused_iff, fallback_lem, failures_open, successes_close,
}
use telecom_platform.CarrierBreaker.Interleaving.{
  System, Reach, here, next, passes, decides, records, Inv, schedule-Inv,
}
use telecom_platform.CarrierBreaker.Race.{stale_upgrade}

abbrev hasty : CircuitBreakerConfig
hasty = record {
  failure_threshold = 2;
  success_threshold = 2;
  timeout = 10;
  half_open_max_calls = 1;
}

abbrev fresh : CircuitBreaker
unfolding new_circuit_breaker
fresh = new_circuit_breaker "es2" hasty

-- Open since time 4.
abbrev tripped : CircuitBreaker
tripped = record {
  name = "es2";
  state = state_open;
  failure_count = 0;
  success_count = 0;
  last_failure = 4;
  config = hasty;
  has_callback = true;
  changes = record { name = "es2"; from = state_closed; to = state_open } ∷ [];
}

refused_iff_example : (execute {E = ℕ} 14 15 none tripped).0 ≡ tripped
unfolding execute
refused_iff_example = (refused_iff {E = ℕ} 14 15 none tripped).1 refl

fallback_lem_example : (execute_with_fallback {E = ℕ} 14 15 none (some none) tripped).1 ≡ none
unfolding execute
fallback_lem_example = (fallback_lem {E = ℕ} 14 15 none tripped none).3 circuit_open refl

failures_open_example :
    (execute {E = ℕ} 3 4 (some 7) (run_calls ((1, 2, some 7) ∷ []) fresh)).0.state ≡ state_open
unfolding fresh
failures_open_example =
    (failures_open ((1, 2, some 7) ∷ []) 3 4 7 fresh refl refl ((λ e. cc), tt) (omega arith)
      (omega arith)).1

successes_close_example :
    (execute {E = ℕ} 17 18 none (run_calls ((15, 16, none) ∷ []) tripped)).0.state ≡ state_closed
successes_close_example =
    (successes_close 15 16 [] 17 18 tripped refl (omega arith) tt (omega arith) (omega arith)).1

-- Two calls fail, and two more find the timeout over before either takes the write lock.
abbrev contended : System
contended = record { breaker = tripped; upgrading = 2; in_flight = 0 }

contended-Reach : Reach "es2" hasty contended
unfolding check record_result on_state_change new_circuit_breaker
contended-Reach =
    next
      (next
        (next
          (next (next (next here (passes 1 refl)) (passes 2 refl))
            (records 3 (some 7) (omega arith)))
          (records 4 (some 7) (omega arith)))
        (decides 15 refl))
      (decides 16 refl)

schedule-Inv_example : Inv hasty contended.breaker
schedule-Inv_example =
    schedule-Inv "es2" hasty contended (omega arith) (omega arith) contended-Reach

stale_upgrade_example :
    (t : System) × Reach "es2" hasty t
    × (t.breaker.state ≡ state_half_open)
    × (t.breaker.last_failure ≡ 17)
    × (t.in_flight ≡ 1)
stale_upgrade_example = stale_upgrade "es2" hasty contended 17 contended-Reach refl (omega arith)
