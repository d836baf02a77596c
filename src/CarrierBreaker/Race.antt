-- ===== src/CarrierBreaker/Race.antt =====
-- apps/carrier-connector/internal/infra/circuitbreaker.go: `allowRequest` does not look at the state
-- again under the write lock, so a check can be out of date when its upgrade comes.
use telecom_platform.Base.{ℕ, ◌+◌, ◌-◌, ◌≤◌, ◌≡◌, some, String, arith}
use telecom_platform.CarrierBreaker.{
  CircuitBreakerConfig, state_open, state_half_open, upgrade, record_result,
}
use telecom_platform.CarrierBreaker.Interleaving.{System, Reach, next, upgrades, records}

-- One call upgrades and fails at `now`, which opens the circuit again; then another upgrades.
abbrev raced : ℕ → System → System
raced now s = record {
  breaker = upgrade (record_result {E = ℕ} now (some 0) (upgrade s.breaker));
  upgrading = s.upgrading - 1 - 1;
  in_flight = s.in_flight + 1 - 1 + 1;
}

-- Whenever two calls have both found the timeout over on an open circuit, it can be open again after
-- a failure at `now` and half-open at once, whatever `now` is: no timeout passes after
-- that failure, and a further call is let through.
pub stale_upgrade :
    (name : String) (config : CircuitBreakerConfig) (s : System) (now : ℕ)
    → Reach name config s
    → s.breaker.state ≡ state_open
    → 2 ≤ s.upgrading
    → (t : System) × Reach name config t
      × (t.breaker.state ≡ state_half_open)
      × (t.breaker.last_failure ≡ now)
      × (t.in_flight ≡ s.in_flight + 1)
unfolding upgrade record_result
stale_upgrade name config s now r h two = (
  raced now s,
  next (next (next r (upgrades (omega arith))) (records now (some 0) (omega arith)))
      (upgrades (omega arith)),
  ground arith,
  ground arith,
  omega arith,
)
