-- ===== src/CarrierBreaker/Interleaving.antt =====
-- apps/carrier-connector/internal/infra/circuitbreaker.go, with calls in flight at once: the
-- critical sections of `Execute` (the check, the upgrade to half-open, the record of the result)
-- come in any order that single calls allow.
use telecom_platform.Base.{
  ℕ, ◌+◌, ◌-◌, ◌^◌, ◌<◌, ◌≡◌, ◌≢◌, ◌⊎◌, true, Option, none, some, List, [], ◌∷◌, String, arith,
}
use telecom_platform.CarrierBreaker.{
  CircuitBreaker, CircuitBreakerConfig, CircuitState, Change, state_closed, state_half_open,
  new_circuit_breaker, on_state_change, check, upgrade, record_result, allowed, denied,
  half_open_first,
}

-- A breaker, the calls that are about to take the write lock, and those whose function runs.
pub record System : Type 0 where
  pub breaker : CircuitBreaker
  pub upgrading : ℕ
  pub in_flight : ℕ

pub data Step (s : System) : System → Type 0 where
  passes :
      (now : ℕ) → check now s.breaker ≡ allowed → Step s (record s { in_flight = s.in_flight + 1 })
  is_denied : (now : ℕ) → check now s.breaker ≡ denied → Step s s
  decides :
      (now : ℕ)
      → check now s.breaker ≡ half_open_first
      → Step s (record s { upgrading = s.upgrading + 1 })
  upgrades :
      0 < s.upgrading
      → Step s (record {
        breaker = upgrade s.breaker;
        upgrading = s.upgrading - 1;
        in_flight = s.in_flight + 1;
      })
  records :
      (now : ℕ) (outcome : Option ℕ)
      → 0 < s.in_flight
      → Step s
          (record s { breaker = record_result now outcome s.breaker; in_flight = s.in_flight - 1 })

abbrev pub start : String → CircuitBreakerConfig → System
start name config = record {
  breaker = on_state_change (new_circuit_breaker name config);
  upgrading = 0;
  in_flight = 0;
}

-- What the steps lead to, from a new breaker with a callback.
pub data Reach (name : String) (config : CircuitBreakerConfig) : System → Type 0 where
  here : Reach name config (start name config)
  next : {s t : System} → Reach name config s → Step s t → Reach name config t

-- The callback's calls, newest first, lead from closed to `state`: each goes from the state that the
-- one before it went to, to another.
abbrev pub Chain : CircuitState → List Change → Type 0
Chain state [] = state ≡ state_closed
Chain state (c ∷ cs) = (c.to ≡ state) × (c.from ≢ state) × Chain c.from cs

pub record Inv (config : CircuitBreakerConfig) (cb : CircuitBreaker) : Type 0 where
  pub config_kept : cb.config ≡ config
  pub callback_kept : cb.has_callback ≡ true
  pub closed_below :
      cb.state ≡ state_closed
      → (cb.failure_count ≡ 0) ⊎ (cb.failure_count < config.failure_threshold)
  pub half_open_below :
      cb.state ≡ state_half_open
      → (cb.success_count ≡ 0) ⊎ (cb.success_count < config.success_threshold)
  pub chain : Chain cb.state cb.changes

module _ (config : CircuitBreakerConfig) (f : config.failure_threshold < 2 ^ 63)
    (g : config.success_threshold < 2 ^ 63) (cb : CircuitBreaker) (inv : Inv config cb) where
  upgrade-Inv : Inv config (upgrade cb)
  unfolding upgrade
  upgrade-Inv = ground arith

  record_result-Inv : (now : ℕ) (outcome : Option ℕ) → Inv config (record_result now outcome cb)
  unfolding record_result
  record_result-Inv now none = ground arith
  record_result-Inv now (some e) = ground arith

Step-Inv :
    (config : CircuitBreakerConfig)
    → config.failure_threshold < 2 ^ 63
    → config.success_threshold < 2 ^ 63
    → {s t : System} → Step s t
    → Inv config s.breaker
    → Inv config t.breaker
Step-Inv config f g (passes now h) inv = inv
Step-Inv config f g (is_denied now h) inv = inv
Step-Inv config f g (decides now h) inv = inv
Step-Inv config f g {s = s} (upgrades h) inv = upgrade-Inv config f g s.breaker inv
Step-Inv config f g {s = s} (records now outcome h) inv =
    record_result-Inv config f g s.breaker inv now outcome

start-Inv : (name : String) (config : CircuitBreakerConfig) → Inv config (start name config).breaker
unfolding on_state_change new_circuit_breaker
start-Inv name config = ground arith

-- In every interleaving: a closed breaker has fewer failures than the threshold (or none), a
-- half-open one fewer successes than its threshold (or none), the settings never change, and the
-- calls of the callback form a chain of real changes from closed to the state that the breaker is in.
pub schedule-Inv :
    (name : String) (config : CircuitBreakerConfig) (s : System)
    → config.failure_threshold < 2 ^ 63
    → config.success_threshold < 2 ^ 63
    → Reach name config s
    → Inv config s.breaker
schedule-Inv name config s f g here = start-Inv name config
schedule-Inv name config s f g (next r st) =
    Step-Inv config f g st (schedule-Inv name config _ f g r)
