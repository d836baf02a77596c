-- ===== src/CircuitBreaker/Interleaving.antt =====
-- apps/api-server/internal/circuitbreaker/circuitbreaker.go, with calls in flight at once: the
-- mutex is free while a protected function runs, so the critical sections of calls interleave.
use telecom_platform.Base.{
  ℕ, suc, ◌+◌, ◌-◌, ◌^◌, ◌≤◌, ◌<◌, ◌≡◌, ◌⊎◌, Bool, true, false, Option, none, some, arith,
}
use telecom_platform.CircuitBreaker.{
  CircuitBreaker, Config, state_closed, state_open, state_half_open, new_circuit_breaker, admit,
  settle, reset,
}

-- A breaker and the number of protected functions that are running.
pub record System : Type 0 where
  pub breaker : CircuitBreaker
  pub in_flight : ℕ

-- A call that is let through is in flight until it finishes.
abbrev begun : CircuitBreaker × Bool → ℕ → System
begun (cb, true) n = record { breaker = cb; in_flight = n + 1 }
begun (cb, false) n = record { breaker = cb; in_flight = n }

pub data Step (s : System) : System → Type 0 where
  starts : (now : ℕ) → Step s (begun (admit now s.breaker) s.in_flight)
  finishes :
      (now : ℕ) (outcome : Option ℕ)
      → 0 < s.in_flight
      → Step s (record { breaker = settle now outcome s.breaker; in_flight = s.in_flight - 1 })
  resets : Step s (record s { breaker = reset s.breaker })

-- `Reach config n s`: n steps lead from a new breaker to `s`.
pub data Reach (config : Config) : ℕ → System → Type 0 where
  here : Reach config 0 (record { breaker = new_circuit_breaker config; in_flight = 0 })
  next : {n : ℕ} {s t : System} → Reach config n s → Step s t → Reach config (suc n) t

pub record Inv (config : Config) (n : ℕ) (cb : CircuitBreaker) : Type 0 where
  pub failure_threshold : cb.failure_threshold ≡ config.failure_threshold
  pub success_threshold : cb.success_threshold ≡ config.success_threshold
  pub timeout : cb.timeout ≡ config.timeout
  pub counted : cb.failure_count ≤ n
  pub closed_below :
      cb.state ≡ state_closed
      → (cb.failure_count ≡ 0) ⊎ (cb.failure_count < config.failure_threshold)
  pub open_above : cb.state ≡ state_open → config.failure_threshold ≤ cb.failure_count
  pub half_open_above : cb.state ≡ state_half_open → config.failure_threshold ≤ cb.failure_count
  pub half_open_below :
      cb.state ≡ state_half_open
      → (cb.half_open_successes ≡ 0) ⊎ (cb.half_open_successes < config.success_threshold)

module _ {config : Config} {n : ℕ} (cb : CircuitBreaker) (inv : Inv config n cb) where
  admit-Inv : (now : ℕ) → Inv config (suc n) (admit now cb).0
  unfolding admit
  admit-Inv now = ground arith

  settle-Inv :
      (now : ℕ) (outcome : Option ℕ)
      → suc n < 2 ^ 64
      → config.success_threshold < 2 ^ 64
      → Inv config (suc n) (settle now outcome cb)
  unfolding settle
  settle-Inv now none w w' = ground arith
  settle-Inv now (some e) w w' = ground arith

  reset-Inv : Inv config (suc n) (reset cb)
  unfolding reset
  reset-Inv = ground arith

begun-Inv :
    {config : Config} {n : ℕ} (r : CircuitBreaker × Bool) (k : ℕ)
    → Inv config n r.0
    → Inv config n (begun r k).breaker
begun-Inv (cb, true) k inv = inv
begun-Inv (cb, false) k inv = inv

Step-Inv :
    {config : Config} {n : ℕ} {s t : System}
    → Step s t
    → suc n < 2 ^ 64
    → config.success_threshold < 2 ^ 64
    → Inv config n s.breaker
    → Inv config (suc n) t.breaker
Step-Inv {s = s} (starts now) w w' inv =
    begun-Inv (admit now s.breaker) s.in_flight (admit-Inv s.breaker inv now)
Step-Inv {s = s} (finishes now outcome h) w w' inv = settle-Inv s.breaker inv now outcome w w'
Step-Inv {s = s} resets w w' inv = reset-Inv s.breaker inv

new-Inv : (config : Config) → Inv config 0 (new_circuit_breaker config)
unfolding new_circuit_breaker
new-Inv config = ground arith

-- However the critical sections of concurrent calls and resets interleave, over fewer than 2 ^ 64
-- of them: a closed breaker has fewer failures than the threshold (or none); an open or half-open
-- one has at least as many; a half-open one has fewer successes than its threshold (or none); and
-- the settings never change.
pub Reach-Inv :
    (config : Config) (n : ℕ) (s : System)
    → Reach config n s
    → n < 2 ^ 64
    → config.success_threshold < 2 ^ 64
    → Inv config n s.breaker
Reach-Inv config n s here w w' = new-Inv config
Reach-Inv config n s (next r st) w w' = Step-Inv st w w' (Reach-Inv config _ _ r (omega arith) w')

half_open_settle :
    {config : Config} {n : ℕ} (cb : CircuitBreaker) (now e : ℕ)
    → Inv config n cb
    → suc n < 2 ^ 64
    → cb.state ≡ state_half_open
    → ((settle now (some e) cb).state ≡ state_open)
      × ((settle now (some e) cb).last_failure_time ≡ now)
unfolding settle
half_open_settle cb now e inv w h = ground arith

-- In every reachable half-open breaker, the first call that fails opens the circuit at once and
-- restarts the timeout, whichever calls are in flight.
pub reached_half_open_failure :
    (config : Config) (n : ℕ) (s : System) (now e : ℕ)
    → Reach config n s
    → suc n < 2 ^ 64
    → config.success_threshold < 2 ^ 64
    → s.breaker.state ≡ state_half_open
    → ((settle now (some e) s.breaker).state ≡ state_open)
      × ((settle now (some e) s.breaker).last_failure_time ≡ now)
reached_half_open_failure config n s now e r w w' h =
    half_open_settle s.breaker now e (Reach-Inv config n s r (omega arith) w') w h
