-- ===== src/CarrierBreaker.antt =====
-- apps/carrier-connector/internal/infra/circuitbreaker.go. Times and durations are nanoseconds, an
-- `int` is its bit pattern below 2 ^ 64. The callback is seen through the calls that it got, newest
-- first. `allowRequest` decides under the read lock, and gives that up before it takes the write
-- lock to go half-open: `check` and `upgrade` are the two critical sections.
pub mod Sequential
pub mod Interleaving
pub mod Race
mod Examples
use telecom_platform.Base.{
  ℕ, ◌+◌, ◌*◌, ◌^◌, Bool, true, false, Option, none, some, List, [], ◌∷◌, ltb, int_leb, u64, String,
  if◌then◌else◌,
}

pub data CircuitState : Type 0 where
  state_closed state_open state_half_open : CircuitState

pub CircuitState-discrete : Discrete CircuitState
CircuitState-discrete = hlevel

unfoldable pub string : CircuitState → String
string state_closed = "closed"
string state_open = "open"
string state_half_open = "half-open"

pub record CircuitBreakerConfig : Type 0 where
  pub failure_threshold : ℕ
  pub success_threshold : ℕ
  pub timeout : ℕ
  pub half_open_max_calls : ℕ

pub record Change : Type 0 where
  pub name : String
  pub from : CircuitState
  pub to : CircuitState

pub record CircuitBreaker : Type 0 where
  pub name : String
  pub state : CircuitState
  pub failure_count : ℕ
  pub success_count : ℕ
  pub last_failure : ℕ
  pub config : CircuitBreakerConfig
  pub has_callback : Bool
  pub changes : List Change

abbrev pub second : ℕ
second = 1000000000

unfoldable pub default_circuit_breaker_config : CircuitBreakerConfig
default_circuit_breaker_config = record {
  failure_threshold = 5;
  success_threshold = 3;
  timeout = 30 * second;
  half_open_max_calls = 3;
}

unfoldable pub new_circuit_breaker : String → CircuitBreakerConfig → CircuitBreaker
new_circuit_breaker name config = record {
  name = name;
  state = state_closed;
  failure_count = 0;
  success_count = 0;
  last_failure = 0;
  config = config;
  has_callback = false;
  changes = [];
}

-- `OnStateChange` with a callback.
unfoldable pub on_state_change : CircuitBreaker → CircuitBreaker
on_state_change cb = record cb { has_callback = true }

abbrev pub same_state : CircuitState → CircuitState → Bool
same_state state_closed state_closed = true
same_state state_open state_open = true
same_state state_half_open state_half_open = true
same_state _ _ = false

unfoldable pub transition_to : CircuitState → CircuitBreaker → CircuitBreaker
transition_to state cb = if same_state cb.state state then cb else record cb {
  state = state;
  failure_count = 0;
  success_count = 0;
  changes =
      if cb.has_callback
      then record { name = cb.name; from = cb.state; to = state } ∷ cb.changes
      else cb.changes;
}

pub data Decision : Type 0 where
  allowed denied half_open_first : Decision

check_in : CircuitState → ℕ → CircuitBreaker → Decision
check_in state_closed now cb = allowed
check_in state_open now cb =
    if ltb (cb.last_failure + cb.config.timeout) now then half_open_first else denied
check_in state_half_open now cb = allowed

-- `allowRequest` under the read lock.
unfoldable pub check : ℕ → CircuitBreaker → Decision
unfolding check_in
check now cb = check_in cb.state now cb

-- `allowRequest` under the write lock, where it comes to that.
unfoldable pub upgrade : CircuitBreaker → CircuitBreaker
unfolding transition_to
upgrade cb = transition_to state_half_open cb

-- `allowRequest` when nothing else happens between the two locks.
unfoldable pub allow_request : ℕ → CircuitBreaker → CircuitBreaker × Bool
unfolding check upgrade
allow_request now cb = elim (check now cb) [
  | allowed ↦ (cb, true)
  | denied ↦ (cb, false)
  | half_open_first ↦ (upgrade cb, true)
]

failed_in : CircuitState → CircuitBreaker → CircuitBreaker
unfolding transition_to
failed_in state_closed cb =
    if int_leb cb.config.failure_threshold cb.failure_count then transition_to state_open cb else cb
failed_in state_open cb = cb
failed_in state_half_open cb = transition_to state_open cb

unfoldable pub record_failure : ℕ → CircuitBreaker → CircuitBreaker
unfolding failed_in
record_failure now cb =
    failed_in cb.state
      (record cb { failure_count = u64 (cb.failure_count + 1); last_failure = now })

succeeded_in : CircuitState → CircuitBreaker → CircuitBreaker
unfolding transition_to
succeeded_in state_closed cb = record cb { failure_count = 0 }
succeeded_in state_open cb = cb
succeeded_in state_half_open cb =
    if int_leb cb.config.success_threshold cb.success_count
    then transition_to state_closed cb
    else cb

unfoldable pub record_success : CircuitBreaker → CircuitBreaker
unfolding succeeded_in
record_success cb = succeeded_in cb.state (record cb { success_count = u64 (cb.success_count + 1) })

module _ {E : Type 0} where
  unfoldable pub record_result : ℕ → Option E → CircuitBreaker → CircuitBreaker
  unfolding record_failure record_success
  record_result now none cb = record_success cb
  record_result now (some e) cb = record_failure now cb

pub data CallError (E : Type 0) : Type 0 where
  circuit_open : CallError E
  call_error : E → CallError E

module _ {E : Type 0} where
  abbrev pub of_call : Option E → Option (CallError E)
  of_call none = none
  of_call (some e) = some (call_error e)

  -- `fn` starts at `start` and ends at `end` with the error `outcome`.
  unfoldable pub execute : ℕ → ℕ → Option E → CircuitBreaker → CircuitBreaker × Option (CallError E)
  unfolding allow_request record_result
  execute start end outcome cb =
      let (cb', let_through) = allow_request start cb in
      if let_through
      then (record_result end outcome cb', of_call outcome)
      else (cb', some circuit_open)

  -- What the fallback returns, if there is one, or else the error at hand.
  abbrev or_fallback : Option (Option E) → Option (CallError E) → Option (CallError E)
  or_fallback none err = err
  or_fallback (some result) err = of_call result

  abbrev failed : Option E → Bool
  failed none = false
  failed (some e) = true

  -- `fallback` is `none` for nil, and otherwise what the fallback function would return.
  unfoldable pub execute_with_fallback :
      ℕ → ℕ → Option E → Option (Option E) → CircuitBreaker → CircuitBreaker × Option (CallError E)
  unfolding allow_request record_result
  execute_with_fallback start end outcome fallback cb =
      let (cb', let_through) = allow_request start cb in
      if let_through
      then (
        record_result end outcome cb',
        (if failed outcome then or_fallback fallback (of_call outcome) else of_call outcome),
      )
      else (cb', or_fallback fallback (some circuit_open))

pub get_state : CircuitBreaker → CircuitState
get_state cb = cb.state

pub record CircuitBreakerStats : Type 0 where
  pub name : String
  pub state : String
  pub failure_count : ℕ
  pub success_count : ℕ
  pub last_failure : ℕ

pub stats : CircuitBreaker → CircuitBreakerStats
unfolding string
stats cb = record {
  name = cb.name;
  state = string cb.state;
  failure_count = cb.failure_count;
  success_count = cb.success_count;
  last_failure = cb.last_failure;
}
