-- ===== src/CircuitBreaker.antt =====
-- apps/api-server/internal/circuitbreaker/circuitbreaker.go. Times and durations are nanoseconds;
-- `uint` counters wrap at 2 ^ 64. `Execute` holds the mutex twice, before and after the call of the
-- protected function: `admit` and `settle` are these two critical sections.
pub mod Sequential
pub mod Interleaving
mod Examples
use telecom_platform.Base.{
  ℕ, ◌+◌, ◌*◌, ◌^◌, Bool, true, false, Option, none, some, not, ◌&&◌, ltb, leb, if◌then◌else◌, u64,
  String,
}

pub data State : Type 0 where
  state_closed state_open state_half_open : State

-- The three names of `String()`; its default case is for numbers that no code makes a `State` of.
pub string : State → String
string state_closed = "Closed"
string state_open = "Open"
string state_half_open = "HalfOpen"

pub record CircuitBreaker : Type 0 where
  pub state : State
  pub failure_count : ℕ
  pub failure_threshold : ℕ
  pub success_threshold : ℕ
  pub timeout : ℕ
  pub last_failure_time : ℕ
  pub half_open_successes : ℕ

pub record Config : Type 0 where
  pub failure_threshold : ℕ
  pub success_threshold : ℕ
  pub timeout : ℕ

unfoldable pub new_circuit_breaker : Config → CircuitBreaker
new_circuit_breaker config = record {
  state = state_closed;
  failure_count = 0;
  failure_threshold = config.failure_threshold;
  success_threshold = config.success_threshold;
  timeout = config.timeout;
  last_failure_time = 0;
  half_open_successes = 0;
}

abbrev pub second : ℕ
second = 1000000000

unfoldable pub default_config : Config
default_config = record { failure_threshold = 5; success_threshold = 2; timeout = 60 * second }

-- `time.Since(lastFailureTime) > timeout`.
abbrev expired : ℕ → CircuitBreaker → Bool
expired now cb = ltb (cb.last_failure_time + cb.timeout) now

abbrev is_open : State → Bool
is_open state_open = true
is_open _ = false

-- Open turns to half-open when the timeout has passed.
unfoldable pub refresh : ℕ → CircuitBreaker → CircuitBreaker
refresh now cb =
    if is_open cb.state && expired now cb
    then record cb { state = state_half_open; half_open_successes = 0 }
    else cb

-- The first critical section of `Execute`: `true` lets the call through.
unfoldable pub admit : ℕ → CircuitBreaker → CircuitBreaker × Bool
unfolding refresh
admit now cb = let cb' = refresh now cb in (cb', not (is_open cb'.state))

unfoldable pub on_failure : ℕ → CircuitBreaker → CircuitBreaker
on_failure now cb =
    let cb' = record cb { failure_count = u64 (cb.failure_count + 1); last_failure_time = now } in
    if leb cb'.failure_threshold cb'.failure_count then record cb' { state = state_open } else cb'

-- The two tests of the state in `onSuccess`.
succeed_in : State → CircuitBreaker → CircuitBreaker
succeed_in state_closed cb = record cb { failure_count = 0 }
succeed_in state_open cb = cb
succeed_in state_half_open cb =
    let cb' = record cb { half_open_successes = u64 (cb.half_open_successes + 1) } in
    if leb cb'.success_threshold cb'.half_open_successes
    then record cb' { state = state_closed; failure_count = 0 }
    else cb'

unfoldable pub on_success : CircuitBreaker → CircuitBreaker
unfolding succeed_in
on_success cb = succeed_in cb.state cb

module _ {E : Type 0} where
  -- The second critical section of `Execute`, on the error of the protected function.
  unfoldable pub settle : ℕ → Option E → CircuitBreaker → CircuitBreaker
  unfolding on_failure on_success
  settle now none cb = on_success cb
  settle now (some e) cb = on_failure now cb

pub data ExecuteError (E : Type 0) : Type 0 where
  breaker_open : ExecuteError E
  call_failed : E → ExecuteError E

abbrev pub call_result : {E : Type 0} → Option E → Option (ExecuteError E)
call_result none = none
call_result (some e) = some (call_failed e)

module _ {E : Type 0} where
  -- `Execute` when nothing else happens during the call: it starts at `start` and its function
  -- ends at `end` with the error `outcome`.
  unfoldable pub execute :
      ℕ → ℕ → Option E → CircuitBreaker → CircuitBreaker × Option (ExecuteError E)
  unfolding admit settle
  execute start end outcome cb =
      let (cb', allowed) = admit start cb in
      if allowed then (settle end outcome cb', call_result outcome) else (cb', some breaker_open)

pub get_state : CircuitBreaker → State
get_state cb = cb.state

unfoldable pub reset : CircuitBreaker → CircuitBreaker
reset cb = record cb { state = state_closed; failure_count = 0; half_open_successes = 0 }
