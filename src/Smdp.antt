-- ===== src/Smdp.antt =====
-- apps/carrier-connector/internal/smdp/manager.go, health_checker.go, selection_main.go.
-- Times and durations are nanoseconds; a uint64 counter is below 2 ^ 64; the number of retries is not
-- negative. The list of carriers is in the order in which `range` visits the map, each under its
-- identifier. Logging, the profile store, capabilities and the request rate are left out; the float64
-- scores and the sort by them are one parameter.
pub mod Download
pub mod Attempt
pub mod Retry
pub mod Failover
pub mod Pairing
pub mod Health
mod Examples
use text.Mathlib.Text.{◌==◌ as str_eq}
use telecom_platform.Base.{
  ℕ, zero, suc, ◌+◌, ◌-◌, ◌*◌, ◌/◌, Bool, true, false, not, ◌&&◌, ◌||◌, Option, none, some, List,
  [], ◌∷◌, ◌++◌, String, ltb, ◌==◌, keep, u64, if◌then◌else◌, Dict, lookup, insert, delete,
}

pub data CarrierHealthStatus : Type 0 where
  healthy degraded unhealthy unknown : CarrierHealthStatus

abbrev pub is_healthy : CarrierHealthStatus → Bool
is_healthy healthy = true
is_healthy _ = false

pub record CarrierMetrics : Type 0 where
  pub total_requests : ℕ
  pub successful_requests : ℕ
  pub failed_requests : ℕ
  pub average_response_time : ℕ
  pub last_error : String
  pub last_error_time : ℕ

-- `es2_base_url` is `none` for a nil configuration, and `metrics` for a nil pointer.
pub record Carrier : Type 0 where
  pub id : String
  pub name : String
  pub country_code : String
  pub mcc : String
  pub mnc : String
  pub es2_base_url : Option String
  pub priority : ℕ
  pub is_active : Bool
  pub health_status : CarrierHealthStatus
  pub last_health_check : ℕ
  pub metrics : Option CarrierMetrics

pub record ManagerConfig : Type 0 where
  pub max_retries : ℕ
  pub enable_failover : Bool

-- A client is the base URL it was made with.
pub record SmdpManager : Type 0 where
  pub carriers : Dict Carrier
  pub es2_clients : Dict String
  pub config : ManagerConfig

unfoldable pub new_smdp_manager : ManagerConfig → SmdpManager
new_smdp_manager config = record { carriers = []; es2_clients = []; config = config }

-- The base URL of a carrier that passes; `none` is an error.
checked_url : Option String → Option String
checked_url none = none
checked_url (some url) = if str_eq url "" then none else some url

unfoldable pub validate_carrier : Carrier → Option String
unfolding checked_url
validate_carrier c =
    if str_eq c.id "" || str_eq c.name "" || str_eq c.mcc "" || str_eq c.mnc ""
    then none
    else checked_url c.es2_base_url

add_valid : Carrier → Option String → SmdpManager → Option SmdpManager
add_valid c none m = none
add_valid c (some url) m =
    some (record m {
      carriers = insert c.id c m.carriers;
      es2_clients = insert c.id url m.es2_clients;
    })

unfoldable pub add_carrier : Carrier → SmdpManager → Option SmdpManager
unfolding add_valid
add_carrier c m = add_valid c (validate_carrier c) m

remove_found : String → Option Carrier → SmdpManager → Option SmdpManager
remove_found id none m = none
remove_found id (some c) m =
    some (record m { carriers = delete id m.carriers; es2_clients = delete id m.es2_clients })

unfoldable pub remove_carrier : String → SmdpManager → Option SmdpManager
unfolding remove_found
remove_carrier id m = remove_found id (lookup id m.carriers) m

update_found : ℕ → String → CarrierHealthStatus → Option Carrier → SmdpManager → SmdpManager
update_found now id status none m = m
update_found now id status (some c) m = record m {
  carriers = insert id (record c { health_status = status; last_health_check = now }) m.carriers;
}

unfoldable pub update_carrier_health : ℕ → String → CarrierHealthStatus → SmdpManager → SmdpManager
unfolding update_found
update_carrier_health now id status m = update_found now id status (lookup id m.carriers) m

abbrev pub five_seconds : ℕ
five_seconds = 5 * 1000000000

-- `high_error_rate failed total` is the float64 test `failed / total > 0.1`.
unfoldable pub evaluate_health : (ℕ → ℕ → Bool) → Bool → ℕ → CarrierMetrics → CarrierHealthStatus
evaluate_health high_error_rate failed response_time metrics =
    if failed
    then (if ltb 5 metrics.failed_requests then unhealthy else degraded)
    else if ltb five_seconds response_time
    then degraded
    else if ltb 0 metrics.total_requests
        && high_error_rate metrics.failed_requests metrics.total_requests
    then degraded
    else healthy

-- The carriers that may be selected.
abbrev pub selectable : Carrier → Bool
selectable c = c.is_active && is_healthy c.health_status

unfoldable pub healthy_carriers : Dict Carrier → List Carrier
healthy_carriers [] = []
healthy_carriers ((id, c) ∷ carriers) =
    let rest = healthy_carriers carriers in if selectable c then c ∷ rest else rest

abbrev first : List Carrier → Option Carrier
first [] = none
first (c ∷ rest) = some c

-- `sort` puts the carriers in descending order of their scores.
unfoldable pub select_optimal_carrier :
    (List Carrier → List Carrier) → List Carrier → Option Carrier
select_optimal_carrier sort carriers = first (sort (keep selectable carriers))

unfoldable pub select_carrier : (List Carrier → List Carrier) → SmdpManager → Option Carrier
unfolding select_optimal_carrier
select_carrier sort m = select_optimal_carrier sort (healthy_carriers m.carriers)
