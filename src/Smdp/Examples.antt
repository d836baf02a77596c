-- ===== src/Smdp/Examples.antt =====
-- Witnesses and tests for apps/carrier-connector/internal/smdp.
use telecom_platform.Base.{
  ℕ, zero, suc, ◌≡◌, refl, true, false, none, some, List, [], ◌∷◌, String, arith, lookup,
}
use telecom_platform.Smdp.{
  Carrier, CarrierMetrics, SmdpManager, healthy, degraded, update_carrier_health, evaluate_health,
}
use telecom_platform.Smdp.Download.{
  Answer, deadlocks, unheld, downloaded, download_with_retry, handle_failover,
}
use telecom_platform.Smdp.Attempt.{Ready, Returned}
use telecom_platform.Smdp.Retry.{download-retries}
use telecom_platform.Smdp.Failover.{tries_client, handle_failover_lem}
use telecom_platform.Smdp.Pairing.{Event, adds, removes, checks, counts}
use telecom_platform.Smdp.Health.{check_decides_selection}

abbrev metrics : CarrierMetrics
metrics = record {
  total_requests = 3;
  successful_requests = 2;
  failed_requests = 1;
  average_response_time = 10;
  last_error = "";
  last_error_time = 0;
}

abbrev named : String → Carrier
named id = record {
  id = id;
  name = "A";
  country_code = "KE";
  mcc = "639";
  mnc = "02";
  es2_base_url = some "https://es2";
  priority = 1;
  is_active = true;
  health_status = healthy;
  last_health_check = 0;
  metrics = some metrics;
}

abbrev manager : SmdpManager
manager = record {
  carriers = ("a", named "a") ∷ ("b", named "b") ∷ [];
  es2_clients = ("a", "https://es2") ∷ ("b", "https://es2") ∷ [];
  config = record { max_retries = 2; enable_failover = true };
}

abbrev ok : Answer
ok = record {
  error = none;
  execution_status = "done";
  status_message = "";
  response_time = 7;
  now = 100;
}

abbrev bad : Answer
bad = record {
  error = some "timeout";
  execution_status = "";
  status_message = "";
  response_time = 7;
  now = 100;
}

-- Carrier a fails at first, or for good; the others answer.
abbrev first_fails : String → ℕ → Answer
first_fails id zero = bad
first_fails id (suc n) = ok

abbrev all_fail : String → ℕ → Answer
all_fail id n = bad

a-Ready : Ready "a" metrics manager
unfolding lookup
a-Ready = record {
  client = "https://es2";
  has_client = refl;
  carrier = named "a";
  has_carrier = refl;
  has_metrics = refl;
}

download-retries_example :
    (after : CarrierMetrics) × Returned "a" after
      (downloaded "a" "done" "" [])
      manager
      (download_with_retry unheld first_fails "a" 2 0 manager)
    × (after.total_requests ≡ 5)
    × (after.failed_requests ≡ 2)
download-retries_example =
    download-retries first_fails "a" metrics manager 1 ok (omega arith) (("timeout", refl), tt) refl
      refl (omega arith) (omega arith) a-Ready

handle_failover_lem_example : handle_failover all_fail "a" manager ≡ deadlocks
unfolding tries_client lookup
handle_failover_lem_example = handle_failover_lem all_fail "a" manager

abbrev unsorted : List Carrier → List Carrier
unsorted carriers = carriers

abbrev events : List Event
events =
    adds (named "a")
    ∷ adds (named "b")
    ∷ counts "a" bad
    ∷ checks 5 "a" degraded
    ∷ removes "b"
    ∷ counts "b" ok
    ∷ []

check_decides_selection_example :
    lookup "b"
      (update_carrier_health 9 "a" (evaluate_health (λ f t. false) true 3 metrics) manager).carriers
    ≡ some (named "b")
unfolding lookup
check_decides_selection_example =
    (check_decides_selection (λ f t. false) true 3 9 "a" (named "a") metrics manager refl).1 "b"
      refl
