-- ===== src/Smdp/Download.antt =====
-- apps/carrier-connector/internal/smdp/operations.go. `es2` gives the answer of the ES2+ server of a
-- carrier to an attempt. The average response time is computed without overflow. Logging, the delays
-- between attempts, the response times in a response and the request rate are left out.
use text.Mathlib.Text.{◌==◌ as str_eq}
use telecom_platform.Base.{
  ℕ, zero, suc, ◌+◌, ◌-◌, ◌*◌, ◌/◌, Bool, not, ◌||◌, Option, none, some, List, [], ◌∷◌, ◌++◌,
  String, ◌==◌, u64, if◌then◌else◌, Dict, lookup, insert,
}
use telecom_platform.Smdp.{Carrier, CarrierMetrics, SmdpManager, is_healthy, select_carrier}

-- What an ES2+ server answers to a download, and when.
pub record Answer : Type 0 where
  pub error : Option String
  pub execution_status : String
  pub status_message : String
  pub response_time : ℕ
  pub now : ℕ

-- A call returns, dereferences nil, or waits for ever for a lock.
pub data Outcome (A : Type 0) : Type 0 where
  returns : A → Outcome A
  panics deadlocks : Outcome A

abbrev pub and_then : {A B : Type 0} → Outcome A → (A → Outcome B) → Outcome B
and_then (returns a) f = f a
and_then panics f = panics
and_then deadlocks f = deadlocks

-- What the calling goroutine holds of `carriersMutex`, which is not reentrant.
pub data Held : Type 0 where
  unheld read_locked : Held

counted : Option String → ℕ → CarrierMetrics → CarrierMetrics
counted none now s = record s { successful_requests = u64 (s.successful_requests + 1) }
counted (some e) now s = record s {
  failed_requests = u64 (s.failed_requests + 1);
  last_error = e;
  last_error_time = now;
}

abbrev averaged : ℕ → CarrierMetrics → CarrierMetrics
averaged response_time s = record s {
  average_response_time =
      if s.total_requests == 1
      then response_time
      else (s.average_response_time * (s.total_requests - 1) + response_time) / s.total_requests;
}

unfoldable pub record_answer : Answer → CarrierMetrics → CarrierMetrics
unfolding counted
record_answer a s =
    averaged a.response_time
      (counted a.error a.now (record s { total_requests = u64 (s.total_requests + 1) }))

metrics_of : Answer → String → Carrier → Option CarrierMetrics → SmdpManager → Outcome SmdpManager
metrics_of a id c none m = panics
metrics_of a id c (some s) m =
    returns (record m {
      carriers = insert id (record c { metrics = some (record_answer a s) }) m.carriers;
    })

carrier_metrics : Answer → String → Option Carrier → SmdpManager → Outcome SmdpManager
unfolding metrics_of
carrier_metrics a id none m = returns m
carrier_metrics a id (some c) m = metrics_of a id c c.metrics m

-- It takes `carriersMutex` for writing.
unfoldable pub update_carrier_metrics : Held → String → Answer → SmdpManager → Outcome SmdpManager
unfolding carrier_metrics
update_carrier_metrics read_locked id a m = deadlocks
update_carrier_metrics unheld id a m = carrier_metrics a id (lookup id m.carriers) m

-- The pairs of a response and an error that the functions below return.
pub data Download : Type 0 where
  no_client selection_failed : Download
  download_failed : String → ℕ → String → Download
  downloaded : String → String → String → List String → Download
  exhausted : List String → Download

abbrev Next : Type 0
Next = String → SmdpManager → Outcome (SmdpManager × Download)

conclude : String → Answer → Option String → Next → SmdpManager → Outcome (SmdpManager × Download)
conclude id a none next m = returns (m, downloaded id a.execution_status a.status_message [])
conclude id a (some e) next m = next e m

-- One attempt, and `next` when it fails.
unfoldable pub attempt_download :
    Held → String → Answer → Option String → Next → SmdpManager → Outcome (SmdpManager × Download)
unfolding conclude
attempt_download held id a none next m = returns (m, no_client)
attempt_download held id a (some client) next m =
    and_then (update_carrier_metrics held id a m) (λ m'. conclude id a a.error next m')

-- `remaining` is what `attempt` lacks of `MaxRetries`.
unfoldable pub download_with_retry :
    Held → (String → ℕ → Answer) → String → ℕ → ℕ → SmdpManager → Outcome (SmdpManager × Download)
download_with_retry held es2 id zero attempt m =
    attempt_download held id (es2 id attempt) (lookup id m.es2_clients)
      (λ e m'. returns (m', download_failed id (attempt + 1) e)) m
download_with_retry held es2 id (suc remaining) attempt m =
    attempt_download held id (es2 id attempt) (lookup id m.es2_clients)
      (λ e m'. download_with_retry held es2 id remaining (attempt + 1) m') m

abbrev pub passed_over : String → String → Carrier → Bool
passed_over failed_id id c =
    str_eq id failed_id || not c.is_active || not (is_healthy c.health_status)

-- The loop of `handleFailover`, which holds the read lock throughout.
failover_next :
    Download
    → String
    → List String
    → (List String → SmdpManager → Outcome (SmdpManager × Download))
    → SmdpManager
    → Outcome (SmdpManager × Download)
failover_next (downloaded by status message _) id retried_on next m =
    returns (m, downloaded by status message retried_on)
failover_next _ id retried_on next m = next (retried_on ++ id ∷ []) m

unfoldable pub failover_loop :
    (String → ℕ → Answer)
    → String
    → Dict Carrier
    → List String
    → SmdpManager
    → Outcome (SmdpManager × Download)
unfolding failover_next
failover_loop es2 failed_id [] retried_on m = returns (m, exhausted retried_on)
failover_loop es2 failed_id ((id, c) ∷ carriers) retried_on m =
    if passed_over failed_id id c
    then failover_loop es2 failed_id carriers retried_on m
    else and_then (download_with_retry read_locked es2 c.id m.config.max_retries 0 m) (λ (m', d).
      failover_next d id retried_on (λ tried m''. failover_loop es2 failed_id carriers tried m'')
        m')

unfoldable pub handle_failover :
    (String → ℕ → Answer) → String → SmdpManager → Outcome (SmdpManager × Download)
unfolding failover_loop
handle_failover es2 failed_id m = failover_loop es2 failed_id m.carriers [] m

-- `DownloadProfile` after its first download, whose response is nil if there is no client.
finish_download :
    (String → ℕ → Answer) → String → Download → SmdpManager → Outcome (SmdpManager × Download)
finish_download es2 id no_client m =
    if m.config.enable_failover then handle_failover es2 id m else panics
finish_download es2 id (download_failed by attempts e) m =
    if m.config.enable_failover
    then handle_failover es2 id m
    else returns (m, download_failed by attempts e)
finish_download es2 id d m = returns (m, d)

download_selected :
    (String → ℕ → Answer) → Option Carrier → SmdpManager → Outcome (SmdpManager × Download)
unfolding finish_download
download_selected es2 none m = returns (m, selection_failed)
download_selected es2 (some c) m =
    and_then (download_with_retry unheld es2 c.id m.config.max_retries 0 m)
      (λ (m', d). finish_download es2 c.id d m')

unfoldable pub download_profile :
    (List Carrier → List Carrier)
    → (String → ℕ → Answer)
    → SmdpManager
    → Outcome (SmdpManager × Download)
unfolding download_selected
download_profile sort es2 m = download_selected es2 (select_carrier sort m) m
