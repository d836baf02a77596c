-- ===== src/AlertManager.antt =====
-- apps/api-server/internal/monitoring/alerting.go. Times and durations are nanoseconds. float64 is a
-- parameter `F` with the operations that this file uses. The health checks are parameters too: a
-- `Measures` is what they report. The notifiers, whose errors are always nil, are the list of the
-- notices given to them; logging is left out, and so is the ticker that calls `EvaluateRules`. The
-- two readings of the clock for a new alert are one.
pub mod Transitions
pub mod Rounds
mod Examples
use text.Mathlib.Text.{◌==◌ as str_eq}
use telecom_platform.Base.{
  ℕ, ◌*◌, Bool, true, false, not, ◌&&◌, ◌||◌, Option, none, some, List, [], ◌∷◌, ◌++◌, String, ◌==◌,
  if◌then◌else◌, Dict, lookup, insert, delete,
}

pub data AlertSeverity : Type 0 where
  info warning critical : AlertSeverity

pub data AlertStatus : Type 0 where
  firing resolved silenced : AlertStatus

abbrev pub is_firing : AlertStatus → Bool
is_firing firing = true
is_firing _ = false

abbrev pub is_resolved : AlertStatus → Bool
is_resolved resolved = true
is_resolved _ = false

pub record Alert : Type 0 where
  pub id : String
  pub name : String
  pub description : String
  pub severity : AlertSeverity
  pub status : AlertStatus
  pub timestamp : ℕ
  pub labels : Dict String
  pub annotations : Dict String
  pub last_evaluated : ℕ

pub record AlertRule (F : Type 0) : Type 0 where
  pub id : String
  pub name : String
  pub description : String
  pub severity : AlertSeverity
  pub query : String
  pub threshold : F
  pub duration : ℕ
  pub labels : Dict String
  pub enabled : Bool

pub record AlertManager (F : Type 0) : Type 0 where
  pub rules : Dict (AlertRule F)
  pub alerts : Dict Alert

-- What a notifier is given.
pub data Notice : Type 0 where
  sent : Alert → Notice
  cleared : String → Notice

pub data HealthStatus : Type 0 where
  healthy degraded unhealthy other_health : HealthStatus

-- What the health monitor and the system's checker report to one evaluation: the status, the pool's
-- open and used connections, the memory in use and the goroutines; `none` where an entry is missing.
pub record Health : Type 0 where
  pub status : HealthStatus
  pub database : Option (Option ℕ × Option ℕ)

pub record Measures (F : Type 0) : Type 0 where
  pub monitor : Option Health
  pub memory : Option F
  pub goroutines : Option ℕ

-- The operations on float64: `>=`, the conversion of an int, a quotient as a percentage, and the
-- two formats.
pub record Floats (F : Type 0) : Type 0 where
  pub geq : F → F → Bool
  pub of_int : ℕ → F
  pub percentage : ℕ → ℕ → F
  pub two_digits : F → String
  pub describe : String → F → F → String

pub data Evaluation (F : Type 0) : Type 0 where
  failed : Evaluation F
  evaluated : Bool → F → Evaluation F

abbrev minute : ℕ
minute = 60 * 1000000000

unfoldable pub new_alert_manager : {F : Type 0} → AlertManager F
new_alert_manager = record { rules = []; alerts = [] }

unfoldable pub add_rule : {F : Type 0} → AlertRule F → AlertManager F → AlertManager F
add_rule rule am = record am { rules = insert rule.id rule am.rules }

unfoldable pub remove_rule : {F : Type 0} → String → AlertManager F → AlertManager F
remove_rule id am = record am { rules = delete id am.rules; alerts = delete id am.alerts }

abbrev pub health_value : HealthStatus → ℕ
health_value healthy = 0
health_value degraded = 1
health_value unhealthy = 2
health_value other_health = 0

abbrev pub not_resolved : Option Alert → Bool
not_resolved none = false
not_resolved (some alert) = not (is_resolved alert.status)

module _ {F : Type 0} (float : Floats F) where
  abbrev compared : AlertRule F → F → Evaluation F
  compared rule value = evaluated (float.geq value rule.threshold) value

  unfoldable pub evaluate_health_check : AlertRule F → Option Health → Evaluation F
  evaluate_health_check rule none = failed
  evaluate_health_check rule (some health) =
      compared rule (float.of_int (health_value health.status))

  abbrev or_zero : Option F → F
  or_zero none = float.of_int 0
  or_zero (some value) = value

  unfoldable pub evaluate_system_memory : AlertRule F → Measures F → Evaluation F
  evaluate_system_memory rule m = compared rule (or_zero m.memory)

  abbrev count_or_zero : Option ℕ → F
  count_or_zero none = float.of_int 0
  count_or_zero (some n) = float.of_int n

  unfoldable pub evaluate_system_goroutines : AlertRule F → Measures F → Evaluation F
  evaluate_system_goroutines rule m = compared rule (count_or_zero m.goroutines)

  pool_evaluation : AlertRule F → Option (Option ℕ × Option ℕ) → Evaluation F
  pool_evaluation rule none = failed
  pool_evaluation rule (some (some open_conns, some in_use)) =
      if open_conns == 0
      then evaluated false (float.of_int 0)
      else compared rule (float.percentage in_use open_conns)
  pool_evaluation rule (some (some open_conns, none)) = evaluated false (float.of_int 0)
  pool_evaluation rule (some (none, in_use)) = evaluated false (float.of_int 0)

  unfoldable pub evaluate_database_connections : AlertRule F → Option Health → Evaluation F
  unfolding pool_evaluation
  evaluate_database_connections rule none = failed
  evaluate_database_connections rule (some health) = pool_evaluation rule health.database

  unfoldable pub evaluate_rule : Measures F → AlertRule F → Evaluation F
  unfolding evaluate_health_check evaluate_system_memory evaluate_system_goroutines
      evaluate_database_connections
  evaluate_rule m rule =
      if str_eq rule.query "health_check"
      then evaluate_health_check rule m.monitor
      else if str_eq rule.query "system_memory"
      then evaluate_system_memory rule m
      else if str_eq rule.query "system_goroutines"
      then evaluate_system_goroutines rule m
      else if str_eq rule.query "database_connections"
      then evaluate_database_connections rule m.monitor
      else failed

  abbrev pub new_alert : ℕ → AlertRule F → F → Alert
  new_alert now rule value = record {
    id = rule.id;
    name = rule.name;
    description = float.describe rule.description value rule.threshold;
    severity = rule.severity;
    status = firing;
    timestamp = now;
    labels = rule.labels;
    annotations =
        ("threshold", float.two_digits rule.threshold)
        ∷ ("value", float.two_digits value)
        ∷ ("query", rule.query)
        ∷ [];
    last_evaluated = now;
  }

  fire : ℕ → AlertRule F → F → AlertManager F → AlertManager F × List Notice
  fire now rule value am =
      let alert = new_alert now rule value in
      (record am { alerts = insert rule.id alert am.alerts }, sent alert ∷ [])

  resolve_found : ℕ → AlertRule F → Option Alert → AlertManager F → AlertManager F × List Notice
  resolve_found now rule none am = (am, [])
  resolve_found now rule (some alert) am =
      if is_firing alert.status
      then (
        record am {
          alerts =
              insert rule.id (record alert { status = resolved; last_evaluated = now }) am.alerts;
        },
        cleared alert.id ∷ [],
      )
      else (am, [])

  -- The two branches; the alert that is found is the one the map holds, and changes in place.
  unfoldable pub handle_rule_evaluation :
      ℕ → AlertRule F → Bool → F → AlertManager F → AlertManager F × List Notice
  unfolding fire resolve_found
  handle_rule_evaluation now rule should value am =
      if should
      then (if not_resolved (lookup rule.id am.alerts) then (am, []) else fire now rule value am)
      else resolve_found now rule (lookup rule.id am.alerts) am

  unfoldable pub handle_evaluation :
      ℕ → AlertRule F → Evaluation F → AlertManager F → AlertManager F × List Notice
  unfolding handle_rule_evaluation
  handle_evaluation now rule failed am = (am, [])
  handle_evaluation now rule (evaluated should value) am =
      handle_rule_evaluation now rule should value am

  -- One turn of the loop of `EvaluateRules`.
  unfoldable pub evaluate_one :
      ℕ → Measures F → AlertRule F → AlertManager F → AlertManager F × List Notice
  unfolding handle_evaluation
  evaluate_one now m rule am =
      if rule.enabled then handle_evaluation now rule (evaluate_rule m rule) am else (am, [])

  -- The loop over the copied rules; `m` gives what the checks report for each rule.
  unfoldable pub evaluate_all :
      ℕ → (String → Measures F) → Dict (AlertRule F) → AlertManager F → AlertManager F × List Notice
  evaluate_all now m [] am = (am, [])
  evaluate_all now m ((key, rule) ∷ rules) am =
      let (am', notices) = evaluate_one now (m key) rule am in
      let (am'', later) = evaluate_all now m rules am' in (am'', notices ++ later)

  unfoldable pub evaluate_rules :
      ℕ → (String → Measures F) → AlertManager F → AlertManager F × List Notice
  evaluate_rules now m am = evaluate_all now m am.rules am

  default_rule : String → String → String → String → ℕ → Dict String → AlertRule F
  default_rule id name description query threshold labels = record {
    id = id;
    name = name;
    description = description;
    severity = warning;
    query = query;
    threshold = float.of_int threshold;
    duration = 5 * minute;
    labels = labels;
    enabled = true;
  }

  unfoldable pub initialize_alert_manager : AlertManager F
  unfolding default_rule
  initialize_alert_manager =
      add_rule
        (default_rule "high_goroutine_count" "High Goroutine Count" "System has too many goroutines"
          "system_goroutines" 1000 (("component", "system") ∷ ("metric", "goroutines") ∷ []))
        (add_rule
          (default_rule "high_memory_usage" "High Memory Usage" "System memory usage is high"
            "system_memory" 80 (("component", "system") ∷ ("metric", "memory") ∷ []))
          (add_rule
            (default_rule "system_health" "System Health Check"
              "System health is degraded or unhealthy" "health_check" 1
              (("component", "system") ∷ ("check", "health") ∷ []))
            new_alert_manager))
