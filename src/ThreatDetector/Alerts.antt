-- ===== src/ThreatDetector/Alerts.antt =====
-- apps/carrier-connector/internal/security/threat_detection.go: how many alerts are raised.
use text.Mathlib.Text.{◌==◌ as str_eq}
use telecom_platform.Base.{ℕ, ◌-◌, ◌≡◌, String, lookup}
use telecom_platform.ThreatDetector.{
  ThreatDetector, ThreatDetectorConfig, brute_force, rate_limit_abuse, default_rules,
}
use telecom_platform.ThreatDetector.Handlers.{alerts, failed, asked}

-- A number of failed logins and of requests, in the tracker and in the alerts.
record Tally (config : ThreatDetectorConfig) (ip : String) (l r : ℕ) (td : ThreatDetector)
    : Type 0 where
  rules : td.rules ≡ default_rules config
  failed_count : failed (lookup ip td.ip_tracker) ≡ l
  asked_count : asked (lookup ip td.ip_tracker) ≡ r
  login_alerts : alerts brute_force ip td.events ≡ l - (config.max_failed_logins - 1)
  rate_alerts : alerts rate_limit_abuse ip td.events ≡ r - config.rate_limit_threshold
