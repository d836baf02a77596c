-- ===== src/ThreatDetector.antt =====
-- apps/carrier-connector/internal/security/threat_detection.go. Times and durations are nanoseconds;
-- the int counters count up from 0 and are natural numbers, and so are the thresholds and the limit
-- of events, which are not negative. Logging, the alert handler, the context and an event's metadata,
-- identifier and tenant, which this file leaves empty, are left out. `cleanup` runs in a ticker's loop.
pub mod Handlers
pub mod Alerts
pub mod Blocking
pub mod Injection
mod Examples
use text.Mathlib.Text.{◌==◌ as str_eq}
use telecom_platform.Base.{
  ℕ, ◌+◌, ◌-◌, ◌*◌, Bool, true, false, not, ◌&&◌, Option, none, some, List, [], ◌∷◌, ◌++◌, String,
  ltb, leb, drop, length, if◌then◌else◌, Dict, lookup, insert, delete_if,
}

pub data ThreatLevel : Type 0 where
  low medium high critical : ThreatLevel

pub data ThreatType : Type 0 where
  brute_force rate_limit_abuse sql_injection xss unauthorized data_exfil anomalous : ThreatType

unfoldable pub same_type : ThreatType → ThreatType → Bool
same_type brute_force brute_force = true
same_type rate_limit_abuse rate_limit_abuse = true
same_type sql_injection sql_injection = true
same_type xss xss = true
same_type unauthorized unauthorized = true
same_type data_exfil data_exfil = true
same_type anomalous anomalous = true
same_type _ _ = false

pub record ThreatEvent : Type 0 where
  pub kind : ThreatType
  pub level : ThreatLevel
  pub source : String
  pub target : String
  pub description : String
  pub detected_at : ℕ

pub record IpActivity : Type 0 where
  pub ip : String
  pub failed_logins : ℕ
  pub request_count : ℕ
  pub last_request : ℕ
  pub first_seen : ℕ
  pub suspicious_count : ℕ

pub record DetectionRule : Type 0 where
  pub id : String
  pub name : String
  pub kind : ThreatType
  pub threshold : ℕ
  pub window : ℕ
  pub level : ThreatLevel
  pub enabled : Bool

pub record ThreatDetector : Type 0 where
  pub rules : List DetectionRule
  pub events : List ThreatEvent
  pub ip_tracker : Dict IpActivity

pub record ThreatDetectorConfig : Type 0 where
  pub max_failed_logins : ℕ
  pub rate_limit_threshold : ℕ

unfoldable pub default_threat_detector_config : ThreatDetectorConfig
default_threat_detector_config = record { max_failed_logins = 5; rate_limit_threshold = 1000 }

abbrev pub minute : ℕ
minute = 60 * 1000000000

abbrev pub hour : ℕ
hour = 60 * minute

unfoldable pub default_rules : ThreatDetectorConfig → List DetectionRule
default_rules config =
    record {
      id = "brute_force_login";
      name = "Brute Force Login Detection";
      kind = brute_force;
      threshold = config.max_failed_logins;
      window = 5 * minute;
      level = high;
      enabled = true;
    }
    ∷ record {
      id = "rate_limit_abuse";
      name = "Rate Limit Abuse Detection";
      kind = rate_limit_abuse;
      threshold = config.rate_limit_threshold;
      window = minute;
      level = medium;
      enabled = true;
    }
    ∷ []

unfoldable pub new_threat_detector : ThreatDetectorConfig → ThreatDetector
unfolding default_rules
new_threat_detector config = record { rules = default_rules config; events = []; ip_tracker = [] }

unfoldable pub raise_alert : ThreatEvent → ThreatDetector → ThreatDetector
raise_alert event td = record td { events = td.events ++ event ∷ [] }

-- The readings of the clock in a handler: two for the activity, one for each event it raises.
pub record Readings : Type 0 where
  pub created : ℕ
  pub request : ℕ
  pub detected : ℕ

abbrev new_activity : ℕ → String → IpActivity
new_activity created ip = record {
  ip = ip;
  failed_logins = 0;
  request_count = 0;
  last_request = 0;
  first_seen = created;
  suspicious_count = 0;
}

found_or_new : ℕ → String → Option IpActivity → IpActivity
found_or_new created ip none = new_activity created ip
found_or_new created ip (some a) = a

unfoldable pub activity_of : ℕ → String → ThreatDetector → IpActivity
unfolding found_or_new
activity_of created ip td = found_or_new created ip (lookup ip td.ip_tracker)

abbrev store : String → IpActivity → ThreatDetector → ThreatDetector
store ip a td = record td { ip_tracker = insert ip a td.ip_tracker }

-- The loop over the rules of one type: `crosses` compares the count with a rule's threshold.
unfoldable pub check_rules :
    ThreatType
    → (ℕ → Bool)
    → (DetectionRule → ThreatEvent)
    → List DetectionRule
    → ThreatDetector
    → ThreatDetector
unfolding raise_alert
check_rules kind crosses event [] td = td
check_rules kind crosses event (rule ∷ rules) td = check_rules kind crosses event rules (
    if same_type rule.kind kind && rule.enabled && crosses rule.threshold
    then raise_alert (event rule) td
    else td)

abbrev pub rate_event : ℕ → String → String → DetectionRule → ThreatEvent
rate_event detected ip path rule = record {
  kind = rate_limit_abuse;
  level = rule.level;
  source = ip;
  target = path;
  description = "Rate limit threshold exceeded";
  detected_at = detected;
}

unfoldable pub record_request : Readings → String → String → ThreatDetector → ThreatDetector
record_request at ip path td =
    let a = activity_of at.created ip td in
    let n = a.request_count + 1 in
    check_rules rate_limit_abuse (λ threshold. ltb threshold n) (rate_event at.detected ip path)
      td.rules (store ip (record a { request_count = n; last_request = at.request }) td)

abbrev pub login_event : ℕ → String → String → DetectionRule → ThreatEvent
login_event detected ip user_id rule = record {
  kind = brute_force;
  level = rule.level;
  source = ip;
  target = user_id;
  description = "Multiple failed login attempts detected";
  detected_at = detected;
}

unfoldable pub record_failed_login : Readings → String → String → ThreatDetector → ThreatDetector
record_failed_login at ip user_id td =
    let a = activity_of at.created ip td in
    let n = a.failed_logins + 1 in
    check_rules brute_force (λ threshold. leb threshold n) (login_event at.detected ip user_id)
      td.rules (store ip (record a { failed_logins = n; last_request = at.request }) td)

-- A string is its list of bytes here; only its length is looked at.
unfoldable pub contains_ignore_case : List ℕ → List ℕ → Bool
contains_ignore_case s substr = leb (length substr) (length s)

-- The patterns, as bytes: '--  '; DROP  1=1  OR 1=1  UNION SELECT  '; DELETE  '; UPDATE  '; INSERT
abbrev pub patterns : List (List ℕ)
patterns =
    (39 ∷ 45 ∷ 45 ∷ [])
    ∷ (39 ∷ 59 ∷ 32 ∷ 68 ∷ 82 ∷ 79 ∷ 80 ∷ [])
    ∷ (49 ∷ 61 ∷ 49 ∷ [])
    ∷ (79 ∷ 82 ∷ 32 ∷ 49 ∷ 61 ∷ 49 ∷ [])
    ∷ (85 ∷ 78 ∷ 73 ∷ 79 ∷ 78 ∷ 32 ∷ 83 ∷ 69 ∷ 76 ∷ 69 ∷ 67 ∷ 84 ∷ [])
    ∷ (39 ∷ 59 ∷ 32 ∷ 68 ∷ 69 ∷ 76 ∷ 69 ∷ 84 ∷ 69 ∷ [])
    ∷ (39 ∷ 59 ∷ 32 ∷ 85 ∷ 80 ∷ 68 ∷ 65 ∷ 84 ∷ 69 ∷ [])
    ∷ (39 ∷ 59 ∷ 32 ∷ 73 ∷ 78 ∷ 83 ∷ 69 ∷ 82 ∷ 84 ∷ [])
    ∷ []

abbrev pub sql_event : ℕ → String → ThreatEvent
sql_event detected ip = record {
  kind = sql_injection;
  level = critical;
  source = ip;
  target = "";
  description = "SQL injection attempt detected";
  detected_at = detected;
}

unfoldable pub match_patterns :
    ℕ → String → List ℕ → List (List ℕ) → ThreatDetector → ThreatDetector × Bool
unfolding contains_ignore_case raise_alert
match_patterns detected ip input [] td = (td, false)
match_patterns detected ip input (pattern ∷ rest) td =
    if contains_ignore_case input pattern
    then (raise_alert (sql_event detected ip) td, true)
    else match_patterns detected ip input rest td

unfoldable pub detect_sql_injection : ℕ → String → List ℕ → ThreatDetector → ThreatDetector × Bool
unfolding match_patterns
detect_sql_injection detected ip input td = match_patterns detected ip input patterns td

unfoldable pub get_recent_events : ℕ → ThreatDetector → List ThreatEvent
get_recent_events limit td =
    if leb (length td.events) limit then td.events else drop (length td.events - limit) td.events

unfoldable pub get_ip_activity : String → ThreatDetector → Option IpActivity
get_ip_activity ip td = lookup ip td.ip_tracker

block_found : String → Option IpActivity → ThreatDetector → ThreatDetector
block_found ip none td = td
block_found ip (some a) td = store ip (record a { suspicious_count = 999 }) td

unfoldable pub block_ip : String → ThreatDetector → ThreatDetector
unfolding block_found
block_ip ip td = block_found ip (lookup ip td.ip_tracker) td

blocked_activity : Option IpActivity → Bool
blocked_activity none = false
blocked_activity (some a) = leb 999 a.suspicious_count

unfoldable pub is_blocked : String → ThreatDetector → Bool
unfolding blocked_activity
is_blocked ip td = blocked_activity (lookup ip td.ip_tracker)

abbrev is_idle : ℕ → IpActivity → Bool
is_idle now a = ltb (a.last_request + hour) now && ltb a.suspicious_count 999

unfoldable pub cleanup : ℕ → ThreatDetector → ThreatDetector
cleanup now td = record td { ip_tracker = delete_if (λ ip a. is_idle now a) td.ip_tracker }
