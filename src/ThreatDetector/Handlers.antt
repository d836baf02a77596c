-- ===== src/ThreatDetector/Handlers.antt =====
-- apps/carrier-connector/internal/security/threat_detection.go: what each handler does under the
-- rules that the detector starts with.
use text.Mathlib.Text.{◌==◌ as str_eq}
use telecom_platform.Base.{
  ℕ, ◌+◌, ◌≡◌, Bool, true, false, ◌&&◌, Option, none, some, List, [], ◌∷◌, ◌++◌, String, arith, leb,
  ltb, if◌then◌else◌, insert, ap, ◌∙◌, ◌*◌,
}
use telecom_platform.ThreatDetector.{
  ThreatDetector, ThreatDetectorConfig, ThreatEvent, ThreatType, IpActivity, brute_force,
  rate_limit_abuse, same_type, Readings, record_request, record_failed_login, default_rules,
  check_rules, rate_event, login_event, activity_of, detect_sql_injection, block_ip, raise_alert,
  DetectionRule, minute, high, medium,
}

-- The events of one type about one address.
unfoldable pub alerts : ThreatType → String → List ThreatEvent → ℕ
alerts kind ip [] = 0
alerts kind ip (e ∷ events) =
    (if same_type e.kind kind && str_eq e.source ip then 1 else 0) + alerts kind ip events

pub alerts-append :
    (kind : ThreatType) (ip : String) (xs ys : List ThreatEvent)
    → alerts kind ip (xs ++ ys) ≡ alerts kind ip xs + alerts kind ip ys
unfolding alerts
alerts-append kind ip [] ys = omega arith
alerts-append kind ip (x ∷ xs) ys = omega (arith, alerts-append kind ip xs ys)

pub data Call : Type 0 where
  requests logins : Readings → String → String → Call
  inputs : ℕ → String → List ℕ → Call
  blocks : String → Call

unfoldable pub step : Call → ThreatDetector → ThreatDetector
step (requests at ip path) td = record_request at ip path td
step (logins at ip user_id) td = record_failed_login at ip user_id td
step (inputs detected ip input) td = (detect_sql_injection detected ip input td).0
step (blocks ip) td = block_ip ip td

unfoldable pub run : List Call → ThreatDetector → ThreatDetector
run [] td = td
run (call ∷ calls) td = run calls (step call td)

-- How many failed logins and requests of an address a sequence of calls has.
abbrev pub logins_of : String → List Call → ℕ
logins_of ip [] = 0
logins_of ip (logins at other user_id ∷ calls) =
    (if str_eq other ip then 1 else 0) + logins_of ip calls
logins_of ip (_ ∷ calls) = logins_of ip calls

abbrev pub requests_of : String → List Call → ℕ
requests_of ip [] = 0
requests_of ip (requests at other path ∷ calls) =
    (if str_eq other ip then 1 else 0) + requests_of ip calls
requests_of ip (_ ∷ calls) = requests_of ip calls

abbrev pub failed : Option IpActivity → ℕ
failed none = 0
failed (some a) = a.failed_logins

abbrev pub asked : Option IpActivity → ℕ
asked none = 0
asked (some a) = a.request_count

-- One more event, of one type about one address, or none.
pub record Raised (kind : ThreatType) (ip : String) (more : Bool) (before after : List ThreatEvent)
    : Type 0 where
  pub events_raised :
      (k : ThreatType) (other : String)
      → alerts k other after
        ≡ alerts k other before + (if more && same_type kind k && str_eq ip other then 1 else 0)

pub raise-Raised :
    (event : ThreatEvent) (more : Bool) (td : ThreatDetector)
    → Raised event.kind event.source more td.events
        (if more then raise_alert event td else td).events
unfolding raise_alert alerts
raise-Raised event true td = record {
  events_raised = λ k other. ground (arith, alerts-append k other td.events (event ∷ []));
}
raise-Raised event false td = record { events_raised = λ k other. ground arith }

-- The detector's own rules.
abbrev pub brute_rule : ThreatDetectorConfig → DetectionRule
brute_rule config = record {
  id = "brute_force_login";
  name = "Brute Force Login Detection";
  kind = brute_force;
  threshold = config.max_failed_logins;
  window = 5 * minute;
  level = high;
  enabled = true;
}

abbrev pub rate_rule : ThreatDetectorConfig → DetectionRule
rate_rule config = record {
  id = "rate_limit_abuse";
  name = "Rate Limit Abuse Detection";
  kind = rate_limit_abuse;
  threshold = config.rate_limit_threshold;
  window = minute;
  level = medium;
  enabled = true;
}

module _ (config : ThreatDetectorConfig) (crosses : ℕ → Bool) (event : DetectionRule → ThreatEvent)
    (td : ThreatDetector) where
  pub check_rules-brute : check_rules brute_force crosses event (default_rules config) td ≡ (
      if crosses config.max_failed_logins then raise_alert (event (brute_rule config)) td else td)
  unfolding default_rules check_rules same_type
  check_rules-brute = ground arith

  pub check_rules-rate : check_rules rate_limit_abuse crosses event (default_rules config) td ≡ (
      if crosses config.rate_limit_threshold then raise_alert (event (rate_rule config)) td else td)
  unfolding default_rules check_rules same_type
  check_rules-rate = ground arith

-- With the detector's own rules, each handler stores the activity with its count one up, and raises
-- at most one alert.
abbrev pub logged : Readings → String → ThreatDetector → ThreatDetector
logged at ip td =
    let a = activity_of at.created ip td in
    record td {
      ip_tracker =
          insert ip (record a { failed_logins = a.failed_logins + 1; last_request = at.request })
            td.ip_tracker;
    }

abbrev pub counted : Readings → String → ThreatDetector → ThreatDetector
counted at ip td =
    let a = activity_of at.created ip td in
    record td {
      ip_tracker =
          insert ip (record a { request_count = a.request_count + 1; last_request = at.request })
            td.ip_tracker;
    }

pub record_failed_login_lem :
    (config : ThreatDetectorConfig) (at : Readings) (ip user_id : String) (td : ThreatDetector)
    → td.rules ≡ default_rules config
    → record_failed_login at ip user_id td ≡ (
        if leb config.max_failed_logins ((activity_of at.created ip td).failed_logins + 1)
        then raise_alert (login_event at.detected ip user_id (brute_rule config)) (logged at ip td)
        else logged at ip td)
unfolding record_failed_login
record_failed_login_lem config at ip user_id td q =
    let n = (activity_of at.created ip td).failed_logins + 1 in
    ap
      (λ rules.
        check_rules brute_force (λ threshold. leb threshold n) (login_event at.detected ip user_id)
          rules (logged at ip td))
      q
    ∙ check_rules-brute config (λ threshold. leb threshold n) (login_event at.detected ip user_id)
        (logged at ip td)

pub record_request_lem :
    (config : ThreatDetectorConfig) (at : Readings) (ip path : String) (td : ThreatDetector)
    → td.rules ≡ default_rules config
    → record_request at ip path td ≡ (
        if ltb config.rate_limit_threshold ((activity_of at.created ip td).request_count + 1)
        then raise_alert (rate_event at.detected ip path (rate_rule config)) (counted at ip td)
        else counted at ip td)
unfolding record_request
record_request_lem config at ip path td q =
    let n = (activity_of at.created ip td).request_count + 1 in
    ap
      (λ rules.
        check_rules rate_limit_abuse (λ threshold. ltb threshold n) (rate_event at.detected ip path)
          rules (counted at ip td))
      q
    ∙ check_rules-rate config (λ threshold. ltb threshold n) (rate_event at.detected ip path)
        (counted at ip td)
