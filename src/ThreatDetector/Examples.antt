-- ===== src/ThreatDetector/Examples.antt =====
-- Witnesses and tests for apps/carrier-connector/internal/security/threat_detection.go.
use telecom_platform.Base.{ℕ, ◌+◌, ◌*◌, ◌≡◌, refl, true, false, none, [], ◌∷◌, length, lookup}
use telecom_platform.ThreatDetector.{
  ThreatDetector, IpActivity, Readings, hour, is_blocked, block_ip, cleanup, detect_sql_injection,
  get_recent_events, get_ip_activity,
}
use telecom_platform.ThreatDetector.Injection.{flagged_by_length, get_recent_events_lem}
use telecom_platform.ThreatDetector.Handlers.{Call, requests, logins}
use telecom_platform.ThreatDetector.Blocking.{
  is_blocked-block_ip, get_ip_activity-cleanup, calls, cleans, turns, blocked_for_good,
}

abbrev at : ℕ → Readings
at t = record { created = t; request = t; detected = t }

abbrev activity : IpActivity
activity = record {
  ip = "a";
  failed_logins = 3;
  request_count = 9;
  last_request = 5;
  first_seen = 1;
  suspicious_count = 0;
}

abbrev small : ThreatDetector
small = record {
  rules = [];
  events = [];
  ip_tracker = ("a", activity) ∷ ("b", record activity { suspicious_count = 999 }) ∷ [];
}

-- The word "the".
flagged_by_length_example : (detect_sql_injection 1 "a" (116 ∷ 104 ∷ 101 ∷ []) small).1 ≡ true
flagged_by_length_example = (flagged_by_length 1 "a" (116 ∷ 104 ∷ 101 ∷ []) small).0

get_recent_events_lem_example : length (get_recent_events 4 small) ≡ 0
get_recent_events_lem_example = (get_recent_events_lem 4 small).0

abbrev login : Call
login = logins (at 1) "a" "user"

is_blocked-block_ip_example : is_blocked "c" (block_ip "c" small) ≡ false
unfolding get_ip_activity lookup
is_blocked-block_ip_example = is_blocked-block_ip "c" "c" small

get_ip_activity-cleanup_example : get_ip_activity "a" (cleanup (hour + 6) small) ≡ none
unfolding get_ip_activity lookup
get_ip_activity-cleanup_example =
    get_ip_activity-cleanup (hour + 6) "a" activity small ((refl, tt), (tt, tt)) refl

blocked_for_good_example :
    is_blocked "b" (turns (calls (requests (at 3) "b" "/") ∷ cleans (9 * hour) ∷ []) small) ≡ true
unfolding is_blocked lookup
blocked_for_good_example =
    blocked_for_good (calls (requests (at 3) "b" "/") ∷ cleans (9 * hour) ∷ []) "b" small
      ((refl, tt), (tt, tt)) refl
