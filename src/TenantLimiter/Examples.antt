-- ===== src/TenantLimiter/Examples.antt =====
-- Witnesses and tests for apps/carrier-connector/internal/tenant/rate_limiter.go.
use telecom_platform.Base.{
  ℕ, ◌+◌, ◌*◌, ◌≤◌, ◌≡◌, refl, true, false, some, none, List, [], ◌∷◌, arith, length, lookup,
  insert,
}
use telecom_platform.Window.{recent}
use telecom_platform.TenantLimiter.{
  TenantUsageTracker, TenantRateLimiter, Readings, RateLimitUsage, count,
  new_sliding_window_counter, allow_request, cleanup_expired_trackers, new_tenant_rate_limiter,
  tracker_for, limits_of, minute, hour, day, get_usage_stats,
}
use telecom_platform.TenantLimiter.Counter
use telecom_platform.TenantLimiter.Counter.{granted, counter_bounded}
use telecom_platform.TenantLimiter.Answers.{allow_request-answer, refused_by_hour}
use telecom_platform.TenantLimiter.Invariant.{
  Inv, Call, allows, updates, cleans, run, reached-Inv, stats_add_up,
}
use telecom_platform.TenantLimiter.Cleanup.{cleanup_keeps, cleanup_restarts}

counter_bounded_example :
    length (
      recent 10 6 (
        granted
          (1 ∷ 2 ∷ 3 ∷ [])
          (Counter.run 5 (1 ∷ 2 ∷ 3 ∷ []) (new_sliding_window_counter 10 2)).1))
    ≤ 2
counter_bounded_example = (counter_bounded 10 2 5 6 (1 ∷ 2 ∷ 3 ∷ []) (omega arith) (omega arith)).0

abbrev at : ℕ → Readings
at t = record { created = t; minute = t; hour = t; day = t }

allow_request-answer_example :
    lookup "b" (allow_request (at 1) "a" "free" new_tenant_rate_limiter).0.tenant_usage ≡ none
unfolding new_tenant_rate_limiter lookup
allow_request-answer_example =
    (allow_request-answer (at 1) "a" "free" new_tenant_rate_limiter).1 "b" refl

-- One request a minute and one an hour, and one made just before.
abbrev crowded : TenantUsageTracker
crowded = record {
  tenant_id = "a";
  plan = "tiny";
  minute_requests = record { window = minute; max_count = 1; requests = [] };
  hour_requests = record { window = hour; max_count = 1; requests = 5 ∷ [] };
  day_requests = record { window = day; max_count = 1; requests = 5 ∷ [] };
  last_reset = 1;
}

abbrev tiny : TenantRateLimiter
tiny = record {
  plan_limits =
      (
        "tiny",
        record {
          requests_per_minute = 1;
          requests_per_hour = 1;
          requests_per_day = 1;
          burst_size = 1;
        },
      )
      ∷ [];
  tenant_usage = ("a", crowded) ∷ [];
}

abbrev later : Readings
later = at (2 * minute)

refused_by_hour_example : (allow_request later "a" "tiny" tiny).1 ≡ false
unfolding tracker_for count lookup
refused_by_hour_example = (refused_by_hour later "a" "tiny" tiny (omega arith) (omega arith)).0

abbrev calls : List Call
calls =
    allows (at 1) "a" "free" ∷ updates "a" "pro" ∷ allows (at 2) "a" "pro" ∷ cleans (2 * day) ∷ []

reached-Inv_example : Inv (run calls new_tenant_rate_limiter)
reached-Inv_example = reached-Inv calls

cleanup_keeps_example : lookup "a" (cleanup_expired_trackers hour tiny).tenant_usage ≡ some crowded
unfolding lookup
cleanup_keeps_example = cleanup_keeps hour "a" crowded tiny (omega arith) refl (omega arith)

cleanup_restarts_example :
    (allow_request (at (day + 2)) "a" "tiny" (cleanup_expired_trackers (day + 2) tiny)).1 ≡ true
unfolding lookup limits_of
cleanup_restarts_example =
    (cleanup_restarts (day + 2) "a" crowded tiny (omega arith) refl (at (day + 2)) "tiny"
      (omega arith) (omega arith) (omega arith) (omega arith)).1

abbrev asked : List Call
asked = allows (at 1) "a" "free" ∷ allows (at minute) "a" "free" ∷ []

-- The counts of the free plan, an hour later.
abbrev asked_usage : RateLimitUsage
asked_usage = record {
  tenant_id = "a";
  plan = "free";
  minute_requests = 0;
  minute_limit = 60;
  hour_requests = 1;
  hour_limit = 1000;
  day_requests = 2;
  day_limit = 10000;
  remaining_minute = 60;
  remaining_hour = 999;
  remaining_day = 9998;
  reset_time = day + 1;
}

stats_add_up_example : 1 + 999 ≡ asked_usage.hour_limit
unfolding get_usage_stats lookup insert run allow_request new_tenant_rate_limiter
stats_add_up_example =
    (stats_add_up (hour + 1) "a" (run asked new_tenant_rate_limiter) asked_usage (reached-Inv asked)
      refl (omega arith) (omega arith) (omega arith)).1
