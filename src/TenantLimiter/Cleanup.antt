-- ===== src/TenantLimiter/Cleanup.antt =====
-- apps/carrier-connector/internal/tenant/rate_limiter.go: `CleanupExpiredTrackers` goes by
-- `lastReset`, which nothing sets after the tracker is made.
use telecom_platform.Base.{
  ℕ, ◌+◌, ◌≤◌, ◌<◌, ◌≡◌, true, some, none, String, arith, lookup, IsMap, lookup-delete_if,
}
use telecom_platform.TenantLimiter.{
  TenantUsageTracker, TenantRateLimiter, Readings, count, tracker_for, allow_request, limits_of,
  cleanup_expired_trackers, day, is_expired,
}
use telecom_platform.TenantLimiter.Answers.{HasRoom, allow_request-answer}

room_without_tracker :
    (at : Readings) (tenant plan : String) (trl : TenantRateLimiter)
    → lookup tenant trl.tenant_usage ≡ none
    → 0 < (limits_of plan trl).requests_per_minute
    → 0 < (limits_of plan trl).requests_per_hour
    → 0 < (limits_of plan trl).requests_per_day
    → let t = tracker_for at tenant plan trl in
      HasRoom at.minute t.minute_requests
      × HasRoom at.hour t.hour_requests
      × HasRoom at.day t.day_requests
unfolding tracker_for count
room_without_tracker at tenant plan trl e m h d = ground arith

module _ (now : ℕ) (tenant : String) (t : TenantUsageTracker) (trl : TenantRateLimiter)
    (is_map : IsMap trl.tenant_usage) (found : lookup tenant trl.tenant_usage ≡ some t) where
  -- A tracker made less than a day ago stays as it is.
  pub cleanup_keeps :
      now ≤ t.last_reset + day
      → lookup tenant (cleanup_expired_trackers now trl).tenant_usage ≡ some t
  unfolding cleanup_expired_trackers
  cleanup_keeps h = ground (arith, lookup-delete_if (is_expired now) tenant trl.tenant_usage is_map)

  cleanup_drops :
      t.last_reset + day < now
      → lookup tenant (cleanup_expired_trackers now trl).tenant_usage ≡ none
  unfolding cleanup_expired_trackers
  cleanup_drops h = ground (arith, lookup-delete_if (is_expired now) tenant trl.tenant_usage is_map)

  -- A tracker made more than a day ago is dropped, however many requests its windows hold at
  -- that time, and the tenant's next request is let through under any plan that lets one through.
  pub cleanup_restarts :
      (at : Readings) (plan : String)
      → t.last_reset + day < now
      → 0 < (limits_of plan trl).requests_per_minute
      → 0 < (limits_of plan trl).requests_per_hour
      → 0 < (limits_of plan trl).requests_per_day
      → let after = cleanup_expired_trackers now trl in
        (lookup tenant after.tenant_usage ≡ none) × ((allow_request at tenant plan after).1 ≡ true)
  unfolding cleanup_expired_trackers limits_of
  cleanup_restarts at plan h m hr d =
      let after = cleanup_expired_trackers now trl in
      let gone = cleanup_drops h in
      (
        gone,
        (allow_request-answer at tenant plan after).0.1
            (room_without_tracker at tenant plan after gone m hr d),
      )
