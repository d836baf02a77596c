-- ===== src/TenantLimiter/Answers.antt =====
-- apps/carrier-connector/internal/tenant/rate_limiter.go: what `AllowRequest` answers, and what it
-- records, by the room in the three windows of the tenant's tracker.
use text.Mathlib.Text.{◌==◌ as str_eq}
use telecom_platform.Base.{
  ℕ, ◌≤◌, ◌<◌, ◌≡◌, ap, ◌∙◌, ◌↔◌, Bool, true, false, [], ◌∷◌, ◌++◌, String, arith, some, lookup,
  lookup-insert, lookup-insert_self,
}
use telecom_platform.Window.{recent}
use telecom_platform.TenantLimiter.{
  limits_of, SlidingWindowCounter, TenantUsageTracker, TenantRateLimiter, Readings, count,
  tracker_for, allow_request, check_windows,
}

-- A counter has room when fewer than its maximum are in its window.
abbrev pub HasRoom : ℕ → SlidingWindowCounter → Type 0
HasRoom now swc = count now swc < swc.max_count

module _ (burst : ℕ) (at : Readings) (t : TenantUsageTracker) where
  check_windows-answer : ((check_windows burst at t).1 ≡ true) ↔ (
      HasRoom at.minute t.minute_requests
      × HasRoom at.hour t.hour_requests
      × HasRoom at.day t.day_requests)
  unfolding check_windows count
  check_windows-answer = ((λ h. ground arith), λ h. ground arith)

  check_windows_hour :
      HasRoom at.minute t.minute_requests
      → t.hour_requests.max_count ≤ count at.hour t.hour_requests
      → check_windows burst at t ≡ (
        record t {
          minute_requests = record t.minute_requests {
            requests =
                recent t.minute_requests.window at.minute t.minute_requests.requests
                ++ at.minute ∷ [];
          };
          hour_requests = record t.hour_requests {
            requests = recent t.hour_requests.window at.hour t.hour_requests.requests;
          };
        },
        false,
      )
  unfolding check_windows count
  check_windows_hour m h = ground arith

module _ (at : Readings) (tenant plan : String) (trl : TenantRateLimiter) where
  abbrev tracker : TenantUsageTracker
  tracker = tracker_for at tenant plan trl

  -- A request is let through exactly when each of the tenant's three windows has room; no other
  -- tenant's tracker changes.
  pub allow_request-answer :
      (((allow_request at tenant plan trl).1 ≡ true) ↔ (
        HasRoom at.minute tracker.minute_requests
        × HasRoom at.hour tracker.hour_requests
        × HasRoom at.day tracker.day_requests))
      × ((other : String)
          → str_eq tenant other ≡ false
          → lookup other (allow_request at tenant plan trl).0.tenant_usage
            ≡ lookup other trl.tenant_usage)
  unfolding allow_request
  allow_request-answer = (
    check_windows-answer (limits_of plan trl).burst_size at tracker,
    λ other n. rw (lookup-insert tenant other _ trl.tenant_usage, n),
  )

  -- A request that the hour's window refuses is nevertheless recorded in the minute's window, where
  -- it counts against later requests; the day's window is not looked at.
  pub refused_by_hour :
      HasRoom at.minute tracker.minute_requests
      → tracker.hour_requests.max_count ≤ count at.hour tracker.hour_requests
      → let m = tracker.minute_requests in
        let h = tracker.hour_requests in
        ((allow_request at tenant plan trl).1 ≡ false)
        × (lookup tenant (allow_request at tenant plan trl).0.tenant_usage
            ≡ some (record tracker {
              minute_requests = record m {
                requests = recent m.window at.minute m.requests ++ at.minute ∷ [];
              };
              hour_requests = record h { requests = recent h.window at.hour h.requests };
            }))
  unfolding allow_request
  refused_by_hour m h =
      let e = check_windows_hour (limits_of plan trl).burst_size at tracker m h in
      (
        ap (λ (r : TenantUsageTracker × Bool). r.1) e,
        lookup-insert_self tenant _ trl.tenant_usage
            ∙ ap (λ (r : TenantUsageTracker × Bool). some r.0) e,
      )
