-- ===== src/TenantLimiter/Invariant.antt =====
-- apps/carrier-connector/internal/tenant/rate_limiter.go: what holds of every tracker between calls.
use telecom_platform.Base.{
  ℕ, ◌+◌, ◌≤◌, ◌<◌, ◌^◌, ◌≡◌, some, List, [], ◌∷◌, String, arith, length, Option-cases, inl, inr,
  IsMap, insert-IsMap, delete_if-IsMap, Every, insert-Every, delete_if-Every, lookup, insert,
  length-append, length-keep-le,
}
use telecom_platform.Window.{recent, in_window}
use telecom_platform.TenantLimiter.{
  SlidingWindowCounter, TenantUsageTracker, TenantRateLimiter, RateLimit, RateLimitUsage, Readings,
  tracker_for, allow_request, allow, check_windows, new_tenant_rate_limiter, limits_of,
  update_tenant_plan, cleanup_expired_trackers, get_usage_stats, new_tracker, minute, hour, day,
}

-- A counter of the right window and limit, that holds no more than the limit.
pub record Keeps (window limit : ℕ) (swc : SlidingWindowCounter) : Type 0 where
  pub window_eq : swc.window ≡ window
  pub limit_eq : swc.max_count ≡ limit
  pub bounded : length swc.requests ≤ limit

pub record IsSound (limits : RateLimit) (t : TenantUsageTracker) : Type 0 where
  pub minute_kept : Keeps minute limits.requests_per_minute t.minute_requests
  pub hour_kept : Keeps hour limits.requests_per_hour t.hour_requests
  pub day_kept : Keeps day limits.requests_per_day t.day_requests

-- Every tracker has the windows of its plan, and no more requests in them than its plan allows.
pub record Inv (trl : TenantRateLimiter) : Type 0 where
  pub is_map : IsMap trl.tenant_usage
  pub sound : Every (λ t. IsSound (limits_of t.plan trl) t) trl.tenant_usage

allow-Keeps :
    (window limit burst now : ℕ) (swc : SlidingWindowCounter)
    → Keeps window limit swc
    → Keeps window limit (allow burst now swc).0
unfolding allow
allow-Keeps window limit burst now swc k = ground (
  arith,
  length-keep-le (in_window swc.window now) swc.requests,
  length-append (recent swc.window now swc.requests) (now ∷ []),
)

check_windows-IsSound :
    (limits : RateLimit) (burst : ℕ) (at : Readings) (t : TenantUsageTracker)
    → IsSound limits t
    → IsSound limits (check_windows burst at t).0 × ((check_windows burst at t).0.plan ≡ t.plan)
unfolding check_windows
check_windows-IsSound limits burst at t s = ground (
  arith,
  allow-Keeps minute limits.requests_per_minute burst at.minute t.minute_requests s.minute_kept,
  allow-Keeps hour limits.requests_per_hour burst at.hour t.hour_requests s.hour_kept,
  allow-Keeps day limits.requests_per_day burst at.day t.day_requests s.day_kept,
)

new_tracker-IsSound :
    (now : ℕ) (tenant plan : String) (limits : RateLimit)
    → IsSound limits (new_tracker now tenant plan limits)
unfolding new_tracker
new_tracker-IsSound now tenant plan limits = ground arith

tracker_for-IsSound :
    (at : Readings) (tenant plan : String) (trl : TenantRateLimiter)
    → Inv trl
    → IsSound (limits_of (tracker_for at tenant plan trl).plan trl) (tracker_for at tenant plan trl)
unfolding tracker_for
tracker_for-IsSound at tenant plan trl inv = elim (Option-cases (lookup tenant trl.tenant_usage)) [
  | inl e ↦ rw (e, tracker_for) (new_tracker-IsSound at.created tenant plan (limits_of plan trl))
  | inr (t, e) ↦ rw (e, tracker_for) (inv.sound tenant t e)
]

-- One more tracker that is sound keeps the invariant.
insert-Inv :
    (trl : TenantRateLimiter) (tenant : String) (t : TenantUsageTracker)
    → Inv trl
    → IsSound (limits_of t.plan trl) t
    → Inv (record trl { tenant_usage = insert tenant t trl.tenant_usage })
unfolding limits_of
insert-Inv trl tenant t inv s = record {
  is_map = insert-IsMap tenant t trl.tenant_usage inv.is_map;
  sound =
      insert-Every (λ u. IsSound (limits_of u.plan trl) u) tenant t trl.tenant_usage inv.sound s;
}

allow_request-Inv :
    (at : Readings) (tenant plan : String) (trl : TenantRateLimiter)
    → Inv trl
    → Inv (allow_request at tenant plan trl).0
unfolding allow_request
allow_request-Inv at tenant plan trl inv =
    let t = tracker_for at tenant plan trl in
    let burst = (limits_of plan trl).burst_size in
    let (s, p) =
      check_windows-IsSound (limits_of t.plan trl) burst at t
        (tracker_for-IsSound at tenant plan trl inv) in
    insert-Inv trl tenant (check_windows burst at t).0 inv (rw p s)

update_tenant_plan-Inv :
    (tenant plan : String) (trl : TenantRateLimiter)
    → Inv trl
    → Inv (update_tenant_plan tenant plan trl)
unfolding update_tenant_plan new_tracker
update_tenant_plan-Inv tenant plan trl inv = elim (Option-cases (lookup tenant trl.tenant_usage)) [
  | inl e ↦ rw (e, update_tenant_plan) inv
  | inr (t, e) ↦
      rw (e, update_tenant_plan)
        (insert-Inv trl tenant (new_tracker t.last_reset t.tenant_id plan (limits_of plan trl)) inv
          (new_tracker-IsSound t.last_reset t.tenant_id plan (limits_of plan trl)))
]

cleanup-Inv : (now : ℕ) (trl : TenantRateLimiter) → Inv trl → Inv (cleanup_expired_trackers now trl)
unfolding cleanup_expired_trackers limits_of
cleanup-Inv now trl inv = record {
  is_map = delete_if-IsMap _ trl.tenant_usage inv.is_map;
  sound =
      delete_if-Every (λ u. IsSound (limits_of u.plan trl) u) _ trl.tenant_usage inv.is_map
        inv.sound;
}

pub data Call : Type 0 where
  allows : Readings → String → String → Call
  updates : String → String → Call
  cleans : ℕ → Call

abbrev pub step : Call → TenantRateLimiter → TenantRateLimiter
step (allows at tenant plan) trl = (allow_request at tenant plan trl).0
step (updates tenant plan) trl = update_tenant_plan tenant plan trl
step (cleans now) trl = cleanup_expired_trackers now trl

unfoldable pub run : List Call → TenantRateLimiter → TenantRateLimiter
run [] trl = trl
run (c ∷ calls) trl = run calls (step c trl)

run-Inv : (calls : List Call) (trl : TenantRateLimiter) → Inv trl → Inv (run calls trl)
unfolding run
run-Inv [] trl inv = inv
run-Inv (allows at tenant plan ∷ calls) trl inv =
    run-Inv calls _ (allow_request-Inv at tenant plan trl inv)
run-Inv (updates tenant plan ∷ calls) trl inv =
    run-Inv calls _ (update_tenant_plan-Inv tenant plan trl inv)
run-Inv (cleans now ∷ calls) trl inv = run-Inv calls _ (cleanup-Inv now trl inv)

new-Inv : Inv new_tenant_rate_limiter
unfolding new_tenant_rate_limiter lookup
new-Inv = record { is_map = tt; sound = λ k v e. ground arith }

-- After any sequence of requests, plan changes and clean-ups on a new limiter, whatever the clock
-- reads, every tenant's tracker has the three windows and limits of its plan and holds no more
-- requests in a window than its limit; and the map's keys are distinct.
pub reached-Inv : (calls : List Call) → Inv (run calls new_tenant_rate_limiter)
reached-Inv calls = run-Inv calls new_tenant_rate_limiter new-Inv

-- So the statistics of a tenant always add up: what is used and what remains make the limit, for each
-- window, where the limits are below 2 ^ 63.
pub stats_add_up :
    (now : ℕ) (tenant : String) (trl : TenantRateLimiter) (usage : RateLimitUsage)
    → Inv trl
    → get_usage_stats now tenant trl ≡ some usage
    → usage.minute_limit < 2 ^ 63
    → usage.hour_limit < 2 ^ 63
    → usage.day_limit < 2 ^ 63
    → (usage.minute_requests + usage.remaining_minute ≡ usage.minute_limit)
      × (usage.hour_requests + usage.remaining_hour ≡ usage.hour_limit)
      × (usage.day_requests + usage.remaining_day ≡ usage.day_limit)
unfolding get_usage_stats
stats_add_up now tenant trl usage inv e m h d =
    elim (Option-cases (lookup tenant trl.tenant_usage)) [
      | inl f ↦ ground arith
      | inr (t, f) ↦ ground (
        arith,
        inv.sound tenant t f,
        length-keep-le (in_window t.minute_requests.window now) t.minute_requests.requests,
        length-keep-le (in_window t.hour_requests.window now) t.hour_requests.requests,
        length-keep-le (in_window t.day_requests.window now) t.day_requests.requests,
      )
    ]
