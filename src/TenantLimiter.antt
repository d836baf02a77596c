-- ===== src/TenantLimiter.antt =====
-- apps/carrier-connector/internal/tenant/rate_limiter.go. Times and durations are nanoseconds, and
-- the limits, which the plans set, are not negative. A call reads the clock several times: its
-- readings are an argument. Log lines are left out.
pub mod Counter
pub mod Answers
pub mod Invariant
pub mod Cleanup
mod Examples
use telecom_platform.Base.{
  ℕ, ◌+◌, ◌-◌, ◌*◌, ◌^◌, Bool, true, false, Option, none, some, List, [], ◌∷◌, ◌++◌, String, ltb,
  leb, length, if◌then◌else◌, u64, Dict, lookup, insert, delete_if,
}
use telecom_platform.Window.{recent}

-- A `TenantPlan` is its name.
pub record RateLimit : Type 0 where
  pub requests_per_minute : ℕ
  pub requests_per_hour : ℕ
  pub requests_per_day : ℕ
  pub burst_size : ℕ

pub record SlidingWindowCounter : Type 0 where
  pub window : ℕ
  pub max_count : ℕ
  pub requests : List ℕ

pub record TenantUsageTracker : Type 0 where
  pub tenant_id : String
  pub plan : String
  pub minute_requests : SlidingWindowCounter
  pub hour_requests : SlidingWindowCounter
  pub day_requests : SlidingWindowCounter
  pub last_reset : ℕ

pub record TenantRateLimiter : Type 0 where
  pub plan_limits : Dict RateLimit
  pub tenant_usage : Dict TenantUsageTracker

abbrev pub second : ℕ
second = 1000000000

abbrev pub minute : ℕ
minute = 60 * second

abbrev pub hour : ℕ
hour = 3600 * second

abbrev pub day : ℕ
day = 24 * hour

abbrev rates : ℕ → ℕ → ℕ → ℕ → RateLimit
rates m h d burst = record {
  requests_per_minute = m;
  requests_per_hour = h;
  requests_per_day = d;
  burst_size = burst;
}

unfoldable pub new_tenant_rate_limiter : TenantRateLimiter
new_tenant_rate_limiter = record {
  plan_limits =
      ("free", rates 60 1000 10000 10)
      ∷ ("basic", rates 120 5000 50000 20)
      ∷ ("pro", rates 300 15000 150000 50)
      ∷ ("enterprise", rates 1000 100000 1000000 100)
      ∷ [];
  tenant_usage = [];
}

-- `trl.planLimits[plan]`: a plan that is not there reads as zero limits.
abbrev or_zero : Option RateLimit → RateLimit
or_zero none = rates 0 0 0 0
or_zero (some limits) = limits

unfoldable pub limits_of : String → TenantRateLimiter → RateLimit
limits_of plan trl = or_zero (lookup plan trl.plan_limits)

unfoldable pub new_sliding_window_counter : ℕ → ℕ → SlidingWindowCounter
new_sliding_window_counter window max_count = record {
  window = window;
  max_count = max_count;
  requests = [];
}

-- `Allow`, which makes no use of its burst size.
unfoldable pub allow : ℕ → ℕ → SlidingWindowCounter → SlidingWindowCounter × Bool
allow burst now swc =
    let swc' = record swc { requests = recent swc.window now swc.requests } in
    if leb swc'.max_count (length swc'.requests)
    then (swc', false)
    else (record swc' { requests = swc'.requests ++ now ∷ [] }, true)

unfoldable pub count : ℕ → SlidingWindowCounter → ℕ
count now swc = length (recent swc.window now swc.requests)

-- The clock readings of one `AllowRequest`.
pub record Readings : Type 0 where
  pub created : ℕ
  pub minute : ℕ
  pub hour : ℕ
  pub day : ℕ

unfoldable pub new_tracker : ℕ → String → String → RateLimit → TenantUsageTracker
unfolding new_sliding_window_counter
new_tracker now tenant plan limits = record {
  tenant_id = tenant;
  plan = plan;
  minute_requests = new_sliding_window_counter minute limits.requests_per_minute;
  hour_requests = new_sliding_window_counter hour limits.requests_per_hour;
  day_requests = new_sliding_window_counter day limits.requests_per_day;
  last_reset = now;
}

-- The three checks, in order: a check that fails ends the call, and what the checks before it
-- recorded stays.
unfoldable pub check_windows : ℕ → Readings → TenantUsageTracker → TenantUsageTracker × Bool
unfolding allow
check_windows burst at t =
    let (m, minute_ok) = allow burst at.minute t.minute_requests in
    let (h, hour_ok) = allow burst at.hour t.hour_requests in
    let (d, day_ok) = allow burst at.day t.day_requests in
    if minute_ok
    then (if hour_ok
        then (record t { minute_requests = m; hour_requests = h; day_requests = d }, day_ok)
        else (record t { minute_requests = m; hour_requests = h }, false))
    else (record t { minute_requests = m }, false)

-- The tenant's tracker, or the new one that is put into the map.
abbrev or_new : Option TenantUsageTracker → TenantUsageTracker → TenantUsageTracker
or_new none new = new
or_new (some tracker) new = tracker

unfoldable pub tracker_for : Readings → String → String → TenantRateLimiter → TenantUsageTracker
unfolding new_tracker limits_of
tracker_for at tenant plan trl =
    or_new (lookup tenant trl.tenant_usage)
      (new_tracker at.created tenant plan (limits_of plan trl))

unfoldable pub allow_request :
    Readings → String → String → TenantRateLimiter → TenantRateLimiter × Bool
unfolding tracker_for check_windows limits_of
allow_request at tenant plan trl =
    let (tracker, allowed) =
      check_windows (limits_of plan trl).burst_size at (tracker_for at tenant plan trl) in
    (record trl { tenant_usage = insert tenant tracker trl.tenant_usage }, allowed)

pub record RateLimitUsage : Type 0 where
  pub tenant_id : String
  pub plan : String
  pub minute_requests : ℕ
  pub minute_limit : ℕ
  pub hour_requests : ℕ
  pub hour_limit : ℕ
  pub day_requests : ℕ
  pub day_limit : ℕ
  pub remaining_minute : ℕ
  pub remaining_hour : ℕ
  pub remaining_day : ℕ
  pub reset_time : ℕ

-- `-` on int.
abbrev minus : ℕ → ℕ → ℕ
minus a b = u64 (a + 2 ^ 64 - b)

usage_of : ℕ → String → RateLimit → TenantUsageTracker → RateLimitUsage
unfolding count
usage_of now tenant limits t = record {
  tenant_id = tenant;
  plan = t.plan;
  minute_requests = count now t.minute_requests;
  minute_limit = limits.requests_per_minute;
  hour_requests = count now t.hour_requests;
  hour_limit = limits.requests_per_hour;
  day_requests = count now t.day_requests;
  day_limit = limits.requests_per_day;
  remaining_minute = minus limits.requests_per_minute (count now t.minute_requests);
  remaining_hour = minus limits.requests_per_hour (count now t.hour_requests);
  remaining_day = minus limits.requests_per_day (count now t.day_requests);
  reset_time = t.last_reset + day;
}

-- `none` is `ErrTenantNotFound`. The counts are taken at one time, `now`.
unfoldable pub get_usage_stats : ℕ → String → TenantRateLimiter → Option RateLimitUsage
unfolding usage_of limits_of
get_usage_stats now tenant trl = elim (lookup tenant trl.tenant_usage) [
  | none ↦ none
  | some t ↦ some (usage_of now tenant (limits_of t.plan trl) t)
]

unfoldable pub update_tenant_plan : String → String → TenantRateLimiter → TenantRateLimiter
unfolding new_sliding_window_counter limits_of
update_tenant_plan tenant new_plan trl = elim (lookup tenant trl.tenant_usage) [
  | none ↦ trl
  | some t ↦
      let limits = limits_of new_plan trl in
      let t' = record t {
        plan = new_plan;
        minute_requests = new_sliding_window_counter minute limits.requests_per_minute;
        hour_requests = new_sliding_window_counter hour limits.requests_per_hour;
        day_requests = new_sliding_window_counter day limits.requests_per_day;
      } in
      record trl { tenant_usage = insert tenant t' trl.tenant_usage }
]

-- `lastReset.Before(time.Now().Add(-24 * time.Hour))`.
abbrev is_expired : ℕ → String → TenantUsageTracker → Bool
is_expired now tenant t = ltb (t.last_reset + day) now

unfoldable pub cleanup_expired_trackers : ℕ → TenantRateLimiter → TenantRateLimiter
cleanup_expired_trackers now trl = record trl {
  tenant_usage = delete_if (is_expired now) trl.tenant_usage;
}
