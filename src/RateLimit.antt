-- ===== src/RateLimit.antt =====
-- apps/api-server/internal/middleware/ratelimit.go: the in-memory limiter and its gin handlers.
-- Times and durations are nanoseconds; a limit is a number that is not negative. A handler is
-- a function of the limiter's state, the time at which the limiter reads the clock and the request.
pub mod Refinement
pub mod Endpoints
mod Examples
use telecom_platform.Base.{
  ℕ, ◌*◌, Bool, true, false, ◌&&◌, ◌||◌, Option, none, some, List, [], ◌∷◌, ◌++◌, String, ltb,
  length, if◌then◌else◌, Dict, lookup, insert,
}
use text.Mathlib.Text.{◌==◌ as str_eq}
use telecom_platform.Window.{recent}

pub record SimpleRateLimiter : Type 0 where
  pub requests : Dict (List ℕ)
  pub limit : ℕ
  pub window : ℕ

unfoldable pub new_simple_rate_limiter : ℕ → ℕ → SimpleRateLimiter
new_simple_rate_limiter limit window = record { requests = []; limit = limit; window = window }

-- `r.requests[key]`: a missing key reads as the empty slice.
abbrev pub slice : Option (List ℕ) → List ℕ
slice none = []
slice (some ts) = ts

-- "Clean old requests": a key that is not there is not added.
clean : ℕ → String → SimpleRateLimiter → Option (List ℕ) → SimpleRateLimiter
clean now key r none = r
clean now key r (some ts) = record r { requests = insert key (recent r.window now ts) r.requests }

unfoldable pub allow : ℕ → String → SimpleRateLimiter → SimpleRateLimiter × Bool
unfolding clean
allow now key r =
    let r' = clean now key r (lookup key r.requests) in
    let ts = slice (lookup key r'.requests) in
    if ltb (length ts) r'.limit
    then (record r' { requests = insert key (ts ++ now ∷ []) r'.requests }, true)
    else (r', false)

pub record Request : Type 0 where
  pub path : String
  pub method : String
  pub client_ip : String
  pub user_id : Option String

-- What a handler does: abort with 429, or call the next handler.
pub data Reply : Type 0 where
  too_many_requests next : Reply

abbrev pub reply : Bool → Reply
reply true = next
reply false = too_many_requests

abbrev limited : SimpleRateLimiter × Bool → SimpleRateLimiter × Reply
limited (r, allowed) = (r, reply allowed)

-- The body of `RateLimit` and of `RateLimitByIP`.
unfoldable pub rate_limit_by_ip : ℕ → Request → SimpleRateLimiter → SimpleRateLimiter × Reply
rate_limit_by_ip now request r = limited (allow now request.client_ip r)

abbrev user_key : Request → Option String → String
user_key request none = Prim.Native.String.◌++◌ "anon:" request.client_ip
user_key request (some user) = Prim.Native.String.◌++◌ "user:" user

unfoldable pub rate_limit_by_user : ℕ → Request → SimpleRateLimiter → SimpleRateLimiter × Reply
rate_limit_by_user now request r = limited (allow now (user_key request request.user_id) r)

-- `RateLimitWithHeaders` also sets `X-RateLimit-Limit` and `X-RateLimit-Window`, whatever it answers.
pub record Headers : Type 0 where
  pub limit : ℕ
  pub window : ℕ

unfoldable pub rate_limit_with_headers :
    ℕ → ℕ → Request → SimpleRateLimiter → SimpleRateLimiter × Reply × Headers
rate_limit_with_headers per_minute now request r =
    let (r', allowed) = allow now request.client_ip r in
    (r', reply allowed, record { limit = per_minute; window = 60 })

abbrev pub minute : ℕ
minute = 60 * 1000000000

-- The four global limiters.
pub record Limiters : Type 0 where
  pub auth : SimpleRateLimiter
  pub api : SimpleRateLimiter
  pub read : SimpleRateLimiter
  pub admin : SimpleRateLimiter

unfoldable pub limiters : Limiters
limiters = record {
  auth = new_simple_rate_limiter 10 minute;
  api = new_simple_rate_limiter 100 minute;
  read = new_simple_rate_limiter 200 minute;
  admin = new_simple_rate_limiter 50 minute;
}

pub data Class : Type 0 where
  auth_class read_class admin_class api_class : Class

-- The tests of the `switch`, in its order.
unfoldable pub class_of : Request → Class
class_of request =
    if str_eq path "/v1/auth/login" || str_eq path "/v1/auth/register"
    then auth_class
    else if str_eq method "GET"
        && (str_eq path "/v1/services" || str_eq path "/v1/monitoring/metrics")
    then read_class
    else if str_eq path "/v1/users" || str_eq path "/v1/config"
    then admin_class
    else api_class
  where
    open request use {path, method}

allow_in : Class → ℕ → String → Limiters → Limiters × Bool
allow_in auth_class now key l =
    let (r, allowed) = allow now key l.auth in (record l { auth = r }, allowed)
allow_in read_class now key l =
    let (r, allowed) = allow now key l.read in (record l { read = r }, allowed)
allow_in admin_class now key l =
    let (r, allowed) = allow now key l.admin in (record l { admin = r }, allowed)
allow_in api_class now key l =
    let (r, allowed) = allow now key l.api in (record l { api = r }, allowed)

unfoldable pub rate_limit_by_endpoint : ℕ → Request → Limiters → Limiters × Reply
unfolding allow_in class_of
rate_limit_by_endpoint now request l =
    let (l', allowed) = allow_in (class_of request) now request.client_ip l in (l', reply allowed)
