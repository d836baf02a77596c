-- ===== src/RateLimit/Endpoints.antt =====
-- apps/api-server/internal/middleware/ratelimit.go: which limiter decides on a request, and that
-- the handlers call the next one exactly when their limiter allows.
use telecom_platform.Base.{ℕ, ◌≡◌, refl, ◌↔◌, ◌≢◌, Bool, true, String, arith}
use telecom_platform.RateLimit.{
  SimpleRateLimiter, Limiters, Request, reply, next, Class, auth_class, read_class, admin_class,
  api_class, class_of, allow, allow_in, rate_limit_by_endpoint,
}

abbrev limiter_of : Class → Limiters → SimpleRateLimiter
limiter_of auth_class l = l.auth
limiter_of read_class l = l.read
limiter_of admin_class l = l.admin
limiter_of api_class l = l.api

allow_in-answer :
    (c : Class) (now : ℕ) (key : String) (l : Limiters)
    → (allow_in c now key l).1 ≡ (allow now key (limiter_of c l)).1
unfolding allow_in
allow_in-answer auth_class now key l = refl
allow_in-answer read_class now key l = refl
allow_in-answer admin_class now key l = refl
allow_in-answer api_class now key l = refl

allow_in-own :
    (c : Class) (now : ℕ) (key : String) (l : Limiters)
    → limiter_of c (allow_in c now key l).0 ≡ (allow now key (limiter_of c l)).0
unfolding allow_in
allow_in-own auth_class now key l = refl
allow_in-own read_class now key l = refl
allow_in-own admin_class now key l = refl
allow_in-own api_class now key l = refl

allow_in-other :
    (c d : Class) (now : ℕ) (key : String) (l : Limiters)
    → d ≢ c
    → limiter_of d (allow_in c now key l).0 ≡ limiter_of d l
unfolding allow_in
allow_in-other c d now key l h = ground arith

reply-next : (b : Bool) → (reply b ≡ next) ↔ (b ≡ true)
reply-next b = ((λ h. ground arith), λ h. ground arith)

-- The next handler is called exactly when the limiter of the request's class allows its client's
-- address; that limiter records the call, and the limiters of the other classes do not change.
pub rate_limit_by_endpoint_lem :
    (now : ℕ) (request : Request) (l : Limiters)
    → let c = class_of request in
      let after = rate_limit_by_endpoint now request l in
      let decided = allow now request.client_ip (limiter_of c l) in
      ((after.1 ≡ next) ↔ (decided.1 ≡ true))
      × (limiter_of c after.0 ≡ decided.0)
      × ((d : Class) → d ≢ c → limiter_of d after.0 ≡ limiter_of d l)
unfolding rate_limit_by_endpoint
rate_limit_by_endpoint_lem now request l =
    let c = class_of request in
    (
      rw (allow_in-answer c now request.client_ip l) (reply-next _),
      allow_in-own c now request.client_ip l,
      λ d h. allow_in-other c d now request.client_ip l h,
    )
