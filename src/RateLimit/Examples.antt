-- ===== src/RateLimit/Examples.antt =====
-- Witnesses and tests for apps/api-server/internal/middleware/ratelimit.go.
use telecom_platform.Base.{
  ℕ, ◌≤◌, ◌≡◌, refl, ◌↔◌, true, false, none, List, [], ◌∷◌, String, arith, length, lookup, insert,
}
use telecom_platform.Window.{recent}
use telecom_platform.RateLimit.{
  SimpleRateLimiter, Request, allow, new_simple_rate_limiter, rate_limit_by_endpoint, limiters,
  next, class_of,
}
use telecom_platform.RateLimit.Refinement.{
  run, run_spec, run-refines, granted, granted_bounded, refused_unrecorded, of_key,
}
use telecom_platform.RateLimit.Endpoints.{rate_limit_by_endpoint_lem}

-- At most two requests in ten units of time.
abbrev calls : List (ℕ × String)
calls = (1, "a") ∷ (2, "a") ∷ (3, "a") ∷ (3, "b") ∷ (11, "a") ∷ (11, "a") ∷ []

calls_answers :
    (run calls (new_simple_rate_limiter 2 10)).1 ≡ true ∷ true ∷ false ∷ true ∷ true ∷ false ∷ []
unfolding run allow new_simple_rate_limiter lookup insert
calls_answers = refl

run-refines_example : (run calls (new_simple_rate_limiter 2 10)).1 ≡ (run_spec 2 10 calls []).1
run-refines_example = run-refines 2 10 calls (omega arith)

granted_bounded_example :
    length (recent 10 11 (granted "a" calls (run calls (new_simple_rate_limiter 2 10)).1)) ≤ 2
granted_bounded_example = granted_bounded 2 10 "a" calls 11 (omega arith) (omega arith)

abbrev full : SimpleRateLimiter
full = record { requests = ("a", 1 ∷ 2 ∷ []) ∷ []; limit = 2; window = 10 }

refused_unrecorded_example :
    of_key "a" (allow 11 "a" (record full { limit = 1 })).0.requests ≡ 2 ∷ []
unfolding allow lookup insert
refused_unrecorded_example = refused_unrecorded 11 "a" "a" (record full { limit = 1 }) refl

abbrev login : Request
login = record { path = "/v1/auth/login"; method = "POST"; client_ip = "10.0.0.1"; user_id = none }

rate_limit_by_endpoint_lem_example :
    ((rate_limit_by_endpoint 5 login limiters).1 ≡ next)
    ↔ ((allow 5 "10.0.0.1" limiters.auth).1 ≡ true)
unfolding class_of
rate_limit_by_endpoint_lem_example = (rate_limit_by_endpoint_lem 5 login limiters).0
