-- ===== src/Lib.antt =====
-- The Go services of telecom-platform, modelled from their source with the theorems that hold of them.
--
-- Parts and files. Each file under a part's name holds lemmas or theorems about that part.
-- CircuitBreaker: apps/api-server/internal/circuitbreaker/circuitbreaker.go. Execute is `admit`, the
--   call, then `settle`, which are its two critical sections; Interleaving lets those of many calls mix.
-- CarrierBreaker: apps/carrier-connector/internal/infra/circuitbreaker.go. allowRequest is `check`
--   under the read lock and `upgrade` under the write lock; Interleaving and Race separate them.
-- Snowflake: apps/carrier-connector/internal/id/snowflake.go. Identifiers as 64-bit words.
-- RateLimit: apps/api-server/internal/middleware/ratelimit.go. SimpleRateLimiter and its middleware.
-- TenantLimiter: apps/carrier-connector/internal/tenant/rate_limiter.go. Three sliding windows for
--   each tenant; Window has what this part and RateLimit share.
-- Cache: apps/carrier-connector/internal/infra/cache.go. Get is `get`, whose second half `finish_get`
--   runs under another lock; Race puts a Set between the halves.
-- ThreatDetector: apps/carrier-connector/internal/security/threat_detection.go.
-- AlertManager: apps/api-server/internal/monitoring/alerting.go. EvaluateRules is `evaluate_rules`,
--   over a copy of the rules; each handleRuleEvaluation is one critical section.
-- Smdp: apps/carrier-connector/internal/smdp/manager.go, health_checker.go, selection_main.go and, in
--   Smdp/Download, operations.go. It selects carriers and downloads profiles from them, with retries and
--   failover; an `Outcome` says whether a call returns, panics or waits for ever for its own lock.
-- LoadBalancer: apps/carrier-connector/internal/smdp/load_balancer.go, over the carriers of Smdp.
-- PaymentMethods: apps/api-server/internal/services/subscriber_payment.go, over one table.
-- Lifecycle: apps/api-server/internal/services/subscriber_lifecycle.go with the deactivation of a profile in
--   subscriber_esim.go, over the tables of subscribers and sessions, with a fault at each call.
-- Tenants: apps/carrier-connector/internal/services/tenant_core.go (Service), tenant_config.go (Config),
--   tenant_quota.go (Quota), tenant_user_methods.go and tenant_user.go (Users), over the tables of
--   internal/repository/tenant_repository.go and its parts; Plans has what a plan gives. The other files
--   prove: Unique and Calls about the table, Settings and Creation about configurations, Usage and Checks about
--   quotas, Access and Members about users.
-- Payments: apps/api-server/internal/payment, with the queries of internal/database/crud.go. Top-ups and refunds are
--   in Payments, the handlers of Stripe's events in Payments/Webhook, over the values of Payments/Json.
-- Hub: apps/api-server/internal/websocket/handler.go. Run is `run` over a sequence of events: each case of its
--   `select` and each turn of a write pump is a `step`, so that a sequence is one interleaving.
-- Onboarding: apps/carrier-connector/internal/mvno with the service that runs it,
--   internal/services/onboarding_service.go. Onboarding has the monitor, Validator and Provisioner the files of
--   those names, Service the steps; the services behind the provisioner are functions on a world. Kept and
--   Outcome prove how an onboarding ends, Unprovisioned what the service does as it is made, Monitoring what the
--   monitor says, Requests what the validator lets through.
-- ApiKeys: apps/carrier-connector/internal/services/tenant_apikey.go over the table of keys. Stored is about what a
--   new key leaves, Use about the checks and the write of ValidateAPIKey as two steps.
-- Base: shared names, lists, maps with string keys, integers, machine words and bit fields.
--
-- Conventions. A Go map is an association list, whose order is one order of `range`; what is stated of
-- lookups holds for every order. State is passed on explicitly; a critical section is one function. Times and
-- durations are natural numbers of nanoseconds, and readings of the clock are arguments. Counters that
-- the code increments wrap at 2 ^ 64 where that is written out. No function takes fuel: loops are
-- recursion on lists or on the retries that are left, and the busy wait of the snowflake generator runs
-- over the list of the clock's readings, `none` when they run out.
--
-- Outside the models: the database, JSON, float64, the random generator, sorting, the ES2+ servers and
-- the payment gateway are parameters. Logging, tickers, HTTP plumbing and texts for people are left out. The other
-- packages of the services, the Rust and TypeScript programs and the deployment files are not modelled:
-- they are queries, calls of outside services or formulas over float64.
mod Base
mod Window
pub mod CircuitBreaker
pub mod CarrierBreaker
pub mod Snowflake
pub mod RateLimit
pub mod TenantLimiter
pub mod Cache
pub mod ThreatDetector
pub mod AlertManager
pub mod Smdp
pub mod LoadBalancer
pub mod PaymentMethods
pub mod Lifecycle
pub mod Tenants
pub mod Payments
pub mod Hub
pub mod Onboarding
pub mod ApiKeys
