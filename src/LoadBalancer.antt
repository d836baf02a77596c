-- ===== src/LoadBalancer.antt =====
-- apps/carrier-connector/internal/smdp/load_balancer.go. The round-robin counter is a uint64 below
-- 2 ^ 64. Priorities and weights are not negative. The random generator is a parameter: `intn n` is the
-- number it gives for `n`. float64 appears as two parameters: `slower a b` is the test
-- `a.Metrics.RequestRate < b.Metrics.RequestRate`, and `scaled w s t` is `int(float64(w) * (s / t))`.
pub mod Weighted
pub mod Best
pub mod Rotation
pub mod Choice
mod Examples
use telecom_platform.Base.{
  ℕ, ◌+◌, ◌%◌, Bool, true, false, Option, none, some, List, [], ◌∷◌, ltb, ◌==◌, length, get_elem?,
  u64, if◌then◌else◌,
}
use telecom_platform.Smdp.{Carrier, CarrierMetrics}

pub data LoadBalancingStrategy : Type 0 where
  round_robin weighted_round_robin least_connections random priority : LoadBalancingStrategy

pub record LoadBalancer : Type 0 where
  pub strategy : LoadBalancingStrategy
  pub rr_counter : ℕ

unfoldable pub new_load_balancer : LoadBalancer
new_load_balancer = record { strategy = weighted_round_robin; rr_counter = 0 }

-- `none` is an index out of range, which panics.
unfoldable pub round_robin_select : List Carrier → LoadBalancer → LoadBalancer × Option Carrier
round_robin_select carriers lb = (
  record lb { rr_counter = u64 (lb.rr_counter + 1) },
  get_elem? carriers (lb.rr_counter % length carriers),
)

-- A nil pointer to the metrics, which the source dereferences, is left out.
weight_by : (ℕ → ℕ → ℕ → ℕ) → ℕ → Option CarrierMetrics → ℕ
weight_by scaled w none = w
weight_by scaled w (some s) =
    if ltb 0 s.total_requests then scaled w s.successful_requests s.total_requests else w

unfoldable pub weight_of : (ℕ → ℕ → ℕ → ℕ) → Carrier → ℕ
unfolding weight_by
weight_of scaled c = weight_by scaled c.priority c.metrics

unfoldable pub total_weight : (ℕ → ℕ → ℕ → ℕ) → List Carrier → ℕ
total_weight scaled [] = 0
total_weight scaled (c ∷ carriers) = weight_of scaled c + total_weight scaled carriers

-- The loop that finds the carrier for a random number, from the weight of those before.
unfoldable pub pick : (ℕ → ℕ → ℕ → ℕ) → ℕ → ℕ → List Carrier → Option Carrier
pick scaled drawn current [] = none
pick scaled drawn current (c ∷ carriers) =
    if ltb drawn (current + weight_of scaled c)
    then some c
    else pick scaled drawn (current + weight_of scaled c) carriers

abbrev or_first : Option Carrier → List Carrier → Option Carrier
or_first none carriers = get_elem? carriers 0
or_first (some c) carriers = some c

unfoldable pub weighted_round_robin_select :
    (ℕ → ℕ) → (ℕ → ℕ → ℕ → ℕ) → List Carrier → Option Carrier
weighted_round_robin_select intn scaled carriers =
    if total_weight scaled carriers == 0
    then get_elem? carriers 0
    else or_first (pick scaled (intn (total_weight scaled carriers)) 0 carriers) carriers

unfoldable pub least_of : (Carrier → Carrier → Bool) → Carrier → List Carrier → Carrier
least_of slower best [] = best
least_of slower best (c ∷ carriers) = least_of slower (if slower c best then c else best) carriers

unfoldable pub least_connections_select : (Carrier → Carrier → Bool) → List Carrier → Option Carrier
least_connections_select slower [] = none
least_connections_select slower (c ∷ carriers) = some (least_of slower c carriers)

unfoldable pub random_select : (ℕ → ℕ) → List Carrier → Option Carrier
random_select intn carriers = get_elem? carriers (intn (length carriers))

unfoldable pub highest_of : Carrier → List Carrier → Carrier
highest_of best [] = best
highest_of best (c ∷ carriers) =
    highest_of (if ltb best.priority c.priority then c else best) carriers

unfoldable pub priority_select : List Carrier → Option Carrier
priority_select [] = none
priority_select (c ∷ carriers) = some (highest_of c carriers)

pub data Selection : Type 0 where
  no_carriers out_of_range : Selection
  selected : Carrier → Selection

abbrev in_range : Option Carrier → Selection
in_range none = out_of_range
in_range (some c) = selected c

-- The `switch` on the strategy.
unfoldable pub dispatch :
    (ℕ → ℕ)
    → (ℕ → ℕ → ℕ → ℕ)
    → (Carrier → Carrier → Bool)
    → LoadBalancingStrategy
    → List Carrier
    → LoadBalancer
    → LoadBalancer × Selection
unfolding least_connections_select priority_select
dispatch intn scaled slower round_robin carriers lb =
    let (lb', found) = round_robin_select carriers lb in (lb', in_range found)
dispatch intn scaled slower weighted_round_robin carriers lb =
    (lb, in_range (weighted_round_robin_select intn scaled carriers))
dispatch intn scaled slower least_connections carriers lb =
    (lb, in_range (least_connections_select slower carriers))
dispatch intn scaled slower random carriers lb = (lb, in_range (random_select intn carriers))
dispatch intn scaled slower priority carriers lb = (lb, in_range (priority_select carriers))

unfoldable pub select_carrier :
    (ℕ → ℕ)
    → (ℕ → ℕ → ℕ → ℕ)
    → (Carrier → Carrier → Bool)
    → List Carrier
    → LoadBalancer
    → LoadBalancer × Selection
unfolding dispatch
select_carrier intn scaled slower [] lb = (lb, no_carriers)
select_carrier intn scaled slower (c ∷ carriers) lb =
    dispatch intn scaled slower lb.strategy (c ∷ carriers) lb
