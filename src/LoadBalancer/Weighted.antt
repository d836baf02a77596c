-- ===== src/LoadBalancer/Weighted.antt =====
-- apps/carrier-connector/internal/smdp/load_balancer.go: the weighted random choice.
use telecom_platform.Base.{ℕ, ◌+◌, ◌≤◌, ◌<◌, ◌≡◌, some, List, ◌∷◌, ◌++◌}
use telecom_platform.Smdp.{Carrier}
use telecom_platform.LoadBalancer.{weight_of, total_weight, pick}

module _ (scaled : ℕ → ℕ → ℕ → ℕ) where
  -- A number below the total weight falls on the carrier whose share of the total it is in.
  record Share (drawn current : ℕ) (carriers : List Carrier) : Type 0 where
    before : List Carrier
    chosen : Carrier
    after : List Carrier
    split : carriers ≡ before ++ chosen ∷ after
    from_below : current + total_weight scaled before ≤ drawn
    to_above : drawn < current + total_weight scaled before + weight_of scaled chosen
    result : pick scaled drawn current carriers ≡ some chosen
