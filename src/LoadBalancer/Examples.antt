-- ===== src/LoadBalancer/Examples.antt =====
-- Witnesses and tests for apps/carrier-connector/internal/smdp/load_balancer.go.
use telecom_platform.Base.{
  ℕ, ◌-◌, ◌*◌, ◌/◌, ◌%◌, ◌≤◌, ◌<◌, ◌≡◌, Bool, true, false, none, some, List, [], ◌∷◌, String, arith,
  ltb,
}
use telecom_platform.Smdp.{Carrier, healthy}
use telecom_platform.LoadBalancer.{
  LoadBalancer, weighted_round_robin, round_robin_select, select_carrier, selected, priority_select,
  least_connections_select,
}
use telecom_platform.LoadBalancer.Best.{
  Among, Best, priority_select_lem, least_connections_select_lem,
}
use telecom_platform.LoadBalancer.Rotation.{turns, round_robin_fair}
use telecom_platform.LoadBalancer.Choice.{select_carrier_lem}

abbrev ranked : String → ℕ → Carrier
ranked id p = record {
  id = id;
  name = id;
  country_code = "KE";
  mcc = "639";
  mnc = "02";
  es2_base_url = some "https://es2";
  priority = p;
  is_active = true;
  health_status = healthy;
  last_health_check = 0;
  metrics = none;
}

abbrev three : List Carrier
three = ranked "a" 1 ∷ ranked "b" 5 ∷ ranked "c" 2 ∷ []

abbrev balancer : LoadBalancer
balancer = record { strategy = weighted_round_robin; rr_counter = 7 }

abbrev last_one : ℕ → ℕ
last_one n = n - 1

last_one-below : (n : ℕ) → 0 < n → last_one n < n
last_one-below n h = omega (arith, h)

abbrev share : ℕ → ℕ → ℕ → ℕ
share w s t = (w * s) / t

round_robin_fair_example :
    (j : ℕ) × (j < 3)
    × ((round_robin_select three (turns three j balancer)).1 ≡ some (ranked "c" 2))
    × ((j' : ℕ) → j' < 3 → (turns three j' balancer).rr_counter % 3 ≡ 2 → j' ≡ j)
round_robin_fair_example = round_robin_fair three 2 balancer (omega arith) (omega arith)

priority_select_lem_example :
    (chosen : Carrier) × (priority_select three ≡ some chosen)
    × Among chosen three
    × ((d : Carrier) → Among d three → d.priority ≤ chosen.priority)
priority_select_lem_example = priority_select_lem (ranked "a" 1) (ranked "b" 5 ∷ ranked "c" 2 ∷ [])

-- Priorities in place of request rates.
abbrev lower : Carrier → Carrier → Bool
lower a b = ltb a.priority b.priority

lower-asymmetric : (a b : Carrier) → lower a b ≡ true → lower b a ≡ false
lower-asymmetric a b h = ground arith

lower-not_lower : (a b c : Carrier) → lower a b ≡ false → lower b c ≡ false → lower a c ≡ false
lower-not_lower a b c h k = ground arith

least_connections_select_lem_example :
    (chosen : Carrier) × (least_connections_select lower three ≡ some chosen)
    × Best lower three chosen
least_connections_select_lem_example =
    least_connections_select_lem lower lower-asymmetric lower-not_lower (ranked "a" 1)
      (ranked "b" 5 ∷ ranked "c" 2 ∷ [])

select_carrier_lem_example :
    (d : Carrier) × ((select_carrier last_one share lower three balancer).1 ≡ selected d)
    × Among d three
select_carrier_lem_example =
    select_carrier_lem last_one share lower (ranked "a" 1) (ranked "b" 5 ∷ ranked "c" 2 ∷ [])
      balancer last_one-below
