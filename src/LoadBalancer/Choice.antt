-- ===== src/LoadBalancer/Choice.antt =====
-- apps/carrier-connector/internal/smdp/load_balancer.go: every strategy chooses one of the carriers.
use native.Mathlib.Nat.{mod-lt}
use telecom_platform.Base.{
  ℕ, zero, suc, ◌+◌, ◌%◌, ◌<◌, ◌≡◌, refl, inl, inr, Bool, true, false, Option, some, List, [], ◌∷◌,
  arith, ltb, ◌==◌, length, get_elem?, if◌then◌else◌, Bool-cases, Option-cases,
}
use telecom_platform.Smdp.{Carrier}
use telecom_platform.LoadBalancer.{
  LoadBalancer, LoadBalancingStrategy, round_robin, weighted_round_robin, least_connections, random,
  priority, selected, select_carrier, least_of, highest_of, pick, weight_of, total_weight,
  round_robin_select, weighted_round_robin_select, random_select, least_connections_select,
  priority_select, dispatch,
}
use telecom_platform.LoadBalancer.Best.{Among}

one_of :
    (b : Bool) (x c best : Carrier) (carriers : List Carrier)
    → Among x ((if b then c else best) ∷ carriers)
    → Among x (best ∷ c ∷ carriers)
one_of true x c best carriers a = inr a
one_of false x c best carriers (inl q) = inl q
one_of false x c best carriers (inr a) = inr (inr a)

least_of-Among :
    (slower : Carrier → Carrier → Bool) (best : Carrier) (carriers : List Carrier)
    → Among (least_of slower best carriers) (best ∷ carriers)
unfolding least_of
least_of-Among slower best [] = inl refl
least_of-Among slower best (c ∷ carriers) =
    one_of (slower c best) (least_of slower best (c ∷ carriers)) c best carriers
      (least_of-Among slower (if slower c best then c else best) carriers)

highest_of-Among :
    (best : Carrier) (carriers : List Carrier) → Among (highest_of best carriers) (best ∷ carriers)
unfolding highest_of
highest_of-Among best [] = inl refl
highest_of-Among best (c ∷ carriers) =
    one_of (ltb best.priority c.priority) (highest_of best (c ∷ carriers)) c best carriers
      (highest_of-Among (if ltb best.priority c.priority then c else best) carriers)

-- An index in range gives one of the carriers.
Gives : List Carrier → Option Carrier → Type 0
Gives carriers found = (c : Carrier) × (found ≡ some c) × Among c carriers

get_elem?-Gives :
    (carriers : List Carrier) (i : ℕ) → i < length carriers → Gives carriers (get_elem? carriers i)
unfolding Gives
get_elem?-Gives [] i h = ground (arith, h)
get_elem?-Gives (c ∷ carriers) zero h = (c, refl, inl refl)
get_elem?-Gives (c ∷ carriers) (suc i) h =
    let (d, q, a) = get_elem?-Gives carriers i (omega (arith, h)) in (d, q, inr a)

pick-Among :
    (scaled : ℕ → ℕ → ℕ → ℕ) (drawn current : ℕ) (carriers : List Carrier) (c : Carrier)
    → pick scaled drawn current carriers ≡ some c
    → Among c carriers
unfolding pick
pick-Among scaled drawn current [] c q = ground arith
pick-Among scaled drawn current (d ∷ carriers) c q =
    elim (Bool-cases (ltb drawn (current + weight_of scaled d))) [
      | inl e ↦ let h = rw e at q in inl (ground arith)
      | inr e ↦ inr (pick-Among scaled drawn (current + weight_of scaled d) carriers c (rw e at q))
    ]

weighted-Gives :
    (intn : ℕ → ℕ) (scaled : ℕ → ℕ → ℕ → ℕ) (c : Carrier) (carriers : List Carrier)
    → Gives (c ∷ carriers) (weighted_round_robin_select intn scaled (c ∷ carriers))
unfolding weighted_round_robin_select Gives
weighted-Gives intn scaled c carriers =
    let total = total_weight scaled (c ∷ carriers) in
    elim (Bool-cases (total == 0)) [
      | inl e ↦ rw e (c, refl, inl refl)
      | inr e ↦ elim (Option-cases (pick scaled (intn total) 0 (c ∷ carriers))) [
        | inl q ↦ rw (e, q) (c, refl, inl refl)
        | inr (d, q) ↦ rw (e, q) (d, refl, pick-Among scaled (intn total) 0 (c ∷ carriers) d q)
      ]
    ]

-- With a random generator that keeps below its bound, every strategy selects one of the carriers, if
-- there is any: no index is out of range.
pub select_carrier_lem :
    (intn : ℕ → ℕ) (scaled : ℕ → ℕ → ℕ → ℕ) (slower : Carrier → Carrier → Bool) (c : Carrier)
    (carriers : List Carrier) (lb : LoadBalancer)
    → ((n : ℕ) → 0 < n → intn n < n)
    → (d : Carrier) × ((select_carrier intn scaled slower (c ∷ carriers) lb).1 ≡ selected d)
      × Among d (c ∷ carriers)
unfolding select_carrier dispatch Gives round_robin_select random_select least_connections_select
    priority_select
select_carrier_lem intn scaled slower c carriers lb bound = by_strategy lb.strategy
  where
    by_strategy :
        (strategy : LoadBalancingStrategy)
        → (d : Carrier) × ((dispatch intn scaled slower strategy (c ∷ carriers) lb).1 ≡ selected d)
          × Among d (c ∷ carriers)
    by_strategy round_robin =
        let (d, q, a) =
          get_elem?-Gives (c ∷ carriers) (lb.rr_counter % length (c ∷ carriers))
            (mod-lt lb.rr_counter (omega arith)) in
        (d, rw q refl, a)
    by_strategy weighted_round_robin =
        let (d, q, a) = weighted-Gives intn scaled c carriers in (d, rw q refl, a)
    by_strategy least_connections = (_, refl, least_of-Among slower c carriers)
    by_strategy random =
        let (d, q, a) =
          get_elem?-Gives (c ∷ carriers) (intn (length (c ∷ carriers)))
            (bound (length (c ∷ carriers)) (omega arith)) in
        (d, rw q refl, a)
    by_strategy priority = (_, refl, highest_of-Among c carriers)
