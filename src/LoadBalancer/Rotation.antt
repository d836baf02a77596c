-- ===== src/LoadBalancer/Rotation.antt =====
-- apps/carrier-connector/internal/smdp/load_balancer.go: the round-robin choice.
use native.Mathlib.Nat.{mod-add-mod, mod-eq_of_lt, mod-lt, add-mod_right}
use telecom_platform.Base.{
  ℕ, zero, suc, ◌+◌, ◌-◌, ◌%◌, ◌^◌, ◌<◌, ◌≡◌, ap, sym, ◌∙◌, inl, inr, List, arith, length,
  get_elem?, ltb, leb, if◌then◌else◌, Bool-cases,
}
use telecom_platform.Smdp.{Carrier}
use telecom_platform.LoadBalancer.{LoadBalancer, round_robin_select}

-- The load balancer after some round-robin selections.
unfoldable pub turns : List Carrier → ℕ → LoadBalancer → LoadBalancer
turns carriers zero lb = lb
turns carriers (suc n) lb = (round_robin_select carriers (turns carriers n lb)).0

turns-counter :
    (carriers : List Carrier) (n : ℕ) (lb : LoadBalancer)
    → lb.rr_counter + n < 2 ^ 64
    → (turns carriers n lb).rr_counter ≡ lb.rr_counter + n
unfolding turns round_robin_select
turns-counter carriers zero lb h = omega arith
turns-counter carriers (suc n) lb h =
    omega (arith, h, turns-counter carriers n lb (omega (arith, h)))

wrapped : (x n : ℕ) → x < n → (x + n) % n ≡ x
wrapped x n h = add-mod_right x n ∙ mod-eq_of_lt h

-- The position of a turn, from the position of the first.
position :
    (k j n : ℕ) → j < n → (k + j) % n ≡ (if ltb (k % n + j) n then k % n + j else (k % n + j) - n)
position k j n h = elim (Bool-cases (ltb (k % n + j) n)) [
  | inl e ↦ rw e (sym (mod-add-mod k n j) ∙ mod-eq_of_lt (ground arith))
  | inr e ↦
      let below : k % n < n = mod-lt k (omega (arith, h)) in
      let again : k % n + j ≡ ((k % n + j) - n) + n = ground arith in
      rw e (
        sym (mod-add-mod k n j)
        ∙ (ap (λ x. x % n) again ∙ wrapped ((k % n + j) - n) n (ground (arith, below))))
]

-- Over as many turns as there are carriers, while the counter does not wrap, every position is chosen
-- in exactly one turn.
pub round_robin_fair :
    (carriers : List Carrier) (i : ℕ) (lb : LoadBalancer)
    → i < length carriers
    → lb.rr_counter + length carriers < 2 ^ 64
    → (j : ℕ) × (j < length carriers)
      × ((round_robin_select carriers (turns carriers j lb)).1 ≡ get_elem? carriers i)
      × ((j' : ℕ)
          → j' < length carriers
          → (turns carriers j' lb).rr_counter % length carriers ≡ i
          → j' ≡ j)
unfolding round_robin_select
round_robin_fair carriers i lb h w =
    let n = length carriers in
    let k = lb.rr_counter in
    let p = k % n in
    let below : p < n = mod-lt k (omega (arith, h)) in
    let j = if leb p i then i - p else (i + n) - p in
    let j_below : j < n = ground (arith, h, below) in
    (
      j,
      j_below,
      ap (get_elem? carriers) (
          ap (λ x. x % n) (turns-counter carriers j lb (omega (arith, w, j_below)))
          ∙ (position k j n j_below ∙ ground (arith, h, below))),
      λ j' h' q.
          let r =
            sym (position k j' n h')
            ∙ (ap (λ x. x % n) (sym (turns-counter carriers j' lb (omega (arith, w, h')))) ∙ q) in
          ground (arith, r, h, h', below),
    )
