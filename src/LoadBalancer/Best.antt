-- ===== src/LoadBalancer/Best.antt =====
-- apps/carrier-connector/internal/smdp/load_balancer.go: the choices of a best carrier.
use telecom_platform.Base.{
  ◌≤◌, ◌≡◌, some, refl, sym, subst, ap, ◌∙◌, ◌⊎◌, inl, inr, Bool, true, false, List, [], ◌∷◌, arith,
  ltb, if◌then◌else◌, Bool-cases,
}
use telecom_platform.Smdp.{Carrier}
use telecom_platform.LoadBalancer.{least_of, highest_of, priority_select, least_connections_select}

-- One of a list.
abbrev pub Among : Carrier → List Carrier → Type 0
Among c [] = ⊥
Among c (d ∷ carriers) = (c ≡ d) ⊎ Among c carriers

-- A choice of the best by `better` is one of the carriers, and none of them is better.
pub record Best (better : Carrier → Carrier → Bool) (carriers : List Carrier) (chosen : Carrier)
    : Type 0 where
  pub among : Among chosen carriers
  pub none_better : (c : Carrier) → Among c carriers → better c chosen ≡ false

module _ (better : Carrier → Carrier → Bool)
    (asymmetric : (a b : Carrier) → better a b ≡ true → better b a ≡ false)
    (not_better : (a b c : Carrier)
      → better a b ≡ false
      → better b c ≡ false
      → better a c ≡ false) where
  irreflexive : (c : Carrier) → better c c ≡ false
  irreflexive c = elim (Bool-cases (better c c)) [ inl e ↦ asymmetric c c e | inr e ↦ e ]

  -- Keeping the better of two: no worse than either.
  keep_better :
      (b : Bool) (c best chosen : Carrier) (carriers : List Carrier)
      → better c best ≡ b
      → Best better ((if b then c else best) ∷ carriers) chosen
      → Best better (best ∷ c ∷ carriers) chosen
  keep_better true c best chosen carriers e r = record {
    among = inr r.among;
    none_better = λ d a. elim a [
      | inl q ↦
          not_better d c chosen (ap (λ x. better x c) q ∙ asymmetric c best e)
            (r.none_better c (inl refl))
      | inr rest ↦ r.none_better d rest
    ];
  }
  keep_better false c best chosen carriers e r = record {
    among = elim r.among [ inl q ↦ inl q | inr rest ↦ inr (inr rest) ];
    none_better = λ d a. elim a [
      | inl q ↦ r.none_better d (inl q)
      | inr rest ↦ elim rest [
        | inl q ↦
            not_better d best chosen (ap (λ x. better x best) q ∙ e) (r.none_better best (inl refl))
        | inr more ↦ r.none_better d (inr more)
      ]
    ];
  }

  least_of-Best :
      (best : Carrier) (carriers : List Carrier)
      → Best better (best ∷ carriers) (least_of better best carriers)
  unfolding least_of
  least_of-Best best [] = record {
    among = inl refl;
    none_better = λ d a. elim a [
      | inl q ↦ ap (λ x. better x best) q ∙ irreflexive best
      | inr rest ↦ elim rest [ ]
    ];
  }
  least_of-Best best (c ∷ carriers) =
      keep_better (better c best) c best (least_of better best (c ∷ carriers)) carriers refl
        (least_of-Best (if better c best then c else best) carriers)

higher : Carrier → Carrier → Bool
higher a b = ltb b.priority a.priority

highest_of-least_of :
    (best : Carrier) (carriers : List Carrier)
    → highest_of best carriers ≡ least_of higher best carriers
unfolding highest_of least_of higher
highest_of-least_of best [] = refl
highest_of-least_of best (c ∷ carriers) =
    highest_of-least_of (if ltb best.priority c.priority then c else best) carriers

-- The priority strategy chooses one of the carriers, and none has a higher priority.
pub priority_select_lem :
    (c : Carrier) (carriers : List Carrier)
    → (chosen : Carrier) × (priority_select (c ∷ carriers) ≡ some chosen)
      × Among chosen (c ∷ carriers)
      × ((d : Carrier) → Among d (c ∷ carriers) → d.priority ≤ chosen.priority)
unfolding priority_select higher
priority_select_lem c carriers =
    let b =
      subst (Best higher (c ∷ carriers)) (sym (highest_of-least_of c carriers))
        (least_of-Best higher (λ x y h. ground arith) (λ x y z h k. ground arith) c carriers) in
    (highest_of c carriers, refl, b.among, λ d a. ground (arith, b.none_better d a))

-- The least-connections strategy chooses one of the carriers, and none has a lower request rate, where
-- the comparison of rates is a strict weak order, as that of numbers is.
pub least_connections_select_lem :
    (slower : Carrier → Carrier → Bool)
    → ((a b : Carrier) → slower a b ≡ true → slower b a ≡ false)
    → ((a b c : Carrier) → slower a b ≡ false → slower b c ≡ false → slower a c ≡ false)
    → (c : Carrier) (carriers : List Carrier)
    → (chosen : Carrier) × (least_connections_select slower (c ∷ carriers) ≡ some chosen)
      × Best slower (c ∷ carriers) chosen
unfolding least_connections_select
least_connections_select_lem slower asymmetric not_slower c carriers =
    (least_of slower c carriers, refl, least_of-Best slower asymmetric not_slower c carriers)
