-- ===== src/AlertManager/Transitions.antt =====
-- apps/api-server/internal/monitoring/alerting.go: the states of one alert.
use text.Mathlib.Text.{◌==◌ as str_eq}
use text.Mathlib.TextEquality.{eq_iff}
use telecom_platform.Base.{
  ℕ, ◌≡◌, refl, ap, subst, ◌∙◌, Bool, true, false, not, Option, none, some, List, [], ◌∷◌, ◌++◌,
  String, arith, if◌then◌else◌, Dict, lookup, lookup-insert, lookup-insert_self, Bool-cases,
  Option-cases, inl, inr,
}
use telecom_platform.AlertManager.{
  Alert, AlertRule, AlertManager, Notice, sent, cleared, resolved, Floats, handle_rule_evaluation,
  is_firing, is_resolved, add_rule, new_alert_manager, new_alert,
}

-- Whether the alert under an identifier is firing.
abbrev pub fires : Option Alert → Bool
fires none = false
fires (some alert) = is_firing alert.status

-- An alert that nothing silenced, under its own identifier.
abbrev pub Sound : String → Option Alert → Type 0
Sound id none = Unit {0}
Sound id (some alert) = (is_firing alert.status ≡ not (is_resolved alert.status)) × (alert.id ≡ id)

abbrev pub AllSound : {F : Type 0} → AlertManager F → Type 0
AllSound am = (id : String) → Sound id (lookup id am.alerts)

-- How the notices about an identifier change whether it fires: sent when it does not, cleared when it
-- does; `none` when they do not alternate.
abbrev heard : String → Bool → Notice → Option Bool
heard id on (sent alert) = if str_eq alert.id id then (if on then none else some true) else some on
heard id on (cleared other) = if str_eq other id then (if on then some false else none) else some on

follow_from : (Bool → Option Bool) → Option Bool → Option Bool
follow_from rest none = none
follow_from rest (some on) = rest on

unfoldable pub follow : String → List Notice → Bool → Option Bool
unfolding follow_from
follow id [] on = some on
follow id (notice ∷ notices) on = follow_from (follow id notices) (heard id on notice)

follow-append :
    (id : String) (xs ys : List Notice) (on : Bool)
    → follow id (xs ++ ys) on ≡ follow_from (follow id ys) (follow id xs on)
unfolding follow follow_from
follow-append id [] ys on = refl
follow-append id (x ∷ xs) ys on = elim (Option-cases (heard id on x)) [
  | inl e ↦ rw (follow, e) refl
  | inr (b, e) ↦ rw (e) (follow-append id xs ys b)
]

pub same_key : (k j : String) (m : Dict Alert) → str_eq k j ≡ true → lookup k m ≡ lookup j m
same_key k j m e = ap (λ i. lookup i m) ((eq_iff k j).0 e)

module _ {F : Type 0} (float : Floats F) where
  pub handle-others :
      (now : ℕ) (rule : AlertRule F) (should : Bool) (value : F) (id : String) (am : AlertManager F)
      → str_eq rule.id id ≡ false
      → lookup id (handle_rule_evaluation float now rule should value am).0.alerts
        ≡ lookup id am.alerts
  unfolding handle_rule_evaluation
  handle-others now rule should value id am ne = elim (Option-cases (lookup rule.id am.alerts)) [
    | inl e ↦ ground (arith, lookup-insert rule.id id (new_alert float now rule value) am.alerts)
    | inr (a, e) ↦ ground (
      arith,
      lookup-insert rule.id id (new_alert float now rule value) am.alerts,
      lookup-insert rule.id id (record a { status = resolved; last_evaluated = now }) am.alerts,
    )
  ]

  pub handle-fires :
      (now : ℕ) (rule : AlertRule F) (should : Bool) (value : F) (am : AlertManager F)
      → Sound rule.id (lookup rule.id am.alerts)
      → let am' = (handle_rule_evaluation float now rule should value am).0 in
        (fires (lookup rule.id am'.alerts) ≡ should) × Sound rule.id (lookup rule.id am'.alerts)
  unfolding handle_rule_evaluation
  handle-fires now rule should value am sound = elim (Option-cases (lookup rule.id am.alerts)) [
    | inl e ↦
        ground (arith, e, lookup-insert_self rule.id (new_alert float now rule value) am.alerts)
    | inr (a, e) ↦ elim (Bool-cases (is_firing a.status)) [
      | inl f ↦ ground (
        arith,
        e,
        f,
        sound,
        lookup-insert_self rule.id (new_alert float now rule value) am.alerts,
        lookup-insert_self rule.id (record a { status = resolved; last_evaluated = now }) am.alerts,
      )
      | inr f ↦ ground (
        arith,
        e,
        f,
        sound,
        lookup-insert_self rule.id (new_alert float now rule value) am.alerts,
        lookup-insert_self rule.id (record a { status = resolved; last_evaluated = now }) am.alerts,
      )
    ]
  ]

  handle-follow :
      (now : ℕ) (rule : AlertRule F) (should : Bool) (value : F) (id : String) (am : AlertManager F)
      → Sound rule.id (lookup rule.id am.alerts)
      → let (am', notices) = handle_rule_evaluation float now rule should value am in
        follow id notices (fires (lookup id am.alerts)) ≡ some (fires (lookup id am'.alerts))
  unfolding handle_rule_evaluation follow
  handle-follow now rule should value id am sound = elim (Option-cases (lookup rule.id am.alerts)) [
    | inl e ↦ elim (Bool-cases (str_eq rule.id id)) [
      | inl q ↦
          let r = same_key rule.id id am.alerts q in
          ground
            (arith, e, q, r, lookup-insert rule.id id (new_alert float now rule value) am.alerts)
      | inr q ↦
          ground (arith, e, q, lookup-insert rule.id id (new_alert float now rule value) am.alerts)
    ]
    | inr (a, e) ↦
        let inserted =
          lookup-insert rule.id id (record a { status = resolved; last_evaluated = now })
            am.alerts in
        let sent_one = lookup-insert rule.id id (new_alert float now rule value) am.alerts in
        elim (Bool-cases (str_eq rule.id id)) [
          | inl q ↦
              let r = same_key rule.id id am.alerts q in
              ground (arith, e, sound, q, r, inserted, sent_one)
          | inr q ↦ ground (arith, e, sound, q, inserted, sent_one)
        ]
  ]

-- Any sequence of results of evaluations and of new rules, as they reach the manager in whatever
-- order: those of several rounds and rules may interleave.
pub data Event (F : Type 0) : Type 0 where
  evaluates : ℕ → AlertRule F → Bool → F → Event F
  adds : AlertRule F → Event F

module _ {F : Type 0} (float : Floats F) where
  unfoldable pub react : Event F → AlertManager F → AlertManager F × List Notice
  react (evaluates now rule should value) am = handle_rule_evaluation float now rule should value am
  react (adds rule) am = (add_rule rule am, [])

  unfoldable pub run : List (Event F) → AlertManager F → AlertManager F × List Notice
  run [] am = (am, [])
  run (event ∷ events) am =
      let (am', notices) = react event am in
      let (am'', later) = run events am' in (am'', notices ++ later)

  pub react-Sound :
      (event : Event F) (am : AlertManager F) → AllSound am → AllSound (react event am).0
  unfolding react add_rule
  react-Sound (evaluates now rule should value) am sound id =
      elim (Bool-cases (str_eq rule.id id)) [
        | inl q ↦
            subst
              (λ k.
                Sound k (lookup k (handle_rule_evaluation float now rule should value am).0.alerts))
              ((eq_iff rule.id id).0 q)
              (handle-fires float now rule should value am (sound rule.id)).1
        | inr q ↦ rw (handle-others float now rule should value id am q) (sound id)
      ]
  react-Sound (adds rule) am sound id = sound id

  react-follow :
      (event : Event F) (id : String) (am : AlertManager F)
      → AllSound am
      → follow id (react event am).1 (fires (lookup id am.alerts))
        ≡ some (fires (lookup id (react event am).0.alerts))
  unfolding react add_rule follow
  react-follow (evaluates now rule should value) id am sound =
      handle-follow float now rule should value id am (sound rule.id)
  react-follow (adds rule) id am sound = refl

  run-follow :
      (events : List (Event F)) (id : String) (am : AlertManager F)
      → AllSound am
      → follow id (run events am).1 (fires (lookup id am.alerts))
        ≡ some (fires (lookup id (run events am).0.alerts))
  unfolding run follow follow_from
  run-follow [] id am sound = refl
  run-follow (event ∷ events) id am sound =
      follow-append id (react event am).1 (run events (react event am).0).1
        (fires (lookup id am.alerts))
      ∙ (ap (follow_from (follow id (run events (react event am).0).1))
            (react-follow event id am sound)
          ∙ run-follow events id (react event am).0 (react-Sound event am sound))

  -- From a new manager, however evaluations of any rules and new rules interleave, the notices about
  -- an identifier alternate, sent first and then cleared, and the last of them says whether its alert
  -- fires.
  pub notices_alternate :
      (events : List (Event F)) (id : String)
      → follow id (run events new_alert_manager).1 false
        ≡ some (fires (lookup id (run events new_alert_manager).0.alerts))
  unfolding new_alert_manager lookup
  notices_alternate events id = run-follow events id new_alert_manager (λ k. tt)

  -- After an evaluation the alert of the rule fires exactly when it should, if nothing silenced it
  -- before, and every other alert stays as it was.
  pub handle_rule_evaluation_lem :
      (now : ℕ) (rule : AlertRule F) (should : Bool) (value : F) (am : AlertManager F)
      → AllSound am
      → let am' = (handle_rule_evaluation float now rule should value am).0 in
        (fires (lookup rule.id am'.alerts) ≡ should)
        × ((id : String) → str_eq rule.id id ≡ false → lookup id am'.alerts ≡ lookup id am.alerts)
  handle_rule_evaluation_lem now rule should value am sound = (
    (handle-fires float now rule should value am (sound rule.id)).0,
    λ id ne. handle-others float now rule should value id am ne,
  )
