-- ===== src/AlertManager/Rounds.antt =====
-- apps/api-server/internal/monitoring/alerting.go: rounds of `EvaluateRules`.
use text.Mathlib.Text.{◌==◌ as str_eq}
use text.Mathlib.TextEquality.{eq_iff}
use telecom_platform.Base.{
  ℕ, ◌≡◌, refl, sym, ap, subst, ◌∙◌, Bool, true, Option, none, some, List, [], ◌∷◌, String, arith,
  if◌then◌else◌, Dict, lookup, insert, delete, IsMap, lookup-delete, lookup-Fresh, delete-IsMap,
  Bool-cases, Option-cases, inl, inr,
}
use telecom_platform.AlertManager.{
  Alert, AlertRule, AlertManager, Floats, Measures, handle_rule_evaluation, Evaluation, evaluated,
  failed, evaluate_rule, handle_evaluation, evaluate_one, evaluate_all, evaluate_rules, remove_rule,
}
use telecom_platform.AlertManager.Transitions.{
  fires, Sound, AllSound, react-Sound, handle-fires, handle-others, evaluates, same_key, react,
}

delete-Sound :
    (gone id : String) (alerts : Dict Alert)
    → Sound id (lookup id alerts)
    → Sound id (lookup id (delete gone alerts))
delete-Sound gone id alerts h = elim (Bool-cases (str_eq gone id)) [
  | inl e ↦ rw (lookup-delete gone id alerts, e) tt
  | inr e ↦ rw (lookup-delete gone id alerts, e) h
]

module _ {F : Type 0} where
  -- The rules are a map, each under its own identifier.
  abbrev pub Keyed : Dict (AlertRule F) → Type 0
  Keyed [] = Unit {0}
  Keyed ((key, rule) ∷ rules) = (rule.id ≡ key) × Keyed rules

  pub record Filed (am : AlertManager F) : Type 0 where
    pub is_map : IsMap am.rules
    pub keyed : Keyed am.rules
    pub sound : AllSound am

  insert-Keyed :
      (rule : AlertRule F) (rules : Dict (AlertRule F))
      → Keyed rules
      → Keyed (insert rule.id rule rules)
  unfolding insert
  insert-Keyed rule [] h = (refl, tt)
  insert-Keyed rule ((key, other) ∷ rules) h = elim (Bool-cases (str_eq key rule.id)) [
    | inl e ↦ rw e (refl, h.1)
    | inr e ↦ rw e (h.0, insert-Keyed rule rules h.1)
  ]

  delete-Keyed : (id : String) (rules : Dict (AlertRule F)) → Keyed rules → Keyed (delete id rules)
  unfolding delete
  delete-Keyed id [] h = tt
  delete-Keyed id ((key, other) ∷ rules) h = elim (Bool-cases (str_eq key id)) [
    | inl e ↦ rw e (delete-Keyed id rules h.1)
    | inr e ↦ rw e (h.0, delete-Keyed id rules h.1)
  ]

  remove_rule-Filed : (id : String) (am : AlertManager F) → Filed am → Filed (remove_rule id am)
  unfolding remove_rule
  remove_rule-Filed id am f = record {
    is_map = delete-IsMap id am.rules f.is_map;
    keyed = delete-Keyed id am.rules f.keyed;
    sound = λ k. delete-Sound id k am.alerts (f.sound k);
  }

  -- Whether the alert of a rule fires after a round, by whether it did before: a rule that is
  -- missing, disabled or fails to evaluate changes nothing.
  abbrev by_evaluation : Evaluation F → Bool → Bool
  by_evaluation failed before = before
  by_evaluation (evaluated should value) before = should

  unfoldable pub after_round : Floats F → Measures F → Option (AlertRule F) → Bool → Bool
  after_round float m none before = before
  after_round float m (some rule) before =
      if rule.enabled then by_evaluation (evaluate_rule float m rule) before else before

module _ {F : Type 0} (float : Floats F) where
  handle-step :
      (now : ℕ) (rule : AlertRule F) (e : Evaluation F) (am : AlertManager F)
      → AllSound am
      → AllSound (handle_evaluation float now rule e am).0
        × ((id : String)
            → fires (lookup id (handle_evaluation float now rule e am).0.alerts) ≡ (
                if str_eq rule.id id
                then by_evaluation e (fires (lookup id am.alerts))
                else fires (lookup id am.alerts)))
  unfolding handle_evaluation react
  handle-step now rule failed am sound = (sound, λ id. ground arith)
  handle-step now rule (evaluated should value) am sound = (
    react-Sound float (evaluates now rule should value) am sound,
    λ id. elim (Bool-cases (str_eq rule.id id)) [
      | inl q ↦ rw q (
          ap fires (
            sym (
              same_key rule.id id (handle_rule_evaluation float now rule should value am).0.alerts
                q))
          ∙ (handle-fires float now rule should value am (sound rule.id)).0)
      | inr q ↦ rw q (ap fires (handle-others float now rule should value id am q))
    ],
  )

  evaluate_one-step :
      (now : ℕ) (m : Measures F) (rule : AlertRule F) (am : AlertManager F)
      → AllSound am
      → AllSound (evaluate_one float now m rule am).0
        × ((id : String)
            → fires (lookup id (evaluate_one float now m rule am).0.alerts) ≡ (
                if str_eq rule.id id
                then after_round float m (some rule) (fires (lookup id am.alerts))
                else fires (lookup id am.alerts)))
  unfolding evaluate_one after_round
  evaluate_one-step now m rule am sound = elim (Bool-cases rule.enabled) [
    | inl on ↦ simp on (handle-step now rule (evaluate_rule float m rule) am sound)
    | inr off ↦ simp off (sound, λ id. ground arith)
  ]

  evaluate_all-fires :
      (now : ℕ) (m : String → Measures F) (rules : Dict (AlertRule F)) (id : String)
      (am : AlertManager F)
      → IsMap rules
      → Keyed rules
      → AllSound am
      → AllSound (evaluate_all float now m rules am).0
        × (fires (lookup id (evaluate_all float now m rules am).0.alerts)
            ≡ after_round float (m id) (lookup id rules) (fires (lookup id am.alerts)))
  unfolding evaluate_all lookup after_round
  evaluate_all-fires now m [] id am u k sound = (sound, refl)
  evaluate_all-fires now m ((key, rule) ∷ rules) id am u k sound =
      let one = evaluate_one-step now (m key) rule am sound in
      let next = (evaluate_one float now (m key) rule am).0 in
      let rest = evaluate_all-fires now m rules id next u.1 k.1 one.0 in
      (
        rest.0,
        elim (Bool-cases (str_eq key id)) [
          | inl q ↦
              let e = (eq_iff key id).0 q in
              let absent : lookup id rules ≡ none =
                ap (λ i. lookup i rules) (sym e) ∙ lookup-Fresh key rules u.0 in
              ground (arith, absent, rest.1, one.1 id, k.0, q, ap m e)
          | inr q ↦ ground (arith, rest.1, one.1 id, k.0, q)
        ],
      )

  handle_rule_evaluation-rules :
      (now : ℕ) (rule : AlertRule F) (should : Bool) (value : F) (am : AlertManager F)
      → (handle_rule_evaluation float now rule should value am).0.rules ≡ am.rules
  unfolding handle_rule_evaluation
  handle_rule_evaluation-rules now rule should value am =
      elim (Option-cases (lookup rule.id am.alerts)) [
        | inl e ↦ ground arith
        | inr (a, e) ↦ ground arith
      ]

  evaluated-rules :
      (now : ℕ) (rule : AlertRule F) (e : Evaluation F) (am : AlertManager F)
      → (handle_evaluation float now rule e am).0.rules ≡ am.rules
  unfolding handle_evaluation
  evaluated-rules now rule failed am = refl
  evaluated-rules now rule (evaluated should value) am =
      handle_rule_evaluation-rules now rule should value am

  evaluate_all-rules :
      (now : ℕ) (m : String → Measures F) (rules : Dict (AlertRule F)) (am : AlertManager F)
      → (evaluate_all float now m rules am).0.rules ≡ am.rules
  unfolding evaluate_all evaluate_one
  evaluate_all-rules now m [] am = refl
  evaluate_all-rules now m ((key, rule) ∷ rules) am =
      evaluate_all-rules now m rules (evaluate_one float now (m key) rule am).0
      ∙ (elim (Bool-cases rule.enabled) [
        | inl on ↦ simp on (evaluated-rules now rule (evaluate_rule float (m key) rule) am)
        | inr off ↦ simp off refl
      ])

  -- Where each rule is filed under its own identifier and no alert is silenced, a round gives
  -- every rule's alert the state that the rule's own evaluation asks for, and leaves the others,
  -- disabled and failing rules' included, as they were, in whatever order it visits the rules;
  -- and this still holds of the rules and alerts after it.
  pub evaluate_rules_lem :
      (now : ℕ) (m : String → Measures F) (am : AlertManager F)
      → Filed am
      → Filed (evaluate_rules float now m am).0
        × ((id : String)
            → fires (lookup id (evaluate_rules float now m am).0.alerts)
              ≡ after_round float (m id) (lookup id am.rules) (fires (lookup id am.alerts)))
  unfolding evaluate_rules
  evaluate_rules_lem now m am f =
      let kept = evaluate_all-rules now m am.rules am in
      (
        record {
          is_map = subst (λ rules. IsMap rules) (sym kept) f.is_map;
          keyed = subst (λ rules. Keyed rules) (sym kept) f.keyed;
          sound = (λ id. (evaluate_all-fires now m am.rules id am f.is_map f.keyed f.sound).0 id);
        },
        λ id. (evaluate_all-fires now m am.rules id am f.is_map f.keyed f.sound).1,
      )

  evaluate_rules-rules :
      (now : ℕ) (m : String → Measures F) (am : AlertManager F)
      → (evaluate_rules float now m am).0.rules ≡ am.rules
  unfolding evaluate_rules
  evaluate_rules-rules now m am = evaluate_all-rules now m am.rules am

  unfoldable pub rounds : List (ℕ × (String → Measures F)) → AlertManager F → AlertManager F
  rounds [] am = am
  rounds ((now, m) ∷ rest) am = rounds rest (evaluate_rules float now m am).0

  rounds-orphan :
      (rest : List (ℕ × (String → Measures F))) (id : String) (am : AlertManager F)
      → Filed am
      → lookup id am.rules ≡ none
      → fires (lookup id (rounds rest am).alerts) ≡ fires (lookup id am.alerts)
  unfolding rounds after_round
  rounds-orphan [] id am f absent = refl
  rounds-orphan ((now, m) ∷ rest) id am f absent =
      let one = evaluate_rules_lem now m am f in
      let next = (evaluate_rules float now m am).0 in
      rounds-orphan rest id next one.0
        (ap (λ rules. lookup id rules) (evaluate_rules-rules now m am) ∙ absent)
      ∙ (one.1 id
          ∙ ap (λ found. after_round float (m id) found (fires (lookup id am.alerts))) absent)

  handle-AllSound :
      (now : ℕ) (rule : AlertRule F) (should : Bool) (value : F) (am : AlertManager F)
      → AllSound am
      → AllSound (handle_rule_evaluation float now rule should value am).0
  unfolding react
  handle-AllSound now rule should value am sound =
      react-Sound float (evaluates now rule should value) am sound

  removed_absent : (id : String) (am : AlertManager F) → lookup id (remove_rule id am).rules ≡ none
  unfolding remove_rule
  removed_absent id am = ground (arith, eq_iff id id, lookup-delete id id am.rules)

  -- Where each rule is filed under its own identifier and no alert is silenced, a rule removed
  -- while a round is under way may still be evaluated from the round's copy of the rules: its
  -- alert is then created without a rule, and keeps firing whatever rounds follow.
  pub orphaned_alert :
      (now : ℕ) (rule : AlertRule F) (value : F) (rest : List (ℕ × (String → Measures F)))
      (am : AlertManager F)
      → Filed am
      → let orphaned =
          (handle_rule_evaluation float now rule true value (remove_rule rule.id am)).0 in
        (lookup rule.id orphaned.rules ≡ none)
        × (fires (lookup rule.id (rounds rest orphaned).alerts) ≡ true)
  orphaned_alert now rule value rest am f =
      let removed = remove_rule rule.id am in
      let fr = remove_rule-Filed rule.id am f in
      let orphaned = (handle_rule_evaluation float now rule true value removed).0 in
      let kept = handle_rule_evaluation-rules now rule true value removed in
      let gone = ap (λ rules. lookup rule.id rules) kept ∙ removed_absent rule.id am in
      let filed : Filed orphaned = record {
        is_map = subst (λ rules. IsMap rules) (sym kept) fr.is_map;
        keyed = subst (λ rules. Keyed rules) (sym kept) fr.keyed;
        sound = handle-AllSound now rule true value removed fr.sound;
      } in
      (
        gone,
        rounds-orphan rest rule.id orphaned filed gone
            ∙ (handle-fires float now rule true value removed (fr.sound rule.id)).0,
      )
