-- ===== src/AlertManager/Examples.antt =====
-- Witnesses and tests for apps/api-server/internal/monitoring/alerting.go.
use telecom_platform.Base.{
  ℕ, ◌*◌, ◌/◌, ◌≡◌, refl, true, false, none, some, List, [], ◌∷◌, String, lookup, insert, leb,
}
use telecom_platform.AlertManager.{
  AlertRule, AlertManager, Floats, Measures, warning, unhealthy, handle_rule_evaluation,
  evaluate_rules, evaluate_all, evaluate_one, evaluate_rule, new_alert_manager,
  initialize_alert_manager, remove_rule, add_rule,
}
use telecom_platform.AlertManager.Transitions.{
  fires, follow, Event, react, evaluates, adds, run, notices_alternate, handle_rule_evaluation_lem,
}
use telecom_platform.AlertManager.Rounds.{
  Filed, after_round, rounds, evaluate_rules_lem, orphaned_alert,
}

-- Whole numbers in place of float64.
abbrev whole : Floats ℕ
whole = record {
  geq = λ a b. leb b a;
  of_int = λ n. n;
  percentage = λ used open_conns. (100 * used) / open_conns;
  two_digits = λ n. "";
  describe = λ text value threshold. text;
}

abbrev rule : AlertRule ℕ
rule = record {
  id = "health";
  name = "Health";
  description = "";
  severity = warning;
  query = "health_check";
  threshold = 1;
  duration = 0;
  labels = [];
  enabled = true;
}

abbrev managed : AlertManager ℕ
managed = record { rules = ("health", rule) ∷ []; alerts = [] }

managed-Filed : Filed managed
unfolding lookup
managed-Filed = record { is_map = (tt, tt); keyed = (refl, tt); sound = λ id. tt }

abbrev ill : String → Measures ℕ
ill key = record {
  monitor = some (record { status = unhealthy; database = none });
  memory = none;
  goroutines = none;
}

abbrev events : List (Event ℕ)
events =
    adds rule
    ∷ evaluates 1 rule true 2
    ∷ evaluates 2 rule true 2
    ∷ evaluates 3 rule false 0
    ∷ evaluates 4 rule true 1
    ∷ []

notices_alternate_example : follow "health" (run whole events new_alert_manager).1 false ≡ some true
unfolding run react handle_rule_evaluation lookup insert add_rule new_alert_manager
notices_alternate_example = notices_alternate whole events "health"

handle_rule_evaluation_lem_example :
    fires (lookup "health" (handle_rule_evaluation whole 1 rule true 2 managed).0.alerts) ≡ true
handle_rule_evaluation_lem_example =
    (handle_rule_evaluation_lem whole 1 rule true 2 managed managed-Filed.sound).0

evaluate_rules_lem_example :
    fires (lookup "health" (evaluate_rules whole 5 ill managed).0.alerts) ≡ true
unfolding after_round evaluate_rule lookup
evaluate_rules_lem_example = (evaluate_rules_lem whole 5 ill managed managed-Filed).1 "health"

orphaned_alert_example :
    fires (
      lookup "health"
        (rounds whole
          ((7, ill) ∷ (8, ill) ∷ [])
          (handle_rule_evaluation whole 6 rule true 2 (remove_rule "health" managed)).0).alerts)
    ≡ true
orphaned_alert_example =
    (orphaned_alert whole 6 rule 2 ((7, ill) ∷ (8, ill) ∷ []) managed managed-Filed).1

-- The manager that the server starts with has three rules, all of which fire when all is ill.
abbrev all_ill : String → Measures ℕ
all_ill key = record {
  monitor = some (record { status = unhealthy; database = none });
  memory = some 91;
  goroutines = some 2000;
}

started :
    fires (
      lookup "high_memory_usage"
        (evaluate_rules whole 1 all_ill (initialize_alert_manager whole)).0.alerts)
    ≡ true
unfolding initialize_alert_manager evaluate_rules evaluate_all evaluate_one evaluate_rule
    handle_rule_evaluation lookup insert add_rule new_alert_manager
started = refl
