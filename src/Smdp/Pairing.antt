-- ===== src/Smdp/Pairing.antt =====
-- apps/carrier-connector/internal/smdp/manager.go: the two maps of carriers and clients.
use text.Mathlib.Text.{◌==◌ as str_eq}
use telecom_platform.Base.{
  ℕ, ◌≡◌, Bool, true, false, Option, none, some, List, [], ◌∷◌, String, lookup,
}
use telecom_platform.Smdp.{
  Carrier, CarrierHealthStatus, SmdpManager, add_carrier, remove_carrier, update_carrier_health,
}
use telecom_platform.Smdp.Download.{
  Answer, Outcome, returns, unheld, update_carrier_metrics, and_then,
}

abbrev pub is_present : {V : Type 0} → Option V → Bool
is_present none = false
is_present (some v) = true

-- The same identifiers in both maps, each carrier under its own, and every carrier's counters there.
pub record Inv (m : SmdpManager) : Type 0 where
  pub paired :
      (id : String) → is_present (lookup id m.carriers) ≡ is_present (lookup id m.es2_clients)
  pub counted :
      (id : String) (c : Carrier) → lookup id m.carriers ≡ some c → is_present c.metrics ≡ true

-- What may happen to a manager: an operation, or a request counted for a carrier.
pub data Event : Type 0 where
  adds : Carrier → Event
  removes : String → Event
  checks : ℕ → String → CarrierHealthStatus → Event
  counts : String → Answer → Event

abbrev or_same : Option SmdpManager → SmdpManager → SmdpManager
or_same none m = m
or_same (some m') m = m'

unfoldable pub react : Event → SmdpManager → Outcome SmdpManager
react (adds c) m = returns (or_same (add_carrier c m) m)
react (removes id) m = returns (or_same (remove_carrier id m) m)
react (checks now id status) m = returns (update_carrier_health now id status m)
react (counts id a) m = update_carrier_metrics unheld id a m

-- The carriers that are added come with their counters.
abbrev pub HasMetrics : Event → Type 0
HasMetrics (adds c) = is_present c.metrics ≡ true
HasMetrics _ = Unit {0}

unfoldable pub run : List Event → SmdpManager → Outcome SmdpManager
run [] m = returns m
run (event ∷ events) m = and_then (react event m) (λ m'. run events m')

abbrev pub AllHaveMetrics : List Event → Type 0
AllHaveMetrics [] = Unit {0}
AllHaveMetrics (event ∷ events) = HasMetrics event × AllHaveMetrics events
