-- ===== src/Onboarding/Kept.antt =====
-- What the steps of an onboarding leave of the MVNO: apps/carrier-connector/internal/mvno's provisioner.
use text.Mathlib.Text.{◌==◌ as str_eq}
use telecom_platform.Base.{
  ◌≡◌, refl, Bool, true, false, Option, none, some, List, [], ◌∷◌, String, if◌then◌else◌, Dict,
}
use telecom_platform.Onboarding.{Mvno, OnboardingStep}
use telecom_platform.Onboarding.Provisioner.{
  ProductionProvisioner, Answer, Setting, TenantConfig, write_access, and_then, setup_selected,
  bill, store_access, provision_resources, setup_carriers, setup_billing, setup_api_access,
}
use telecom_platform.Onboarding.Service.{execute_step, on_provisioner}

module _ {W : Type 0} (mvno : Mvno) where
  -- The identifier and the status are kept.
  abbrev pub IsKept : Answer W → Type 0
  IsKept (f, after, w) = (after.id ≡ mvno.id) × (after.status ≡ mvno.status)

  abbrev pub AllKept : Option (Answer W) → Type 0
  AllKept none = Unit
  AllKept (some a) = IsKept a

  and_then-IsKept :
      (r : Bool × W) (next : W → Answer W)
      → ((w : W) → IsKept (next w))
      → IsKept (and_then mvno r next)
  unfolding and_then
  and_then-IsKept (true, w) next h = (refl, refl)
  and_then-IsKept (false, w) next h = h w

  if-AllKept :
      (b : Bool) (x y : Option (Answer W)) → AllKept x → AllKept y → AllKept (if b then x else y)
  if-AllKept true x y h k = h
  if-AllKept false x y h k = k

  module _ (p : ProductionProvisioner W) where
    provision_resources-IsKept : (w : W) → IsKept (provision_resources p mvno w)
    unfolding provision_resources
    provision_resources-IsKept w =
        and_then-IsKept _ _ λ w. and_then-IsKept _ _ λ w. and_then-IsKept _ _ λ w. (refl, refl)

    setup_selected-IsKept : (ids : List String) (w : W) → IsKept (setup_selected p mvno ids w)
    unfolding setup_selected
    setup_selected-IsKept [] w = (refl, refl)
    setup_selected-IsKept (c ∷ cs) w = and_then-IsKept _ _ λ w. (refl, refl)

    setup_carriers-IsKept : (w : W) → IsKept (setup_carriers p mvno w)
    unfolding setup_carriers
    setup_carriers-IsKept w = setup_selected-IsKept _ _

    bill-IsKept : (r : Option String × W) → IsKept (bill p mvno r)
    unfolding bill
    bill-IsKept (none, w) = (refl, refl)
    bill-IsKept (some id, w) = and_then-IsKept _ _ λ w. and_then-IsKept _ _ λ w. (refl, refl)

    setup_billing-IsKept : (w : W) → IsKept (setup_billing p mvno w)
    unfolding setup_billing
    setup_billing-IsKept w = bill-IsKept _

    write_access-AllKept :
        (access : Setting) (tenant : TenantConfig) (settings : Option (Dict Setting)) (w : W)
        → AllKept (write_access p mvno access tenant settings w)
    unfolding write_access
    write_access-AllKept access tenant none w = tt
    write_access-AllKept access tenant (some settings) w = and_then-IsKept _ _ λ w. (refl, refl)

    store_access-AllKept :
        (access : Setting) (r : Option TenantConfig × W) → AllKept (store_access p mvno access r)
    unfolding store_access
    store_access-AllKept access (none, w) = (refl, refl)
    store_access-AllKept access (some tenant, w) = write_access-AllKept access tenant _ w

    setup_api_access-AllKept : (w : W) → AllKept (setup_api_access p mvno w)
    unfolding setup_api_access
    setup_api_access-AllKept w =
        if-AllKept mvno.config.api_access _ _ (store_access-AllKept _ _) (refl, refl)

  on_provisioner-AllKept :
      (p : Option (ProductionProvisioner W)) (call : ProductionProvisioner W → Option (Answer W))
      → ((q : ProductionProvisioner W) → AllKept (call q))
      → AllKept (on_provisioner p call)
  unfolding on_provisioner
  on_provisioner-AllKept none call h = tt
  on_provisioner-AllKept (some p) call h = h p

  pub execute_step-AllKept :
      (p : Option (ProductionProvisioner W)) (step : OnboardingStep) (w : W)
      → AllKept (execute_step p step mvno w)
  unfolding execute_step
  execute_step-AllKept p step w =
      if-AllKept (str_eq step.name "validation") _ _ (refl, refl)
        (if-AllKept (str_eq step.name "provisioning") _ _
          (on_provisioner-AllKept p _ λ q. provision_resources-IsKept q w)
          (if-AllKept (str_eq step.name "carrier_setup") _ _
            (on_provisioner-AllKept p _ λ q. setup_carriers-IsKept q w)
            (if-AllKept (str_eq step.name "billing_setup") _ _
              (on_provisioner-AllKept p _ λ q. setup_billing-IsKept q w)
              (if-AllKept (str_eq step.name "api_access") _ _
                (on_provisioner-AllKept p _ λ q. setup_api_access-AllKept q w) (refl, refl)))))
