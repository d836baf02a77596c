-- ===== src/Onboarding/Service.antt =====
-- apps/carrier-connector/internal/services/onboarding_service.go. The goroutine of an onboarding runs to its
-- end as one step; `cancelled i` is what it reads of its context before step i. A panic, which ends the
-- program since no goroutine recovers from it, is `none`. The identifier is given.
use text.Mathlib.Text.{◌==◌ as str_eq}
use telecom_platform.Base.{
  ℕ, ◌+◌, ◌*◌, ◌/◌, ℤ, pos, negsuc, Bool, true, false, not, ◌||◌, Option, none, some, List, [], ◌∷◌,
  String, ◌==◌, length, if◌then◌else◌,
}
use telecom_platform.Onboarding.{
  Mvno, OnboardingRequest, OnboardingStep, OnboardingProgress, OnboardingMonitor, update_progress,
}
use telecom_platform.Onboarding.Validator.{Failure, validate_request, validate_mvno}
use telecom_platform.Onboarding.Provisioner.{
  ProductionProvisioner, Answer, provision_resources, setup_carriers, setup_billing,
  setup_api_access,
}

-- The service; its provisioner is a pointer, which may be nil.
pub record OnboardingService (W : Type 0) : Type 0 where
  pub provisioner : Option (ProductionProvisioner W)
  pub monitor : OnboardingMonitor

unfoldable pub new_onboarding_service : {W : Type 0} → OnboardingService W
new_onboarding_service = record { provisioner = none; monitor = [] }

unfoldable pub get_max_subscribers_for_plan : String → ℤ
get_max_subscribers_for_plan plan =
    if str_eq plan "growth"
    then pos 10000
    else if str_eq plan "scale"
    then pos 100000
    else if str_eq plan "enterprise"
    then negsuc 0
    else pos 1000

abbrev pending_step : String → OnboardingStep
pending_step name = record { name = name; status = "pending" }

unfoldable pub get_onboarding_steps : List OnboardingStep
get_onboarding_steps =
    pending_step "validation"
    ∷ pending_step "provisioning"
    ∷ pending_step "carrier_setup"
    ∷ pending_step "billing_setup"
    ∷ pending_step "api_access"
    ∷ []

unfoldable pub new_mvno : String → OnboardingRequest → Mvno
unfolding get_max_subscribers_for_plan
new_mvno id r = record {
  id = id;
  name = r.business_name;
  business_id = r.business_id;
  status = "pending";
  plan = r.plan;
  config = record {
    max_subscribers = get_max_subscribers_for_plan r.plan;
    allowed_countries = r.target_countries;
    carrier_pool = [];
    custom_branding = not (str_eq r.plan "starter");
    api_access = not (str_eq r.plan "starter");
    advanced_analytics = str_eq r.plan "scale" || str_eq r.plan "enterprise";
  };
}

unfoldable pub new_progress : String → ℕ → OnboardingProgress
unfolding get_onboarding_steps
new_progress id now = record {
  mvno_id = id;
  steps = get_onboarding_steps;
  progress = 0;
  started_at = some now;
  completed_at = none;
}

-- What the goroutine of one MVNO works on.
pub record Onboarding (W : Type 0) : Type 0 where
  pub mvno : Mvno
  pub progress : OnboardingProgress
  pub monitor : OnboardingMonitor
  pub world : W

abbrev failed : Option Failure → Bool
failed none = false
failed (some e) = true

abbrev pub percent : ℕ → ℕ → ℕ
percent i total = (i + 1) * 100 / total

module _ {W : Type 0} where
  -- A method of a nil provisioner panics where it reads the logger.
  unfoldable pub on_provisioner :
      Option (ProductionProvisioner W)
      → (ProductionProvisioner W → Option (Answer W))
      → Option (Answer W)
  on_provisioner none call = none
  on_provisioner (some p) call = call p

  unfoldable pub execute_step :
      Option (ProductionProvisioner W) → OnboardingStep → Mvno → W → Option (Answer W)
  unfolding on_provisioner
  execute_step provisioner step mvno w =
      if str_eq step.name "validation"
      then some (failed (validate_mvno mvno), mvno, w)
      else if str_eq step.name "provisioning"
      then on_provisioner provisioner (λ p. some (provision_resources p mvno w))
      else if str_eq step.name "carrier_setup"
      then on_provisioner provisioner (λ p. some (setup_carriers p mvno w))
      else if str_eq step.name "billing_setup"
      then on_provisioner provisioner (λ p. some (setup_billing p mvno w))
      else if str_eq step.name "api_access"
      then on_provisioner provisioner (λ p. setup_api_access p mvno w)
      else some (true, mvno, w)

  -- The progress as it is, put in the monitor.
  abbrev pub publish : Onboarding W → Onboarding W
  publish s = record s { monitor = update_progress s.mvno.id s.progress s.monitor }

  abbrev pub after_call : Mvno → W → Onboarding W → Onboarding W
  after_call mvno w s = record s { mvno = mvno; world = w }

  abbrev pub advance : ℕ → Onboarding W → Onboarding W
  advance i s =
      publish (record s {
        progress = record s.progress { progress = percent i (length s.progress.steps) };
      })

  -- A panic; `break` on an error; the next step. The flag is set where the function returns.
  abbrev pub continue_with :
      Option (Answer W)
      → ℕ
      → Onboarding W
      → (Onboarding W → Option (Bool × Onboarding W))
      → Option (Bool × Onboarding W)
  continue_with none i s next = none
  continue_with (some (true, mvno, w)) i s next = some (false, after_call mvno w s)
  continue_with (some (false, mvno, w)) i s next = next (advance i (after_call mvno w s))

  -- `for i, step := range progress.Steps`: `step` is a copy, whose status nothing else sees.
  unfoldable pub execute_steps :
      Option (ProductionProvisioner W)
      → (ℕ → Bool)
      → ℕ
      → List OnboardingStep
      → Onboarding W
      → Option (Bool × Onboarding W)
  execute_steps provisioner cancelled i [] s = some (false, s)
  execute_steps provisioner cancelled i (step ∷ steps) s =
      if cancelled i
      then some (true, s)
      else continue_with
          (execute_step provisioner (record step { status = "running" }) s.mvno s.world) i
          (publish s) (execute_steps provisioner cancelled (i + 1) steps)

  -- The write through the pointer is seen in the monitor.
  unfoldable pub complete : ℕ → Onboarding W → Onboarding W
  complete now s =
      if s.progress.progress == 100
      then publish (record s {
        mvno = record s.mvno { status = "active" };
        progress = record s.progress { completed_at = some now };
      })
      else s

  abbrev pub finish : ℕ → Option (Bool × Onboarding W) → Option (Onboarding W)
  finish now none = none
  finish now (some (true, s)) = some s
  finish now (some (false, s)) = some (complete now s)

  unfoldable pub execute_onboarding :
      Option (ProductionProvisioner W) → (ℕ → Bool) → ℕ → Onboarding W → Option (Onboarding W)
  unfolding execute_steps complete
  execute_onboarding provisioner cancelled now s =
      finish now (execute_steps provisioner cancelled 0 s.progress.steps s)

  unfoldable pub new_onboarding :
      String → ℕ → W → OnboardingRequest → OnboardingMonitor → Onboarding W
  unfolding new_mvno new_progress
  new_onboarding id now w r monitor = record {
    mvno = new_mvno id r;
    progress = new_progress id now;
    monitor = monitor;
    world = w;
  }

  abbrev pub unless_failed : Option Failure → Onboarding W → Option (Onboarding W)
  unless_failed none s = some s
  unless_failed (some e) s = none

  -- What the goroutine starts from, or the error.
  unfoldable pub start_onboarding :
      String → ℕ → W → OnboardingRequest → OnboardingMonitor → Option (Onboarding W)
  unfolding new_onboarding
  start_onboarding id now w r monitor =
      unless_failed (validate_request r) (new_onboarding id now w r monitor)
