-- ===== src/Onboarding/Examples.antt =====
-- Witnesses and tests for the onboarding of apps/carrier-connector/internal/services/onboarding_service.go.
use telecom_platform.Base.{
  ℕ, ◌+◌, pos, ◌≡◌, refl, Bool, true, false, none, some, List, [], ◌∷◌, if◌then◌else◌, insert,
}
use telecom_platform.Onboarding.{
  update_progress, OnboardingRequest, OnboardingProgress, get_failed_onboardings,
  get_active_onboarding_count,
}
use telecom_platform.Onboarding.Validator.{
  validate_request, validate_business_info, is_valid_business_id, all_of, is_id_char,
  is_valid_email, is_email, is_plain, after_start, is_domain, inner_dot, validate_plan,
  is_valid_plan, plan_limit, validate_technical_requirements, validate_codes, validate_mvno,
  validate_business_registration, validate_compliance, check_country_compliance, contains_upper,
  same_text, validate_technical_feasibility, has_carrier_coverage,
}
use telecom_platform.Onboarding.Provisioner.{
  ProductionProvisioner, provision_resources, and_then, setup_carriers, setup_billing,
  setup_api_access,
}
use telecom_platform.Onboarding.Service.{
  Onboarding, execute_step, get_onboarding_steps, start_onboarding, execute_onboarding,
  new_onboarding, new_onboarding_service, OnboardingService,
}
use telecom_platform.Onboarding.Outcome.{all_succeed, execute_onboarding_lem}
use telecom_platform.Onboarding.Unprovisioned.{unprovisioned_onboarding_lem}
use telecom_platform.Onboarding.Monitoring.{
  Call, serve, onboard, serve_all, failures_never_reported,
}
use telecom_platform.Onboarding.Requests.{accepted_request_fits_plan}

abbrev request : OnboardingRequest
request = record {
  business_name = "Beta Mobile";
  business_id = "BETA-1234";
  contact_email = "ada@beta.test";
  contact_phone = "0123456789";
  plan = "scale";
  estimated_subs = pos 200000;
  target_countries = "us" ∷ "GB" ∷ [];
  use_case = "roaming data";
}

-- Services that answer as they are told, and count the tenants.
abbrev services : Bool → ProductionProvisioner ℕ
services works = record {
  create_tenant = λ tenant w. (false, w + 1);
  get_tenant = λ id w.
      (some (record { id = id; name = "Beta Mobile"; plan = "scale"; settings = some [] }), w);
  get_carriers_by_country = λ country w. (
    some (
        record { id = "vodafone"; is_active = true }
        ∷ record { id = "idle"; is_active = false }
        ∷ []),
    w,
  );
  configure_carrier = λ id carrier w. (false, w);
  create_billing_account = λ id plan w. (if works then some "bill_1" else none, w);
  create_rate_plans = λ id billing plan w. (false, w);
  setup_payment_gateway = λ id billing w. (false, w);
  create_storage_bucket = λ id size w. (false, w);
  create_database_schema = λ id w. (false, w);
  generate_prefixed = λ prefix w. (prefix, w);
}

abbrev never : ℕ → Bool
never i = false

abbrev first : Onboarding ℕ
first = new_onboarding "mvno_1" 10 0 request []

is_accepted : validate_request request ≡ none
unfolding validate_request validate_business_info is_valid_business_id all_of is_id_char
    is_valid_email is_email is_plain after_start is_domain inner_dot validate_plan is_valid_plan
    plan_limit validate_technical_requirements validate_codes
is_accepted = refl

is_valid : validate_mvno first.mvno ≡ none
unfolding new_onboarding validate_mvno validate_business_registration validate_compliance
    check_country_compliance contains_upper same_text validate_technical_feasibility
    has_carrier_coverage
is_valid = refl

starts : start_onboarding "mvno_1" 10 0 request [] ≡ some first
unfolding start_onboarding
starts = rw is_accepted refl

abbrev done : OnboardingProgress
unfolding new_onboarding
done = record first.progress { progress = 100; completed_at = some 20 }

-- What the onboarding leaves.
abbrev last : Onboarding ℕ
unfolding new_onboarding
last = record {
  mvno = record first.mvno {
    status = "active";
    config = record first.mvno.config { carrier_pool = "vodafone" ∷ [] };
  };
  progress = done;
  monitor = ("mvno_1", done) ∷ [];
  world = 2;
}

ends : execute_onboarding (some (services true)) never 20 first ≡ some last
unfolding execute_onboarding new_onboarding execute_step validate_mvno
    validate_business_registration validate_compliance check_country_compliance contains_upper
    same_text validate_technical_feasibility has_carrier_coverage provision_resources and_then
    setup_carriers setup_billing setup_api_access update_progress insert
ends = refl

execute_onboarding_lem_example : last.mvno.status ≡ (
    if all_succeed (some (services true)) never 0 get_onboarding_steps first.mvno first.world
    then "active"
    else "pending")
execute_onboarding_lem_example =
    (execute_onboarding_lem (some (services true)) never 10 20 "mvno_1" 0 request [] first last
      starts ends).0

unprovisioned_onboarding_lem_example :
    let service : OnboardingService ℕ = new_onboarding_service in
    execute_onboarding service.provisioner never 20 first ≡ none
unprovisioned_onboarding_lem_example =
    (unprovisioned_onboarding_lem never 10 20 "mvno_1" 0 request [] first starts).0.1
      (refl, is_valid, refl)

accepted_request_fits_plan_example :
    validate_request (record request { estimated_subs = pos 700000 }) ≡ none
accepted_request_fits_plan_example =
    ((accepted_request_fits_plan request is_accepted).2 refl).1 699999

abbrev half : OnboardingProgress
unfolding new_onboarding
half = record first.progress { progress = 60 }

abbrev calls : List Call
calls = onboard "mvno_1" 10 20 never request ∷ []

serves : serve_all (some (services false)) calls (0, []) ≡ some (1, ("mvno_1", half) ∷ [])
unfolding serve_all serve start_onboarding execute_onboarding new_onboarding execute_step
    validate_mvno validate_business_registration validate_compliance check_country_compliance
    contains_upper same_text validate_technical_feasibility has_carrier_coverage provision_resources
    and_then setup_carriers setup_billing setup_api_access update_progress insert
serves = rw is_accepted refl

-- The third step fails.
failures_never_reported_example :
    (get_failed_onboardings (("mvno_1", half) ∷ []) ≡ [])
    × (get_active_onboarding_count (("mvno_1", half) ∷ []) ≡ 0)
failures_never_reported_example =
    failures_never_reported (some (services false)) calls 0 1 (("mvno_1", half) ∷ []) serves
