-- ===== src/Onboarding/Requests.antt =====
-- Which requests ValidateRequest of apps/carrier-connector/internal/mvno/validator.go lets through, against the
-- limits that getMaxSubscribersForPlan gives the MVNO.
use text.Mathlib.TextEquality.{eq_iff}
use telecom_platform.Base.{
  ℕ, ◌+◌, ℤ, pos, ◌≤ℤ◌, ltb_ℤ, ◌≡◌, refl, ◌≢◌, Bool, true, false, not, Option, none, some, String,
  arith, if◌then◌else◌,
}
use telecom_platform.Onboarding.{OnboardingRequest}
use telecom_platform.Onboarding.Validator.{
  Failure, ◌then◌, wrap, fails, business, plan, technical, invalid_plan, too_few_subscribers,
  is_valid_plan, plan_limit, validate_plan, validate_business_info, validate_technical_requirements,
  validate_request,
}
use telecom_platform.Onboarding.Service.{get_max_subscribers_for_plan}

then-none : (a b : Option Failure) → (a then b) ≡ none → (a ≡ none) × (b ≡ none)
then-none none b h = (refl, h)
then-none (some e) b h = cc

wrap-none : (f : Failure → Failure) (a : Option Failure) → wrap f a ≡ none → a ≡ none
wrap-none f none h = refl
wrap-none f (some e) h = cc

fails-none : (b : Bool) (e : Failure) → fails b e ≡ none → b ≡ false
fails-none true e h = cc
fails-none false e h = refl

accepted_parts :
    (r : OnboardingRequest)
    → validate_request r ≡ none
    → (validate_business_info r ≡ none)
      × (validate_plan r ≡ none)
      × (validate_technical_requirements r ≡ none)
unfolding validate_request
accepted_parts r h =
    let (a, k) = then-none (wrap business (validate_business_info r)) _ h in
    let (b, c) = then-none (wrap plan (validate_plan r)) _ k in
    (wrap-none business _ a, wrap-none plan _ b, wrap-none technical _ c)

plan_parts :
    (r : OnboardingRequest)
    → validate_plan r ≡ none
    → (is_valid_plan r.plan ≡ true)
      × (ltb_ℤ r.estimated_subs (pos 1) ≡ false)
      × (plan_limit r.plan r.estimated_subs ≡ none)
unfolding validate_plan
plan_parts r h =
    let (a, k) = then-none (fails (not (is_valid_plan r.plan)) invalid_plan) _ h in
    let (b, c) = then-none (fails (ltb_ℤ r.estimated_subs (pos 1)) too_few_subscribers) _ k in
    let valid = fails-none _ _ a in (ground arith, fails-none _ _ b, c)

limited :
    (p : String) (subs : ℤ)
    → is_valid_plan p ≡ true
    → plan_limit p subs ≡ none
    → p ≢ "scale"
    → p ≢ "enterprise"
    → subs ≤ℤ get_max_subscribers_for_plan p
unfolding is_valid_plan plan_limit get_max_subscribers_for_plan
limited p subs v h s e =
    ground (arith, eq_iff p "starter", eq_iff p "growth", eq_iff p "scale", eq_iff p "enterprise")

accept :
    (r : OnboardingRequest)
    → validate_business_info r ≡ none
    → validate_plan r ≡ none
    → validate_technical_requirements r ≡ none
    → validate_request r ≡ none
unfolding validate_request
accept r a b c = rw (a, b, c) refl

scale_plan :
    (r : OnboardingRequest) (n : ℕ)
    → r.plan ≡ "scale"
    → validate_plan (record r { estimated_subs = pos (n + 1) }) ≡ none
unfolding validate_plan plan_limit is_valid_plan
scale_plan r n s = rw s (ground arith)

any_number :
    (r : OnboardingRequest) (n : ℕ)
    → r.plan ≡ "scale"
    → validate_request r ≡ none
    → validate_request (record r { estimated_subs = pos (n + 1) }) ≡ none
unfolding validate_business_info validate_technical_requirements
any_number r n s h = let (a, b, c) = accepted_parts r h in accept _ a (scale_plan r n s) c

-- A request that is accepted asks for at least one subscriber, and on the plans starter and growth for no
-- more than the plan's MVNO may have. On the plan scale, whose MVNO may have 100000, it is accepted with any
-- other number, too.
pub accepted_request_fits_plan :
    (r : OnboardingRequest)
    → validate_request r ≡ none
    → (pos 1 ≤ℤ r.estimated_subs)
      × (r.plan ≢ "scale"
          → r.plan ≢ "enterprise"
          → r.estimated_subs ≤ℤ get_max_subscribers_for_plan r.plan)
      × (r.plan ≡ "scale"
          → (get_max_subscribers_for_plan r.plan ≡ pos 100000)
            × ((n : ℕ) → validate_request (record r { estimated_subs = pos (n + 1) }) ≡ none))
unfolding get_max_subscribers_for_plan
accepted_request_fits_plan r h =
    let (business_ok, plan_ok, technical_ok) = accepted_parts r h in
    let (valid, enough, within) = plan_parts r plan_ok in
    (
      ground arith,
      limited r.plan r.estimated_subs valid within,
      λ s. (rw s refl, λ n. any_number r n s h),
    )
