-- ===== src/Onboarding/Validator.antt =====
-- apps/carrier-connector/internal/mvno/validator.go. `len` counts bytes, as in Go. The two regular
-- expressions are read on a text's code points; ToUpper changes ASCII letters, since no other text becomes
-- one of the codes that are looked for and has their length.
use Prim.Native.Char.{code}
use Prim.Native.String.{len}
use text.Mathlib.Text.{◌==◌ as str_eq}
use telecom_platform.Base.{
  ℕ, ◌-◌, ℤ, pos, ltb_ℤ, Bool, true, false, not, ◌&&◌, ◌||◌, Option, none, some, List, [], ◌∷◌,
  String, ◌==◌, ltb, leb, length, map, if◌then◌else◌,
}
use telecom_platform.Onboarding.{OnboardingRequest, Mvno}

-- The errors; those of an inner call are wrapped.
pub data Failure : Type 0 where
  name_too_short invalid_business_id invalid_email phone_too_short : Failure
  invalid_plan too_few_subscribers starter_limited growth_limited : Failure
  no_countries use_case_too_short invalid_country_code : Failure
  registration_too_short country_not_supported no_coverage : Failure
  business plan technical registration compliance feasibility : Failure → Failure

-- `if err := ...; err != nil { return fmt.Errorf(...) }`, and the next check.
infixr 20 ◌then◌
abbrev pub ◌then◌ : Option Failure → Option Failure → Option Failure
none then next = next
(some e) then next = some e

abbrev pub wrap : (Failure → Failure) → Option Failure → Option Failure
wrap f none = none
wrap f (some e) = some (f e)

abbrev pub fails : Bool → Failure → Option Failure
fails b e = if b then some e else none

abbrev pub codes : String → List ℕ
codes String.[] = []
codes (String.◌∷◌ c s) = code c ∷ codes s

is_upper : ℕ → Bool
is_upper c = leb 65 c && leb c 90

is_lower : ℕ → Bool
is_lower c = leb 97 c && leb c 122

is_digit : ℕ → Bool
is_digit c = leb 48 c && leb c 57

unfoldable pub all_of : (ℕ → Bool) → List ℕ → Bool
all_of p [] = true
all_of p (c ∷ s) = p c && all_of p s

unfoldable pub is_id_char : ℕ → Bool
unfolding is_upper is_lower is_digit
is_id_char c = is_upper c || is_lower c || is_digit c || c == 45

-- ^[A-Za-z0-9\-]{8,}$
unfoldable pub is_valid_business_id : String → Bool
is_valid_business_id id = leb 8 (length (codes id)) && all_of is_id_char (codes id)

-- [^\s@]
unfoldable pub is_plain : ℕ → Bool
is_plain c = not (c == 9 || c == 10 || c == 12 || c == 13 || c == 32 || c == 64)

-- A dot that another character follows.
unfoldable pub inner_dot : List ℕ → Bool
inner_dot [] = false
inner_dot (c ∷ []) = false
inner_dot (c ∷ d ∷ s) = let rest = inner_dot (d ∷ s) in if c == 46 then true else rest

-- [^\s@]+\.[^\s@]+$
unfoldable pub is_domain : List ℕ → Bool
is_domain [] = false
is_domain (c ∷ s) = is_plain c && all_of is_plain s && inner_dot s

-- [^\s@]*@, and a domain.
unfoldable pub after_start : List ℕ → Bool
after_start [] = false
after_start (c ∷ s) =
    let rest = after_start s in if c == 64 then is_domain s else is_plain c && rest

-- ^[^\s@]+@[^\s@]+\.[^\s@]+$
unfoldable pub is_email : List ℕ → Bool
is_email [] = false
is_email (c ∷ s) = is_plain c && after_start s

unfoldable pub is_valid_email : String → Bool
is_valid_email email = is_email (codes email)

unfoldable pub validate_business_info : OnboardingRequest → Option Failure
validate_business_info r =
    fails (ltb (len r.business_name) 3) name_too_short
    then fails (not (is_valid_business_id r.business_id)) invalid_business_id
    then fails (not (is_valid_email r.contact_email)) invalid_email
    then fails (ltb (len r.contact_phone) 10) phone_too_short

unfoldable pub is_valid_plan : String → Bool
is_valid_plan p =
    str_eq p "starter" || str_eq p "growth" || str_eq p "scale" || str_eq p "enterprise"

-- The `switch`, in which only two plans have a case.
unfoldable pub plan_limit : String → ℤ → Option Failure
plan_limit p subs =
    if str_eq p "starter"
    then fails (ltb_ℤ (pos 1000) subs) starter_limited
    else if str_eq p "growth"
    then fails (ltb_ℤ (pos 10000) subs) growth_limited
    else none

unfoldable pub validate_plan : OnboardingRequest → Option Failure
validate_plan r =
    fails (not (is_valid_plan r.plan)) invalid_plan
    then fails (ltb_ℤ r.estimated_subs (pos 1)) too_few_subscribers
    then plan_limit r.plan r.estimated_subs

unfoldable pub validate_codes : List String → Option Failure
validate_codes [] = none
validate_codes (country ∷ countries) =
    fails (not (len country == 2)) invalid_country_code then validate_codes countries

unfoldable pub validate_technical_requirements : OnboardingRequest → Option Failure
validate_technical_requirements r =
    fails (length r.target_countries == 0) no_countries
    then fails (ltb (len r.use_case) 10) use_case_too_short
    then validate_codes r.target_countries

unfoldable pub validate_request : OnboardingRequest → Option Failure
validate_request r =
    wrap business (validate_business_info r)
    then wrap plan (validate_plan r)
    then wrap technical (validate_technical_requirements r)

to_upper : ℕ → ℕ
unfolding is_lower
to_upper c = if is_lower c then c - 32 else c

unfoldable pub same_text : List ℕ → List ℕ → Bool
same_text [] [] = true
same_text [] (d ∷ t) = false
same_text (c ∷ s) [] = false
same_text (c ∷ s) (d ∷ t) = c == d && same_text s t

-- `slices.Contains(list, strings.ToUpper(country))`.
unfoldable pub contains_upper : String → List String → Bool
unfolding to_upper
contains_upper country [] = false
contains_upper country (other ∷ others) =
    same_text (codes other) (map to_upper (codes country)) || contains_upper country others

unfoldable pub check_country_compliance : String → Option Failure
check_country_compliance country =
    fails (contains_upper country ("XX" ∷ "YY" ∷ [])) country_not_supported

unfoldable pub has_carrier_coverage : String → Bool
has_carrier_coverage country =
    contains_upper country ("US" ∷ "GB" ∷ "DE" ∷ "FR" ∷ "JP" ∷ "AU" ∷ "CA" ∷ [])

unfoldable pub validate_business_registration : String → Option Failure
validate_business_registration id = fails (ltb (len id) 8) registration_too_short

unfoldable pub validate_compliance : List String → Option Failure
validate_compliance [] = none
validate_compliance (country ∷ countries) =
    check_country_compliance country then validate_compliance countries

unfoldable pub validate_technical_feasibility : List String → Option Failure
validate_technical_feasibility [] = none
validate_technical_feasibility (country ∷ countries) =
    fails (not (has_carrier_coverage country)) no_coverage
    then validate_technical_feasibility countries

unfoldable pub validate_mvno : Mvno → Option Failure
validate_mvno mvno =
    wrap registration (validate_business_registration mvno.business_id)
    then wrap compliance (validate_compliance mvno.config.allowed_countries)
    then wrap feasibility (validate_technical_feasibility mvno.config.allowed_countries)
