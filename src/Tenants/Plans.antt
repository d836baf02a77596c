-- ===== src/Tenants/Plans.antt =====
-- What a plan gives: the defaults of apps/carrier-connector/internal/services/tenant_core.go, and those of
-- GetConfig in internal/repository/tenant_repository.go.
use text.Mathlib.Text.{◌==◌ as str_eq}
use telecom_platform.Base.{
  Bool, true, false, none, List, [], ◌∷◌, String, if◌then◌else◌, Dict, ℤ, pos, negsuc,
}
use telecom_platform.Tenants.{TenantSettings, ResourceQuota}

pub data Plan : Type 0 where
  free basic pro enterprise other : Plan

-- The cases of the `switch` statements over a plan.
unfoldable pub plan_of : String → Plan
plan_of p =
    if str_eq p "free"
    then free
    else if str_eq p "basic"
    then basic
    else if str_eq p "pro"
    then pro
    else if str_eq p "enterprise"
    then enterprise
    else other

-- Before the `switch`, with the flags at their zero value.
abbrev base_settings : TenantSettings
base_settings = record {
  default_currency = "USD";
  supported_currencies = "USD" ∷ "EUR" ∷ "GBP" ∷ [];
  enable_multi_currency = false;
  enable_advanced_analytics = false;
  enable_api_access = false;
  enable_webhooks = false;
  api_rate_limit_per_minute = pos 60;
  api_rate_limit_per_hour = pos 1000;
  require_2fa = false;
  session_timeout = pos 120;
  password_policy = none;
  data_retention_days = pos 90;
  compliance_regions = "US" ∷ "EU" ∷ [];
}

settings_of : Plan → TenantSettings
settings_of free = record base_settings { enable_api_access = true }
settings_of basic = record base_settings { enable_multi_currency = true; enable_api_access = true }
settings_of pro = record base_settings {
  enable_multi_currency = true;
  enable_advanced_analytics = true;
  enable_api_access = true;
  enable_webhooks = true;
  require_2fa = true;
}
settings_of enterprise = record base_settings {
  enable_multi_currency = true;
  enable_advanced_analytics = true;
  enable_api_access = true;
  enable_webhooks = true;
  require_2fa = true;
  api_rate_limit_per_minute = pos 1000;
  api_rate_limit_per_hour = pos 10000;
}
settings_of other = base_settings

unfoldable pub get_default_settings : String → TenantSettings
unfolding settings_of plan_of
get_default_settings plan = settings_of (plan_of plan)

abbrev monthly : String → ℤ → ResourceQuota
monthly resource limit = record { resource_type = resource; limit = limit; period = "monthly" }

abbrev three : ℤ → ℤ → ℤ → List ResourceQuota
three users profiles carriers =
    monthly "users" users ∷ monthly "profiles" profiles ∷ monthly "carriers" carriers ∷ []

quotas_of : Plan → List ResourceQuota
quotas_of free = three (pos 5) (pos 100) (pos 3)
quotas_of basic = three (pos 25) (pos 1000) (pos 10)
quotas_of pro = three (pos 100) (pos 10000) (pos 50)
quotas_of enterprise = three (negsuc 0) (negsuc 0) (negsuc 0)
quotas_of other = []

unfoldable pub get_default_quotas : String → List ResourceQuota
unfolding quotas_of plan_of
get_default_quotas plan = quotas_of (plan_of plan)

abbrev six : Bool → Bool → Bool → Bool → Bool → Dict Bool
six currency analytics webhooks branding support =
    ("multi_currency", currency)
    ∷ ("advanced_analytics", analytics)
    ∷ ("api_access", true)
    ∷ ("webhooks", webhooks)
    ∷ ("custom_branding", branding)
    ∷ ("priority_support", support)
    ∷ []

features_of : Plan → Dict Bool
features_of basic = six true false false false false
features_of pro = six true true true true false
features_of enterprise = six true true true true true
features_of free = six false false false false false
features_of other = six false false false false false

unfoldable pub get_default_features : String → Dict Bool
unfolding features_of plan_of
get_default_features plan = features_of (plan_of plan)

abbrev four : Bool → Bool → Bool → Dict Bool
four currency analytics webhooks =
    ("multi_currency", currency)
    ∷ ("advanced_analytics", analytics)
    ∷ ("api_access", true)
    ∷ ("webhooks", webhooks)
    ∷ []

repository_features_of : Plan → Dict Bool
repository_features_of free = four false false false
repository_features_of basic = four true false false
repository_features_of pro = four true true true
repository_features_of enterprise = four true true true
repository_features_of other = []

-- The quotas that GetConfig adds are those of `quotas_of`, written again.
unfoldable pub repository_quotas : String → List ResourceQuota
unfolding quotas_of plan_of
repository_quotas plan = quotas_of (plan_of plan)

unfoldable pub repository_features : String → Dict Bool
unfolding repository_features_of plan_of
repository_features plan = repository_features_of (plan_of plan)
