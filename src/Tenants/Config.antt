-- ===== src/Tenants/Config.antt =====
-- apps/carrier-connector/internal/services/tenant_config.go, with convertTenantSettings of tenant_user.go.
-- Each update reads the configuration, changes one part and saves it; of the three statements any may fail.
use text.Mathlib.Text.{◌==◌ as str_eq}
use telecom_platform.Base.{
  Bool, true, false, Option, none, some, List, [], ◌∷◌, String, if◌then◌else◌, Dict, pos, negsuc,
  ltb_ℤ,
}
use telecom_platform.Tenants.{
  TenantSettings, Tenant, ResourceQuota, TenantConfig, get_failed, update_failed, Result, ok, err,
  Tenants, get_tenant,
}
use telecom_platform.Tenants.Plans.{get_default_quotas, get_default_features}
use telecom_platform.Tenants.Service.{get_config, update_config}

pub record ConfigFaults : Type 0 where
  pub config : Bool
  pub read : Bool
  pub update : Bool

abbrev part {ℓ} : {A : Type ℓ} → (TenantConfig → A) → Option TenantConfig → Result A
part f none = err get_failed
part f (some config) = ok (f config)

unfoldable pub get_tenant_config : Bool → String → Tenants → Result TenantConfig
get_tenant_config fault id tenants = part (λ config. config) (get_config fault id tenants)

unfoldable pub get_tenant_settings : Bool → String → Tenants → Result (Option TenantSettings)
get_tenant_settings fault id tenants =
    part (λ (config : TenantConfig). config.settings) (get_config fault id tenants)

unfoldable pub get_tenant_features : Bool → String → Tenants → Result (Dict Bool)
get_tenant_features fault id tenants =
    part (λ (config : TenantConfig). config.features) (get_config fault id tenants)

unfoldable pub get_tenant_quotas : Bool → String → Tenants → Result (List ResourceQuota)
get_tenant_quotas fault id tenants =
    part (λ (config : TenantConfig). config.quotas) (get_config fault id tenants)

abbrev pub answer : Tenants × Bool → Tenants × Result (Unit {0})
answer (tenants, true) = (tenants, ok tt)
answer (tenants, false) = (tenants, err update_failed)

unfoldable pub update_tenant_config :
    ConfigFaults → String → TenantConfig → Tenants → Tenants × Result (Unit {0})
update_tenant_config faults id config tenants =
    answer (update_config faults.read faults.update (record config { tenant_id = id }) tenants)

-- The chain of the three updates below: the configuration, changed by `f`, is saved.
change_found :
    ConfigFaults
    → (TenantConfig → TenantConfig)
    → Option TenantConfig
    → Tenants
    → Tenants × Result (Unit {0})
change_found faults f none tenants = (tenants, err get_failed)
change_found faults f (some config) tenants =
    answer (update_config faults.read faults.update (f config) tenants)

unfoldable pub change_config :
    ConfigFaults → (TenantConfig → TenantConfig) → String → Tenants → Tenants × Result (Unit {0})
unfolding change_found
change_config faults f id tenants =
    change_found faults f (get_config faults.config id tenants) tenants

abbrev pub no_settings : TenantSettings
no_settings = record {
  default_currency = "";
  supported_currencies = [];
  enable_multi_currency = false;
  enable_advanced_analytics = false;
  enable_api_access = false;
  enable_webhooks = false;
  api_rate_limit_per_minute = pos 0;
  api_rate_limit_per_hour = pos 0;
  require_2fa = false;
  session_timeout = pos 0;
  password_policy = none;
  data_retention_days = pos 0;
  compliance_regions = [];
}

-- The fields that the literal does not name have their zero value.
unfoldable pub convert_tenant_settings : Option TenantSettings → TenantSettings
convert_tenant_settings none = no_settings
convert_tenant_settings (some settings) = record {
  default_currency = settings.default_currency;
  supported_currencies = settings.supported_currencies;
  enable_multi_currency = settings.enable_multi_currency;
  enable_advanced_analytics = settings.enable_advanced_analytics;
  enable_api_access = settings.enable_api_access;
  enable_webhooks = settings.enable_webhooks;
  api_rate_limit_per_minute = pos 0;
  api_rate_limit_per_hour = pos 0;
  require_2fa = settings.require_2fa;
  session_timeout = settings.session_timeout;
  password_policy = none;
  data_retention_days = settings.data_retention_days;
  compliance_regions = settings.compliance_regions;
}

unfoldable pub update_tenant_settings :
    ConfigFaults → String → Option TenantSettings → Tenants → Tenants × Result (Unit {0})
unfolding change_config
update_tenant_settings faults id settings tenants =
    change_config faults
      (λ (config : TenantConfig). record config {
        settings = some (convert_tenant_settings settings);
      })
      id tenants

unfoldable pub update_tenant_features :
    ConfigFaults → String → Dict Bool → Tenants → Tenants × Result (Unit {0})
unfolding change_config
update_tenant_features faults id features tenants =
    change_config faults (λ (config : TenantConfig). record config { features = features }) id
      tenants

unfoldable pub update_tenant_quotas :
    ConfigFaults → String → List ResourceQuota → Tenants → Tenants × Result (Unit {0})
unfolding change_config
update_tenant_quotas faults id quotas tenants =
    change_config faults (λ (config : TenantConfig). record config { quotas = quotas }) id tenants

-- ConfigFaults.config is the reading of the tenant here.
unfoldable pub convert_tenant_config : String → Option TenantSettings → String → TenantConfig
convert_tenant_config id settings plan = record {
  tenant_id = id;
  config = [];
  settings = settings;
  quotas = get_default_quotas plan;
  features = get_default_features plan;
}

reset_found : ConfigFaults → String → Option Tenant → Tenants → Tenants × Result (Unit {0})
reset_found faults id none tenants = (tenants, err get_failed)
reset_found faults id (some t) tenants =
    answer
      (update_config faults.read faults.update (convert_tenant_config id t.settings t.plan) tenants)

unfoldable pub reset_tenant_config : ConfigFaults → String → Tenants → Tenants × Result (Unit {0})
unfolding reset_found
reset_tenant_config faults id tenants =
    reset_found faults id (get_tenant faults.config id tenants) tenants

-- What ValidateTenantConfig says of a configuration whose quotas and features are not nil.
pub data ConfigFlaw : Type 0 where
  no_tenant_id no_settings_given no_resource_type bad_limit no_period : ConfigFlaw

unfoldable pub validate_quotas : List ResourceQuota → Option ConfigFlaw
validate_quotas [] = none
validate_quotas (q ∷ quotas) =
    let rest = validate_quotas quotas in
    if str_eq q.resource_type ""
    then some no_resource_type
    else if ltb_ℤ q.limit (negsuc 0)
    then some bad_limit
    else if str_eq q.period ""
    then some no_period
    else rest

validate_settings : Option TenantSettings → List ResourceQuota → Option ConfigFlaw
validate_settings none quotas = some no_settings_given
validate_settings (some settings) quotas = validate_quotas quotas

unfoldable pub validate_tenant_config : TenantConfig → Option ConfigFlaw
unfolding validate_settings
validate_tenant_config config =
    if str_eq config.tenant_id ""
    then some no_tenant_id
    else validate_settings config.settings config.quotas
