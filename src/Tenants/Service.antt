-- ===== src/Tenants/Service.antt =====
-- apps/carrier-connector/internal/services/tenant_core.go, with UpdateConfig and GetConfig of
-- internal/repository/tenant_repository.go. The new identifier is an argument.
use text.Mathlib.Text.{◌==◌ as str_eq}
use telecom_platform.Base.{
  ℤ, Bool, true, false, Option, none, some, [], String, if◌then◌else◌, Dict,
}
use telecom_platform.Tenants.{
  TenantSettings, Tenant, TenantConfig, TenantError, name_required, domain_required, plan_required,
  domain_exists, get_failed, create_failed, update_failed, delete_failed, Result, ok, err, Tenants,
  get_tenant, get_tenant_by_domain, create_tenant_row, update_tenant_row, delete_tenant_row,
}
use telecom_platform.Tenants.Plans.{
  get_default_settings, get_default_quotas, get_default_features, repository_quotas,
  repository_features,
}

pub record CreateTenantRequest : Type 0 where
  pub name : String
  pub domain : String
  pub plan : String
  pub max_users : ℤ
  pub max_profiles : ℤ
  pub max_carriers : ℤ
  pub settings : Option TenantSettings
  pub metadata : Option (Dict String)

pub record UpdateTenantRequest : Type 0 where
  pub name : Option String
  pub status : Option String
  pub plan : Option String
  pub max_users : Option ℤ
  pub max_profiles : Option ℤ
  pub max_carriers : Option ℤ
  pub settings : Option TenantSettings
  pub metadata : Option (Dict String)

abbrev pub or_old {ℓ} : {A : Type ℓ} → Option A → A → A
or_old none old = old
or_old (some new) old = new

abbrev pub or_old_option {ℓ} : {A : Type ℓ} → Option A → Option A → Option A
or_old_option none old = old
or_old_option (some new) old = some new

-- GetConfig: the quotas and the features come from the plan alone.
config_of : Option Tenant → Option TenantConfig
config_of none = none
config_of (some t) = some (record {
  tenant_id = t.id;
  config = [];
  settings = t.settings;
  quotas = repository_quotas t.plan;
  features = repository_features t.plan;
})

unfoldable pub get_config : Bool → String → Tenants → Option TenantConfig
unfolding config_of
get_config fault id tenants = config_of (get_tenant fault id tenants)

update_found : Bool → TenantConfig → Option Tenant → Tenants → Tenants × Bool
update_found fault config none tenants = (tenants, false)
update_found fault config (some t) tenants =
    update_tenant_row fault (record t { settings = config.settings; metadata = some config.config })
      tenants

-- UpdateConfig: the row is read, its settings and metadata are set, and it is saved.
unfoldable pub update_config : Bool → Bool → TenantConfig → Tenants → Tenants × Bool
unfolding update_found
update_config read_fault fault config tenants =
    update_found fault config (get_tenant read_fault config.tenant_id tenants) tenants

unfoldable pub validate_create_tenant_request : CreateTenantRequest → Option TenantError
validate_create_tenant_request request =
    if str_eq request.name ""
    then some name_required
    else if str_eq request.domain ""
    then some domain_required
    else if str_eq request.plan ""
    then some plan_required
    else none

-- Which of the four statements of CreateTenant fail.
pub record CreateFaults : Type 0 where
  pub lookup : Bool
  pub create : Bool
  pub read : Bool
  pub update : Bool

unfoldable pub new_tenant : String → CreateTenantRequest → Tenant
new_tenant id request = record {
  id = id;
  name = request.name;
  domain = request.domain;
  status = "active";
  plan = request.plan;
  max_users = request.max_users;
  max_profiles = request.max_profiles;
  max_carriers = request.max_carriers;
  settings = some (or_old request.settings (get_default_settings request.plan));
  metadata = request.metadata;
}

-- The first configuration; that its update fails is only logged.
unfoldable pub configure : CreateFaults → Tenant → Tenants × Bool → Tenants × Result Tenant
configure faults t (tenants, false) = (tenants, err create_failed)
configure faults t (tenants, true) =
    let config : TenantConfig = record {
      tenant_id = t.id;
      config = [];
      settings = t.settings;
      quotas = get_default_quotas t.plan;
      features = get_default_features t.plan;
    } in
    ((update_config faults.read faults.update config tenants).0, ok t)

unless_exists : CreateFaults → Tenant → Option Tenant → Tenants → Tenants × Result Tenant
unfolding configure
unless_exists faults t (some existing) tenants = (tenants, err domain_exists)
unless_exists faults t none tenants = configure faults t (create_tenant_row faults.create t tenants)

create_valid :
    CreateFaults
    → String
    → CreateTenantRequest
    → Option TenantError
    → Tenants
    → Tenants × Result Tenant
unfolding unless_exists
create_valid faults id request (some e) tenants = (tenants, err e)
create_valid faults id request none tenants =
    unless_exists faults (new_tenant id request)
      (get_tenant_by_domain faults.lookup request.domain tenants) tenants

unfoldable pub create_tenant :
    CreateFaults → String → CreateTenantRequest → Tenants → Tenants × Result Tenant
unfolding create_valid
create_tenant faults id request tenants =
    create_valid faults id request (validate_create_tenant_request request) tenants

unfoldable pub apply_updates : UpdateTenantRequest → Tenant → Tenant
apply_updates request t = record t {
  name = or_old request.name t.name;
  status = or_old request.status t.status;
  plan = or_old request.plan t.plan;
  max_users = or_old request.max_users t.max_users;
  max_profiles = or_old request.max_profiles t.max_profiles;
  max_carriers = or_old request.max_carriers t.max_carriers;
  settings = or_old_option request.settings t.settings;
  metadata = or_old_option request.metadata t.metadata;
}

abbrev saved {ℓ} : {A : Type ℓ} → A → TenantError → Tenants × Bool → Tenants × Result A
saved t e (tenants, true) = (tenants, ok t)
saved t e (tenants, false) = (tenants, err e)

unfoldable pub update_tenant_found :
    Bool → UpdateTenantRequest → Option Tenant → Tenants → Tenants × Result Tenant
update_tenant_found fault request none tenants = (tenants, err get_failed)
update_tenant_found fault request (some t) tenants =
    let updated = apply_updates request t in
    saved updated update_failed (update_tenant_row fault updated tenants)

unfoldable pub update_tenant :
    Bool → Bool → String → UpdateTenantRequest → Tenants → Tenants × Result Tenant
unfolding update_tenant_found
update_tenant read_fault fault id request tenants =
    update_tenant_found fault request (get_tenant read_fault id tenants) tenants

unfoldable pub delete_tenant : Bool → String → Tenants → Tenants × Result (Unit {0})
delete_tenant fault id tenants = saved tt delete_failed (delete_tenant_row fault id tenants)
