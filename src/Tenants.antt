-- ===== src/Tenants.antt =====
-- apps/carrier-connector/internal/tenant/models.go and types.go, with the queries of
-- internal/repository/tenant_repository_crud.go. The table of tenants is the list of its rows, with the
-- identifier and the domain unique. Plans and statuses are texts, as in the source. A value of a
-- map[string]any is the text of its JSON. A query that fails is a Boolean argument. Dates are left out.
pub mod Plans
pub mod Service
pub mod Config
pub mod Quota
pub mod Users
pub mod Unique
pub mod Settings
pub mod Calls
pub mod Creation
pub mod Usage
pub mod Checks
pub mod Access
pub mod Members
mod Examples
use text.Mathlib.Text.{◌==◌ as str_eq}
use telecom_platform.Base.{
  ℕ, ℤ, Bool, true, false, not, ◌&&◌, ◌||◌, Option, none, some, List, [], ◌∷◌, String,
  if◌then◌else◌, Dict, keep,
}

pub record PasswordPolicy : Type 0 where
  pub min_length : ℤ
  pub require_uppercase : Bool
  pub require_lowercase : Bool
  pub require_numbers : Bool
  pub require_symbols : Bool
  pub max_age_days : ℤ

pub record TenantSettings : Type 0 where
  pub default_currency : String
  pub supported_currencies : List String
  pub enable_multi_currency : Bool
  pub enable_advanced_analytics : Bool
  pub enable_api_access : Bool
  pub enable_webhooks : Bool
  pub api_rate_limit_per_minute : ℤ
  pub api_rate_limit_per_hour : ℤ
  pub require_2fa : Bool
  pub session_timeout : ℤ
  pub password_policy : Option PasswordPolicy
  pub data_retention_days : ℤ
  pub compliance_regions : List String

-- A map that is nil is `none`.
pub record Tenant : Type 0 where
  pub id : String
  pub name : String
  pub domain : String
  pub status : String
  pub plan : String
  pub max_users : ℤ
  pub max_profiles : ℤ
  pub max_carriers : ℤ
  pub settings : Option TenantSettings
  pub metadata : Option (Dict String)

pub record ResourceQuota : Type 0 where
  pub resource_type : String
  pub limit : ℤ
  pub period : String

pub record TenantConfig : Type 0 where
  pub tenant_id : String
  pub config : Dict String
  pub settings : Option TenantSettings
  pub quotas : List ResourceQuota
  pub features : Dict Bool

pub data TenantError : Type 0 where
  name_required domain_required plan_required domain_exists user_exists : TenantError
  tenant_id_required user_id_required email_required role_required : TenantError
  get_failed create_failed update_failed delete_failed usage_failed : TenantError
  tenant_inactive user_inactive unknown_resource : TenantError
  quota_exceeded : ℤ → ℤ → TenantError

pub data Result {ℓ} (A : Type ℓ) : Type ℓ where
  ok : A → Result A
  err : TenantError → Result A

abbrev pub Tenants : Type 0
Tenants = List Tenant

-- `Where("id = ?", id).First`
unfoldable pub find_tenant : String → Tenants → Option Tenant
find_tenant id [] = none
find_tenant id (t ∷ tenants) = if str_eq t.id id then some t else find_tenant id tenants

unfoldable pub find_by_domain : String → Tenants → Option Tenant
find_by_domain domain [] = none
find_by_domain domain (t ∷ tenants) =
    if str_eq t.domain domain then some t else find_by_domain domain tenants

abbrev pub or_fault : {A : Type 0} → Bool → Option A → Option A
or_fault fault found = if fault then none else found

unfoldable pub get_tenant : Bool → String → Tenants → Option Tenant
get_tenant fault id tenants = or_fault fault (find_tenant id tenants)

unfoldable pub get_tenant_by_domain : Bool → String → Tenants → Option Tenant
get_tenant_by_domain fault domain tenants = or_fault fault (find_by_domain domain tenants)

abbrev pub is_none {ℓ} : {A : Type ℓ} → Option A → Bool
is_none none = true
is_none (some a) = false

-- `Create`, which fails on an identifier or a domain that is there. The Boolean says whether it succeeded.
unfoldable pub create_tenant_row : Bool → Tenant → Tenants → Tenants × Bool
create_tenant_row fault t tenants =
    if not fault && is_none (find_tenant t.id tenants) && is_none (find_by_domain t.domain tenants)
    then (t ∷ tenants, true)
    else (tenants, false)

-- `Save` of a row that is there: its columns are overwritten.
unfoldable pub save_row : Tenant → Tenants → Tenants
save_row t [] = []
save_row t (u ∷ tenants) = if str_eq u.id t.id then t ∷ tenants else u ∷ save_row t tenants

unfoldable pub update_tenant_row : Bool → Tenant → Tenants → Tenants × Bool
update_tenant_row fault t tenants = if fault then (tenants, false) else (save_row t tenants, true)

unfoldable pub delete_tenant_row : Bool → String → Tenants → Tenants × Bool
delete_tenant_row fault id tenants =
    if fault then (tenants, false) else (keep (λ (t : Tenant). not (str_eq t.id id)) tenants, true)
