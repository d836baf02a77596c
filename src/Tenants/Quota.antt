-- ===== src/Tenants/Quota.antt =====
-- apps/carrier-connector/internal/services/tenant_quota.go, with GetUsage and UpdateUsage of
-- internal/repository/tenant_repository_apikey_usage.go. `before` is the order in which the database sorts
-- identifiers, by which `First` chooses a row. The generated identifiers are arguments. GetUsageStats, whose
-- percentages are float64, the columns and dates that no check reads, and CheckRateLimit, a call of the
-- rate limiter, are left out.
use text.Mathlib.Text.{◌==◌ as str_eq}
use telecom_platform.Base.{
  ℤ, pos, ◌+ℤ◌, ltb_ℤ, leb_ℤ, Bool, ◌&&◌, ◌||◌, Option, none, some, List, [], ◌∷◌, String,
  if◌then◌else◌,
}
use telecom_platform.Tenants.{
  Tenant, ResourceQuota, TenantConfig, get_failed, update_failed, usage_failed, tenant_inactive,
  unknown_resource, quota_exceeded, Result, ok, err, Tenants, get_tenant, or_fault,
}
use telecom_platform.Tenants.Service.{get_config}

pub record TenantUsage : Type 0 where
  pub id : String
  pub tenant_id : String
  pub resource_type : String
  pub quota_used : ℤ

abbrev pub is_for : String → String → TenantUsage → Bool
is_for tenant resource u = str_eq u.tenant_id tenant && str_eq u.resource_type resource

-- The loop that finds the limit, which is 0 where there is no quota.
unfoldable pub limit_for : String → List ResourceQuota → ℤ
limit_for resource [] = pos 0
limit_for resource (q ∷ quotas) =
    if str_eq q.resource_type resource then q.limit else limit_for resource quotas

-- `Save`: the row with the identifier is overwritten, or a row is added.
unfoldable pub save_usage : TenantUsage → List TenantUsage → List TenantUsage
save_usage u [] = u ∷ []
save_usage u (v ∷ rows) = if str_eq v.id u.id then u ∷ rows else v ∷ save_usage u rows

abbrev pub within : ℤ → ℤ → Result (Unit {0})
within used limit =
    if leb_ℤ (pos 0) limit && ltb_ℤ limit used then err (quota_exceeded used limit) else ok tt

abbrev pub check_config : String → ℤ → TenantUsage → Option TenantConfig → Result (Unit {0})
check_config resource amount u none = err get_failed
check_config resource amount u (some config) =
    within (u.quota_used +ℤ amount) (limit_for resource config.quotas)

abbrev pub check_usage :
    String → String → ℤ → Bool → Option TenantUsage → Tenants → Result (Unit {0})
check_usage tenant resource amount config_fault none tenants = err usage_failed
check_usage tenant resource amount config_fault (some u) tenants =
    check_config resource amount u (get_config config_fault tenant tenants)

module _ (before : String → String → Bool) where
  abbrev pub earlier : TenantUsage → Option TenantUsage → Option TenantUsage
  earlier u none = some u
  earlier u (some v) = if before v.id u.id then some v else some u

  -- `Where("tenant_id = ? AND resource_type = ?").First`
  unfoldable pub get_usage : String → String → List TenantUsage → Option TenantUsage
  get_usage tenant resource [] = none
  get_usage tenant resource (u ∷ rows) =
      let rest = get_usage tenant resource rows in
      if is_for tenant resource u then earlier u rest else rest

  unfoldable pub check_quota :
      Bool → Bool → String → String → ℤ → List TenantUsage → Tenants → Result (Unit {0})
  check_quota usage_fault config_fault tenant resource amount usage tenants =
      check_usage tenant resource amount config_fault
        (or_fault usage_fault (get_usage tenant resource usage)) tenants

unfoldable pub update_usage :
    Bool → String → String → String → ℤ → List TenantUsage → List TenantUsage × Result (Unit {0})
update_usage fault id tenant resource amount usage = if fault then (usage, err update_failed) else (
  save_usage (record { id = id; tenant_id = tenant; resource_type = resource; quota_used = amount })
      usage,
  ok tt,
)

-- RecordAPIUsage, which writes the same statement again.
unfoldable pub record_api_usage :
    Bool → String → String → List TenantUsage → List TenantUsage × Result (Unit {0})
unfolding update_usage
record_api_usage fault id tenant usage = update_usage fault id tenant "api_calls" (pos 1) usage

resource_access : String → Option Tenant → Result (Unit {0})
resource_access resource none = err get_failed
resource_access resource (some t) =
    if str_eq t.status "active"
    then if str_eq resource "profiles" || str_eq resource "carriers" || str_eq resource "users"
      then ok tt
      else err unknown_resource
    else err tenant_inactive

unfoldable pub validate_resource_access : Bool → String → String → Tenants → Result (Unit {0})
unfolding resource_access
validate_resource_access fault tenant resource tenants =
    resource_access resource (get_tenant fault tenant tenants)
