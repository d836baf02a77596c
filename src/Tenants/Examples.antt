-- ===== src/Tenants/Examples.antt =====
-- Witnesses and tests for the tenants of apps/carrier-connector/internal/services.
use text.Mathlib.Text.{◌==◌ as str_eq}
use text.Mathlib.TextEquality.{eq_iff}
use telecom_platform.Base.{
  pos, negsuc, ◌+ℤ◌, ◌≡◌, refl, Bool, true, false, not, ◌&&◌, none, some, List, [], ◌∷◌, String,
  arith,
}
use telecom_platform.Tenants.{
  Tenant, Tenants, ResourceQuota, ok, err, find_tenant, find_by_domain, get_tenant,
  delete_tenant_row, quota_exceeded,
}
use telecom_platform.Tenants.Plans.{get_default_settings, repository_quotas}
use telecom_platform.Tenants.Service.{
  CreateTenantRequest, new_tenant, create_tenant, delete_tenant, get_config,
}
use telecom_platform.Tenants.Config.{get_tenant_quotas, update_tenant_settings, no_settings}
use telecom_platform.Tenants.Settings.{
  working, set_quotas, update_part, updates_keep_quotas, update_tenant_settings_lem,
}
use telecom_platform.Tenants.Calls.{delete, serve}
use telecom_platform.Tenants.Creation.{
  all_work, create_tenant_lem, succeeds, failed_call_changes_nothing,
}
use telecom_platform.Tenants.Quota.{TenantUsage, get_usage, check_quota, limit_for}
use telecom_platform.Tenants.Usage.{
  Recorded, uses, apply_all, IsTransitive, usage_never_accumulates,
}
use telecom_platform.Tenants.Users.{
  TenantUser, validate_tenant_access, context_of, find_user_row, find_user, has_permission,
  update_tenant_user, remove_user_from_tenant,
}
use telecom_platform.Tenants.Access.{validate_tenant_access_lem}
use telecom_platform.Tenants.Members.{
  new_status, inactive_user_keeps_permissions, removed_user_has_no_access,
}

abbrev acme : Tenant
acme = record {
  id = "t1";
  name = "Acme";
  domain = "acme.test";
  status = "active";
  plan = "free";
  max_users = pos 5;
  max_profiles = pos 5;
  max_carriers = pos 5;
  settings = some (get_default_settings "free");
  metadata = some (("region", "east") ∷ []);
}

abbrev tenants : Tenants
tenants = acme ∷ []

abbrev ample : List ResourceQuota
ample = record { resource_type = "users"; limit = negsuc 0; period = "monthly" } ∷ []

updates_keep_quotas_example :
    get_tenant_quotas false "t1" (update_part working "t1" (set_quotas ample) tenants).0
    ≡ get_tenant_quotas false "t1" tenants
updates_keep_quotas_example = (updates_keep_quotas working "t1" (set_quotas ample) "t1" tenants).0

update_tenant_settings_lem_example :
    (update_tenant_settings working "t1" (some no_settings) tenants).1 ≡ ok tt
unfolding find_tenant
update_tenant_settings_lem_example =
    (update_tenant_settings_lem "t1" no_settings acme tenants refl).0

abbrev request : CreateTenantRequest
request = record {
  name = "Beta";
  domain = "beta.test";
  plan = "pro";
  max_users = pos 1;
  max_profiles = pos 1;
  max_carriers = pos 1;
  settings = none;
  metadata = some (("region", "west") ∷ []);
}

create_tenant_lem_example :
    (create_tenant all_work "t2" request tenants).1 ≡ ok (new_tenant "t2" request)
unfolding find_tenant find_by_domain
create_tenant_lem_example = (create_tenant_lem "t2" request tenants (refl, refl, refl) refl refl).0

failed_call_changes_nothing_example : serve (delete true "t1") tenants ≡ tenants
unfolding succeeds delete_tenant delete_tenant_row
failed_call_changes_nothing_example = failed_call_changes_nothing (delete true "t1") tenants refl

-- One identifier comes before all others.
abbrev sorts_first : String → String → Bool
sorts_first a b = str_eq a "usage_1" && not (str_eq b "usage_1")

sorts_first-IsTransitive : IsTransitive sorts_first
sorts_first-IsTransitive a b c h k = ground arith

abbrev row : TenantUsage
row = record { id = "usage_1"; tenant_id = "t1"; resource_type = "users"; quota_used = pos 2 }

abbrev recorded : List Recorded
recorded = uses false "usage_2" "t1" "users" (pos 400) ∷ []

usage_never_accumulates_example :
    check_quota sorts_first false false "t1" "users" (pos 1) (apply_all recorded (row ∷ [])) tenants
    ≡ check_quota sorts_first false false "t1" "users" (pos 1) (row ∷ []) tenants
unfolding get_usage
usage_never_accumulates_example =
    usage_never_accumulates sorts_first sorts_first-IsTransitive "t1" "users" row recorded
      (row ∷ []) (pos 1) tenants (((refl, tt), refl, tt)) refl

abbrev ada : TenantUser
ada = record {
  id = "u1";
  tenant_id = "t1";
  user_id = "ada";
  email = "ada@acme.test";
  role = "admin";
  status = "active";
}

validate_tenant_access_lem_example :
    validate_tenant_access false false "t1" "ada" tenants (ada ∷ [])
    ≡ ok (context_of acme "ada" "admin")
unfolding find_tenant find_user_row find_user
validate_tenant_access_lem_example =
    (validate_tenant_access_lem "t1" "ada" tenants (ada ∷ []) (context_of acme "ada" "admin")).1
      (acme, ada, refl, refl, refl, refl, refl)

inactive_user_keeps_permissions_example :
    has_permission false "t1" "ada" "delete"
      (update_tenant_user false false "t1" "ada" (new_status "suspended") (ada ∷ [])).0
    ≡ has_permission false "t1" "ada" "delete" (ada ∷ [])
unfolding find_user_row find_user
inactive_user_keeps_permissions_example =
    (inactive_user_keeps_permissions "t1" "ada" "suspended" ada (ada ∷ []) (refl, tt) refl
        (λ e. cc ((eq_iff "suspended" "active").1 e))).1
      "delete"

removed_user_has_no_access_example :
    find_user "t1" "ada" (remove_user_from_tenant false "t1" "ada" (ada ∷ [])).0 ≡ none
removed_user_has_no_access_example = (removed_user_has_no_access "t1" "ada" "t1" "bob" (ada ∷ [])).0

over_quota :
    check_quota sorts_first false false "t1" "users" (pos 4) (row ∷ []) tenants
    ≡ err (quota_exceeded (pos 6) (pos 5))
unfolding check_quota get_usage get_config get_tenant find_tenant limit_for repository_quotas ◌+ℤ◌
over_quota = refl
