-- ===== src/Tenants/Members.antt =====
-- apps/carrier-connector/internal/services/tenant_user_methods.go: the rows of users, and what a new
-- status does.
use text.Mathlib.Text.{◌==◌ as str_eq}
use text.Mathlib.TextEquality.{eq_iff}
use telecom_platform.Base.{◌≡◌, ◌≢◌, refl, false, ◌&&◌, none, some, [], ◌∷◌, String, arith}
use telecom_platform.Tenants.{Tenants, ok}
use telecom_platform.Tenants.Users.{
  TenantUser, UpdateTenantUserRequest, TenantContext, Users, is_user, find_user, find_user_row,
  get_tenant_user, save_user, update_tenant_user, remove_user_from_tenant, has_permission,
  validate_tenant_access,
}
use telecom_platform.Tenants.Access.{validate_tenant_access_lem}

-- Identifiers are unique, as a primary key is.
abbrev pub HasIds : Users → Type 0
HasIds [] = Unit
HasIds (u ∷ users) = (find_user_row u.id users ≡ none) × HasIds users

row_of_found :
    (tenant user : String) (u : TenantUser) (users : Users)
    → find_user tenant user users ≡ some u
    → find_user_row u.id users ≢ none
unfolding find_user find_user_row
row_of_found tenant user u [] f = λ h. cc
row_of_found tenant user u (v ∷ users) f =
    λ h. ground (arith, eq_iff v.id u.id, row_of_found tenant user u users)

find_user-save :
    (tenant user : String) (u w : TenantUser) (users : Users)
    → HasIds users
    → find_user tenant user users ≡ some u
    → w.id ≡ u.id
    → is_user tenant user w ≡ is_user tenant user u
    → find_user tenant user (save_user w users) ≡ some w
unfolding find_user save_user
find_user-save tenant user u w [] h f i k = cc
find_user-save tenant user u w (v ∷ users) h f i k = ground (
  arith,
  eq_iff v.id w.id,
  find_user-save tenant user u w users h.1,
  row_of_found tenant user u users,
)

abbrev pub new_status : String → UpdateTenantUserRequest
new_status status = record { role = none; status = some status }

-- A status other than active that is given to a user of a tenant, in a table whose identifiers are unique and
-- where no query fails, ends the access of that user to the tenant, and every permission that HasPermission
-- reports for the user stays as it was.
pub inactive_user_keeps_permissions :
    (tenant user status : String) (u : TenantUser) (users : Users)
    → HasIds users
    → find_user tenant user users ≡ some u
    → status ≢ "active"
    → ((tenants : Tenants) (context : TenantContext)
        → validate_tenant_access false false tenant user tenants
            (update_tenant_user false false tenant user (new_status status) users).0
          ≢ ok context)
      × ((permission : String)
          → has_permission false tenant user permission
              (update_tenant_user false false tenant user (new_status status) users).0
            ≡ has_permission false tenant user permission users)
unfolding update_tenant_user has_permission get_tenant_user
inactive_user_keeps_permissions tenant user status u users h f n =
    let w : TenantUser = record u { status = status } in
    let after = find_user-save tenant user u w users h f refl refl in
    (
      λ tenants context e.
          let (t, v, a, b, c, d, g) =
            (validate_tenant_access_lem tenant user tenants
                (update_tenant_user false false tenant user (new_status status) users).0 context).0
              e in
          let found_v = rw f at c in
          let same : v ≡ w = ground (arith, found_v, after) in n (rw same at d),
      λ permission. rw (f, after) refl,
    )

-- Once a user has been removed from a tenant the user has no access to it; other users are found as before.
pub removed_user_has_no_access :
    (tenant user other_tenant other : String) (users : Users)
    → (find_user tenant user (remove_user_from_tenant false tenant user users).0 ≡ none)
      × ((str_eq tenant other_tenant && str_eq user other ≡ false)
          → find_user other_tenant other (remove_user_from_tenant false tenant user users).0
            ≡ find_user other_tenant other users)
unfolding remove_user_from_tenant find_user
removed_user_has_no_access tenant user other_tenant other [] = (refl, λ h. refl)
removed_user_has_no_access tenant user other_tenant other (u ∷ users) =
    let rest = removed_user_has_no_access tenant user other_tenant other users in
    (
      ground (arith, rest.0),
      λ h. ground (
        arith,
        eq_iff u.tenant_id tenant,
        eq_iff u.user_id user,
        eq_iff u.tenant_id other_tenant,
        eq_iff u.user_id other,
        eq_iff tenant other_tenant,
        eq_iff user other,
        rest.1 h,
      ),
    )
