-- ===== src/Tenants/Access.antt =====
-- apps/carrier-connector/internal/services/tenant_user_methods.go and tenant_user.go: who has access.
use text.Mathlib.Text.{◌==◌ as str_eq}
use text.Mathlib.TextEquality.{eq_iff}
use telecom_platform.Base.{
  ◌≡◌, refl, ◌↔◌, inl, inr, false, some, String, arith, if◌then◌else◌, Bool-cases, Option-cases,
}
use telecom_platform.Tenants.{Tenant, ok, err, Tenants, find_tenant, get_tenant, tenant_inactive}
use telecom_platform.Tenants.Users.{
  access_user, TenantUser, TenantContext, Users, find_user, get_tenant_user, context_of,
  validate_tenant_access,
}

granted :
    (t : Tenant) (user : String) (u : TenantUser) (context : TenantContext)
    → ((if str_eq t.status "active" then access_user t user (some u) else err tenant_inactive)
        ≡ ok context)
      ↔ ((t.status ≡ "active") × (u.status ≡ "active") × (context ≡ context_of t user u.role))
unfolding access_user
granted t user u context =
    let tenant_status = eq_iff t.status "active" in
    let user_status = eq_iff u.status "active" in
    elim (Bool-cases (str_eq t.status "active")) [
      | inl a ↦ elim (Bool-cases (str_eq u.status "active")) [
        | inl b ↦ rw (a, b) ((λ h. (tenant_status.0 a, user_status.0 b, cc)), λ (x, y, z). cc)
        | inr b ↦ rw (a, b) ((λ h. cc), λ (x, y, z). cc (rw b at (user_status.1 y)))
      ]
      | inr a ↦ rw a ((λ h. cc), λ (x, y, z). cc (rw a at (tenant_status.1 x)))
    ]

-- Where no query fails, access is granted exactly when the tenant and the user are there and both are
-- active; the context has the tenant's name, plan, settings and metadata and the user's role.
pub validate_tenant_access_lem :
    (tenant user : String) (tenants : Tenants) (users : Users) (context : TenantContext)
    → (validate_tenant_access false false tenant user tenants users ≡ ok context) ↔ (
        (t : Tenant) × (u : TenantUser) × (find_tenant tenant tenants ≡ some t)
        × (t.status ≡ "active")
        × (find_user tenant user users ≡ some u)
        × (u.status ≡ "active")
        × (context ≡ context_of t user u.role))
unfolding validate_tenant_access get_tenant get_tenant_user
validate_tenant_access_lem tenant user tenants users context =
    elim (Option-cases (find_tenant tenant tenants)) [
      | inl e ↦ rw e ((λ h. cc), λ (t, u, a, b, c, d, g). cc)
      | inr (t, e) ↦ elim (Option-cases (find_user tenant user users)) [
        | inl f ↦ rw (e, f) ((λ h. ground arith), λ (s, u, a, b, c, d, g). cc)
        | inr (u, f) ↦
            rw (e, f)
              (
                (λ h.
                    let (a, b, c) = (granted t user u context).0 h in (t, u, refl, a, refl, b, c)),
                λ (s, v, a, b, c, d, g).
                    let same_tenant : s ≡ t = cc in
                    let same_user : v ≡ u = cc in
                    (granted t user u context).1
                      (rw same_tenant at b, rw same_user at d, rw (same_tenant, same_user) at g),
              )
      ]
    ]
