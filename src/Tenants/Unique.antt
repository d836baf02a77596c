-- ===== src/Tenants/Unique.antt =====
-- apps/carrier-connector/internal/services/tenant_core.go and tenant_config.go: the table of tenants.
use text.Mathlib.Text.{◌==◌ as str_eq}
use text.Mathlib.TextEquality.{eq_iff}
use telecom_platform.Base.{
  ◌≡◌, refl, inl, inr, Bool, true, false, none, some, [], ◌∷◌, String, arith, keep, Bool-cases,
  Option-cases,
}
use telecom_platform.Tenants.{
  Tenant, Tenants, TenantConfig, find_tenant, find_by_domain, get_tenant, save_row,
  update_tenant_row,
}
use telecom_platform.Tenants.Service.{update_config}
use telecom_platform.Tenants.Settings.{configured, find-save, find_self}

-- Identifiers and domains are unique.
abbrev pub IsUnique : Tenants → Type 0
IsUnique [] = Unit
IsUnique (t ∷ tenants) =
    (find_tenant t.id tenants ≡ none) × (find_by_domain t.domain tenants ≡ none) × IsUnique tenants

find_by_domain-save :
    (domain : String) (t u : Tenant) (tenants : Tenants)
    → find_tenant u.id tenants ≡ some t
    → u.domain ≡ t.domain
    → find_by_domain domain tenants ≡ none
    → find_by_domain domain (save_row u tenants) ≡ none
unfolding find_by_domain find_tenant save_row
find_by_domain-save domain t u [] f d n = refl
find_by_domain-save domain t u (v ∷ tenants) f d n =
    ground (
      arith,
      eq_iff v.domain domain,
      eq_iff u.domain domain,
      find_by_domain-save domain t u tenants,
    )

pub save-IsUnique :
    (t u : Tenant) (tenants : Tenants)
    → find_tenant u.id tenants ≡ some t
    → u.domain ≡ t.domain
    → IsUnique tenants
    → IsUnique (save_row u tenants)
unfolding find_tenant save_row
save-IsUnique t u [] f d h = tt
save-IsUnique t u (v ∷ tenants) f d h = elim (Bool-cases (str_eq v.id u.id)) [
  | inl same ↦
      let e : v ≡ t = ground arith in
      rw same (rw (← ((eq_iff v.id u.id).0 same)) h.0, rw (d, ← e) h.1, h.2)
  | inr differ ↦
      let g : find_tenant u.id tenants ≡ some t = rw differ at f in
      rw differ (
        ground (arith, find-save v.id u tenants, h.0),
        find_by_domain-save v.domain t u tenants g d h.1,
        save-IsUnique t u tenants g d h.2,
      )
]

find-keep :
    (id : String) (p : Tenant → Bool) (tenants : Tenants)
    → find_tenant id tenants ≡ none
    → find_tenant id (keep p tenants) ≡ none
unfolding find_tenant
find-keep id p [] h = refl
find-keep id p (t ∷ tenants) h = ground (arith, find-keep id p tenants)

find_by_domain-keep :
    (domain : String) (p : Tenant → Bool) (tenants : Tenants)
    → find_by_domain domain tenants ≡ none
    → find_by_domain domain (keep p tenants) ≡ none
unfolding find_by_domain
find_by_domain-keep domain p [] h = refl
find_by_domain-keep domain p (t ∷ tenants) h = ground (arith, find_by_domain-keep domain p tenants)

pub keep-IsUnique :
    (p : Tenant → Bool) (tenants : Tenants) → IsUnique tenants → IsUnique (keep p tenants)
keep-IsUnique p [] h = tt
keep-IsUnique p (t ∷ tenants) h = ground (
  arith,
  keep-IsUnique p tenants h.2,
  find-keep t.id p tenants h.0,
  find_by_domain-keep t.domain p tenants h.1,
)

pub update_row-IsUnique :
    (fault : Bool) (t u : Tenant) (tenants : Tenants)
    → find_tenant u.id tenants ≡ some t
    → u.domain ≡ t.domain
    → IsUnique tenants
    → IsUnique (update_tenant_row fault u tenants).0
unfolding update_tenant_row
update_row-IsUnique true t u tenants f d h = h
update_row-IsUnique false t u tenants f d h = save-IsUnique t u tenants f d h

pub update_config-IsUnique :
    (read_fault fault : Bool) (config : TenantConfig) (tenants : Tenants)
    → IsUnique tenants
    → IsUnique (update_config read_fault fault config tenants).0
unfolding update_config get_tenant
update_config-IsUnique true fault config tenants h = h
update_config-IsUnique false fault config tenants h =
    elim (Option-cases (find_tenant config.tenant_id tenants)) [
      | inl absent ↦ rw absent h
      | inr (t, found) ↦ rw found (
          update_row-IsUnique fault t (configured config t) tenants
            (find_self config.tenant_id t tenants found) refl h)
    ]
