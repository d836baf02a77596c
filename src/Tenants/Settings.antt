-- ===== src/Tenants/Settings.antt =====
-- apps/carrier-connector/internal/services/tenant_config.go: which parts of a configuration last.
use text.Mathlib.Text.{◌==◌ as str_eq}
use text.Mathlib.TextEquality.{eq_iff}
use telecom_platform.Base.{
  ◌≡◌, refl, ap, ◌∙◌, ◌⊎◌, inl, inr, Bool, true, false, Option, none, some, List, [], ◌∷◌, String,
  arith, if◌then◌else◌, Dict, pos, Bool-cases, Option-cases,
}
use telecom_platform.Tenants.{
  TenantSettings, Tenant, ResourceQuota, TenantConfig, Result, ok, Tenants, find_tenant, get_tenant,
  save_row, update_tenant_row,
}
use telecom_platform.Tenants.Service.{get_config, update_config}
use telecom_platform.Tenants.Config.{
  ConfigFaults, answer, convert_tenant_config, reset_tenant_config, update_tenant_config,
  change_config, get_tenant_features, get_tenant_quotas, convert_tenant_settings,
  update_tenant_settings, update_tenant_features, update_tenant_quotas,
}

pub find-save :
    (id : String) (t : Tenant) (tenants : Tenants)
    → find_tenant id (save_row t tenants) ≡ (
        if str_eq t.id id
        then elim (find_tenant id tenants) [ none ↦ none | some old ↦ some t ]
        else find_tenant id tenants)
unfolding find_tenant save_row
find-save id t [] = ground (arith, eq_iff t.id id)
find-save id t (u ∷ tenants) =
    ground (arith, eq_iff t.id id, eq_iff u.id t.id, eq_iff u.id id, find-save id t tenants)

pub answer-table : (saved : Tenants × Bool) → (answer saved).0 ≡ saved.0
answer-table (tenants, true) = refl
answer-table (tenants, false) = refl

pub find-id :
    (id : String) (t : Tenant) (tenants : Tenants) → find_tenant id tenants ≡ some t → t.id ≡ id
unfolding find_tenant
find-id id t [] h = cc
find-id id t (u ∷ tenants) h = ground (arith, eq_iff u.id id, find-id id t tenants)

pub find_self :
    (id : String) (t : Tenant) (tenants : Tenants)
    → find_tenant id tenants ≡ some t
    → find_tenant t.id tenants ≡ some t
find_self id t tenants found =
    ap (λ (k : String). find_tenant k tenants) (find-id id t tenants found) ∙ found

pub find-save_self :
    (id : String) (t u : Tenant) (tenants : Tenants)
    → find_tenant id tenants ≡ some t
    → u.id ≡ t.id
    → find_tenant id (save_row u tenants) ≡ some u
find-save_self id t u tenants found same =
    ground (arith, find-save id u tenants, eq_iff u.id id, find-id id t tenants found)

abbrev pub configured : TenantConfig → Tenant → Tenant
configured config t = record t { settings = config.settings; metadata = some config.config }

-- What a query finds after `after` has replaced `tenants`: what it found before, or that with the
-- settings and the metadata of a configuration.
abbrev pub Configured : TenantConfig → String → Tenants → Tenants → Type 0
Configured config id tenants after =
    (find_tenant id after ≡ find_tenant id tenants)
    ⊎ ((t : Tenant) × (find_tenant id tenants ≡ some t)
        × (find_tenant id after ≡ some (configured config t)))

save_row-Configured :
    (config : TenantConfig) (id : String) (t : Tenant) (tenants : Tenants)
    → find_tenant config.tenant_id tenants ≡ some t
    → Configured config id tenants (save_row (configured config t) tenants)
save_row-Configured config id t tenants found = elim (Bool-cases (str_eq t.id id)) [
  | inl same ↦
      let at_id : find_tenant id tenants ≡ some t =
        rw (← ((eq_iff t.id id).0 same)) (find_self config.tenant_id t tenants found) in
      inr (t, at_id, find-save id (configured config t) tenants ∙ rw (same, at_id) refl)
  | inr differ ↦ inl (find-save id (configured config t) tenants ∙ rw differ refl)
]

pub update_config-Configured :
    (read_fault fault : Bool) (config : TenantConfig) (id : String) (tenants : Tenants)
    → Configured config id tenants (update_config read_fault fault config tenants).0
unfolding update_config get_tenant update_tenant_row
update_config-Configured true fault config id tenants = inl refl
update_config-Configured false fault config id tenants =
    elim (Option-cases (find_tenant config.tenant_id tenants)) [
      | inl absent ↦ inl (rw absent refl)
      | inr (t, found) ↦ rw found (saved_or_not t found fault)
    ]
  where
    saved_or_not :
        (t : Tenant)
        → find_tenant config.tenant_id tenants ≡ some t
        → (fails : Bool)
        → Configured config id tenants (update_tenant_row fails (configured config t) tenants).0
    saved_or_not t found true = inl refl
    saved_or_not t found false = save_row-Configured config id t tenants found

abbrev pub working : ConfigFaults
working = record { config = false; read = false; update = false }

-- An update of a part of a tenant's configuration, or its reset.
pub data ConfigUpdate : Type 0 where
  set_config : TenantConfig → ConfigUpdate
  set_settings : Option TenantSettings → ConfigUpdate
  set_features : Dict Bool → ConfigUpdate
  set_quotas : List ResourceQuota → ConfigUpdate
  reset : ConfigUpdate

unfoldable pub update_part :
    ConfigFaults → String → ConfigUpdate → Tenants → Tenants × Result (Unit {0})
update_part faults id (set_config config) tenants = update_tenant_config faults id config tenants
update_part faults id (set_settings settings) tenants =
    update_tenant_settings faults id settings tenants
update_part faults id (set_features features) tenants =
    update_tenant_features faults id features tenants
update_part faults id (set_quotas quotas) tenants = update_tenant_quotas faults id quotas tenants
update_part faults id reset tenants = reset_tenant_config faults id tenants

SamePlan : String → Tenants → Tenants → Type 0
SamePlan id tenants after =
    (find_tenant id after ≡ find_tenant id tenants)
    ⊎ ((t : Tenant) × (u : Tenant) × (find_tenant id tenants ≡ some t)
        × (find_tenant id after ≡ some u)
        × (u.plan ≡ t.plan))

answer-SamePlan :
    (read_fault fault : Bool) (config : TenantConfig) (id : String) (tenants : Tenants)
    → SamePlan id tenants (answer (update_config read_fault fault config tenants)).0
unfolding SamePlan
answer-SamePlan read_fault fault config id tenants =
    rw (answer-table (update_config read_fault fault config tenants))
      (elim (update_config-Configured read_fault fault config id tenants) [
        | inl same ↦ inl same
        | inr (t, before, after) ↦ inr (t, configured config t, before, after, refl)
      ])

change_config-SamePlan :
    (faults : ConfigFaults) (f : TenantConfig → TenantConfig) (id other : String)
    (tenants : Tenants)
    → SamePlan other tenants (change_config faults f id tenants).0
unfolding change_config SamePlan
change_config-SamePlan faults f id other tenants =
    elim (Option-cases (get_config faults.config id tenants)) [
      | inl absent ↦ rw absent (inl refl)
      | inr (config, found) ↦
          rw found (answer-SamePlan faults.read faults.update (f config) other tenants)
    ]

reset-SamePlan :
    (faults : ConfigFaults) (id other : String) (tenants : Tenants)
    → SamePlan other tenants (reset_tenant_config faults id tenants).0
unfolding reset_tenant_config SamePlan
reset-SamePlan faults id other tenants = elim (Option-cases (get_tenant faults.config id tenants)) [
  | inl absent ↦ rw absent (inl refl)
  | inr (t, found) ↦ rw found (
      answer-SamePlan faults.read faults.update (convert_tenant_config id t.settings t.plan) other
        tenants)
]

update_part-SamePlan :
    (faults : ConfigFaults) (id : String) (update : ConfigUpdate) (other : String)
    (tenants : Tenants)
    → SamePlan other tenants (update_part faults id update tenants).0
unfolding update_part update_tenant_config update_tenant_settings update_tenant_features
    update_tenant_quotas
update_part-SamePlan faults id (set_config config) other tenants =
    answer-SamePlan faults.read faults.update (record config { tenant_id = id }) other tenants
update_part-SamePlan faults id (set_settings settings) other tenants =
    change_config-SamePlan faults _ id other tenants
update_part-SamePlan faults id (set_features features) other tenants =
    change_config-SamePlan faults _ id other tenants
update_part-SamePlan faults id (set_quotas quotas) other tenants =
    change_config-SamePlan faults _ id other tenants
update_part-SamePlan faults id reset other tenants = reset-SamePlan faults id other tenants

-- No update of a configuration, of whichever part, and no reset changes the quotas or the features
-- that are read afterwards, of any tenant and whether or not a query fails: they follow from the plan.
pub updates_keep_quotas :
    (faults : ConfigFaults) (id : String) (update : ConfigUpdate) (other : String)
    (tenants : Tenants)
    → (get_tenant_quotas false other (update_part faults id update tenants).0
        ≡ get_tenant_quotas false other tenants)
      × (get_tenant_features false other (update_part faults id update tenants).0
          ≡ get_tenant_features false other tenants)
unfolding get_tenant_quotas get_tenant_features get_config get_tenant SamePlan
updates_keep_quotas faults id update other tenants =
    elim (update_part-SamePlan faults id update other tenants) [
      | inl same ↦ (rw same refl, rw same refl)
      | inr (t, u, before, after, plan) ↦
          (rw (before, after, plan) refl, rw (before, after, plan) refl)
    ]

-- Updating the settings of a tenant that is there succeeds where no query fails, and stores the given
-- settings with no password policy and with rate limits of 0. The metadata of the tenant is emptied.
pub update_tenant_settings_lem :
    (id : String) (settings : TenantSettings) (t : Tenant) (tenants : Tenants)
    → find_tenant id tenants ≡ some t
    → ((update_tenant_settings working id (some settings) tenants).1 ≡ ok tt)
      × (find_tenant id (update_tenant_settings working id (some settings) tenants).0
          ≡ some (record t {
            settings = some (record settings {
              api_rate_limit_per_minute = pos 0;
              api_rate_limit_per_hour = pos 0;
              password_policy = none;
            });
            metadata = some [];
          }))
unfolding update_tenant_settings change_config get_config get_tenant update_config update_tenant_row
    convert_tenant_settings
update_tenant_settings_lem id settings t tenants found =
    rw (found, find_self id t tenants found) (refl, find-save_self id t _ tenants found refl)
