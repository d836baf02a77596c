-- ===== src/Tenants/Creation.antt =====
-- apps/carrier-connector/internal/services/tenant_core.go: what a call leaves in the table of tenants.
use text.Mathlib.Text.{◌==◌ as str_eq}
use text.Mathlib.TextEquality.{eq_iff}
use telecom_platform.Base.{
  ◌≡◌, refl, inl, inr, Bool, true, false, not, ◌&&◌, none, some, [], ◌∷◌, String, arith,
  Option-cases, Bool-cases,
}
use telecom_platform.Tenants.{
  Tenant, Tenants, TenantConfig, Result, ok, err, find_tenant, find_by_domain, get_tenant,
  get_tenant_by_domain, create_tenant_row, update_tenant_row, save_row, delete_tenant_row, is_none,
}
use telecom_platform.Tenants.Plans.{repository_features}
use telecom_platform.Tenants.Service.{
  CreateFaults, CreateTenantRequest, UpdateTenantRequest, update_config, new_tenant, create_tenant,
  configure, update_tenant, update_tenant_found, delete_tenant, get_config,
  validate_create_tenant_request,
}
use telecom_platform.Tenants.Config.{
  ConfigFaults, answer, change_config, update_tenant_config, update_tenant_settings,
  update_tenant_features, update_tenant_quotas, reset_tenant_config, convert_tenant_config,
  get_tenant_features,
}
use telecom_platform.Tenants.Settings.{
  ConfigUpdate, set_config, set_settings, set_features, set_quotas, reset, update_part,
}
use telecom_platform.Tenants.Calls.{TenantCall, create, update, delete, configure_tenant, serve}

abbrev pub all_work : CreateFaults
all_work = record { lookup = false; create = false; read = false; update = false }

-- A request with a name, a domain and a plan is valid.
abbrev pub IsComplete : CreateTenantRequest → Type 0
IsComplete request =
    (str_eq request.name "" ≡ false)
    × (str_eq request.domain "" ≡ false)
    × (str_eq request.plan "" ≡ false)

create_free :
    (t : Tenant) (tenants : Tenants)
    → find_tenant t.id tenants ≡ none
    → find_by_domain t.domain tenants ≡ none
    → create_tenant_row false t tenants ≡ (t ∷ tenants, true)
unfolding create_tenant_row
create_free t tenants new free = rw (new, free) refl

-- The first configuration of a tenant that is the first row.
configure_first :
    (t : Tenant) (tenants : Tenants)
    → configure all_work t (t ∷ tenants, true) ≡ (record t { metadata = some [] } ∷ tenants, ok t)
unfolding configure update_config get_tenant update_tenant_row save_row find_tenant
configure_first t tenants = rw ((eq_iff t.id t.id).1 refl) (rw ((eq_iff t.id t.id).1 refl) refl)

create_tenant-new :
    (id : String) (request : CreateTenantRequest) (tenants : Tenants)
    → IsComplete request
    → find_tenant id tenants ≡ none
    → find_by_domain request.domain tenants ≡ none
    → create_tenant all_work id request tenants ≡ (
      record (new_tenant id request) { metadata = some [] } ∷ tenants,
      ok (new_tenant id request),
    )
unfolding create_tenant validate_create_tenant_request get_tenant_by_domain new_tenant
create_tenant-new id request tenants (named, domained, planned) new free =
    rw (named, domained, planned, free, create_free (new_tenant id request) tenants new free)
      (configure_first (new_tenant id request) tenants)

-- Creating a tenant by a complete request, under a domain and an identifier that are free and with no
-- query that fails, returns the tenant that was asked for. What is stored is that tenant without its metadata, and
-- its features are those that GetConfig gives to the plan, not the defaults of CreateTenant.
pub create_tenant_lem :
    (id : String) (request : CreateTenantRequest) (tenants : Tenants)
    → IsComplete request
    → find_tenant id tenants ≡ none
    → find_by_domain request.domain tenants ≡ none
    → ((create_tenant all_work id request tenants).1 ≡ ok (new_tenant id request))
      × (find_tenant id (create_tenant all_work id request tenants).0
          ≡ some (record (new_tenant id request) { metadata = some [] }))
      × (get_tenant_features false id (create_tenant all_work id request tenants).0
          ≡ ok (repository_features request.plan))
unfolding find_tenant get_tenant_features get_config get_tenant new_tenant
create_tenant_lem id request tenants complete new free =
    rw (create_tenant-new id request tenants complete new free)
      (rw ((eq_iff id id).1 refl) (refl, refl, refl))

is_ok {ℓ} : {A : Type ℓ} → Result A → Bool
is_ok (ok a) = true
is_ok (err e) = false

-- Whether the call returns without an error.
unfoldable pub succeeds : TenantCall → Tenants → Bool
unfolding is_ok
succeeds (create faults id request) tenants = is_ok (create_tenant faults id request tenants).1
succeeds (update read_fault fault id request) tenants =
    is_ok (update_tenant read_fault fault id request tenants).1
succeeds (delete fault id) tenants = is_ok (delete_tenant fault id tenants).1
succeeds (configure_tenant faults id change) tenants =
    is_ok (update_part faults id change tenants).1

update_config-failed :
    (read_fault fault : Bool) (config : TenantConfig) (tenants : Tenants)
    → is_ok (answer (update_config read_fault fault config tenants)).1 ≡ false
    → (answer (update_config read_fault fault config tenants)).0 ≡ tenants
unfolding update_config get_tenant update_tenant_row is_ok
update_config-failed true fault config tenants h = refl
update_config-failed false fault config tenants h =
    elim (Option-cases (find_tenant config.tenant_id tenants)) [
      | inl absent ↦ rw absent refl
      | inr (t, found) ↦ rw found (ground (arith, rw found at h))
    ]

change_config-failed :
    (faults : ConfigFaults) (f : TenantConfig → TenantConfig) (id : String) (tenants : Tenants)
    → is_ok (change_config faults f id tenants).1 ≡ false
    → (change_config faults f id tenants).0 ≡ tenants
unfolding change_config
change_config-failed faults f id tenants h =
    elim (Option-cases (get_config faults.config id tenants)) [
      | inl absent ↦ rw absent refl
      | inr (config, found) ↦
          rw found
            (update_config-failed faults.read faults.update (f config) tenants (rw found at h))
    ]

reset-failed :
    (faults : ConfigFaults) (id : String) (tenants : Tenants)
    → is_ok (reset_tenant_config faults id tenants).1 ≡ false
    → (reset_tenant_config faults id tenants).0 ≡ tenants
unfolding reset_tenant_config
reset-failed faults id tenants h = elim (Option-cases (get_tenant faults.config id tenants)) [
  | inl absent ↦ rw absent refl
  | inr (t, found) ↦ rw found (
      update_config-failed faults.read faults.update (convert_tenant_config id t.settings t.plan)
        tenants (rw found at h))
]

update_part-failed :
    (faults : ConfigFaults) (id : String) (update : ConfigUpdate) (tenants : Tenants)
    → is_ok (update_part faults id update tenants).1 ≡ false
    → (update_part faults id update tenants).0 ≡ tenants
unfolding update_part update_tenant_config update_tenant_settings update_tenant_features
    update_tenant_quotas
update_part-failed faults id (set_config config) tenants h =
    update_config-failed faults.read faults.update (record config { tenant_id = id }) tenants h
update_part-failed faults id (set_settings settings) tenants h =
    change_config-failed faults _ id tenants h
update_part-failed faults id (set_features features) tenants h =
    change_config-failed faults _ id tenants h
update_part-failed faults id (set_quotas quotas) tenants h =
    change_config-failed faults _ id tenants h
update_part-failed faults id reset tenants h = reset-failed faults id tenants h

configure-failed :
    (faults : CreateFaults) (t : Tenant) (tenants : Tenants)
    → is_ok (configure faults t (create_tenant_row faults.create t tenants)).1 ≡ false
    → (configure faults t (create_tenant_row faults.create t tenants)).0 ≡ tenants
unfolding configure create_tenant_row is_ok
configure-failed faults t tenants h =
    elim (Bool-cases (
      not faults.create
      && is_none (find_tenant t.id tenants)
      && is_none (find_by_domain t.domain tenants))) [
        | inl made ↦ cc (rw made at h)
        | inr refused ↦ rw refused refl
      ]

create-failed :
    (faults : CreateFaults) (id : String) (request : CreateTenantRequest) (tenants : Tenants)
    → is_ok (create_tenant faults id request tenants).1 ≡ false
    → (create_tenant faults id request tenants).0 ≡ tenants
unfolding create_tenant
create-failed faults id request tenants h =
    elim (Option-cases (validate_create_tenant_request request)) [
      | inl valid ↦
          elim (Option-cases (get_tenant_by_domain faults.lookup request.domain tenants)) [
            | inl free ↦
                rw (valid, free)
                  (configure-failed faults (new_tenant id request) tenants (rw (valid, free) at h))
            | inr (existing, taken) ↦ rw (valid, taken) refl
          ]
      | inr (e, invalid) ↦ rw invalid refl
    ]

update_tenant-failed :
    (read_fault fault : Bool) (id : String) (request : UpdateTenantRequest) (tenants : Tenants)
    → is_ok (update_tenant read_fault fault id request tenants).1 ≡ false
    → (update_tenant read_fault fault id request tenants).0 ≡ tenants
unfolding update_tenant update_tenant_found update_tenant_row is_ok
update_tenant-failed read_fault true id request tenants h =
    elim (Option-cases (get_tenant read_fault id tenants)) [
      | inl absent ↦ rw absent refl
      | inr (t, found) ↦ rw found refl
    ]
update_tenant-failed read_fault false id request tenants h =
    elim (Option-cases (get_tenant read_fault id tenants)) [
      | inl absent ↦ rw absent refl
      | inr (t, found) ↦ cc (rw found at h)
    ]

-- A call that returns an error leaves the table as it was, at whichever query it failed.
pub failed_call_changes_nothing :
    (call : TenantCall) (tenants : Tenants)
    → succeeds call tenants ≡ false
    → serve call tenants ≡ tenants
unfolding succeeds serve delete_tenant delete_tenant_row is_ok
failed_call_changes_nothing (create faults id request) tenants h =
    create-failed faults id request tenants h
failed_call_changes_nothing (update read_fault fault id request) tenants h =
    update_tenant-failed read_fault fault id request tenants h
failed_call_changes_nothing (delete true id) tenants h = refl
failed_call_changes_nothing (delete false id) tenants h = cc
failed_call_changes_nothing (configure_tenant faults id change) tenants h =
    update_part-failed faults id change tenants h
