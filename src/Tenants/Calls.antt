-- ===== src/Tenants/Calls.antt =====
-- apps/carrier-connector/internal/services/tenant_core.go and tenant_config.go: every call on the tenants.
use telecom_platform.Base.{Bool, List, [], ◌∷◌, String}
use telecom_platform.Tenants.{Tenants}
use telecom_platform.Tenants.Service.{
  CreateFaults, CreateTenantRequest, UpdateTenantRequest, create_tenant, update_tenant,
  delete_tenant,
}
use telecom_platform.Tenants.Config.{ConfigFaults}
use telecom_platform.Tenants.Settings.{ConfigUpdate, update_part}

-- A call of the service that may write to the table.
pub data TenantCall : Type 0 where
  create : CreateFaults → String → CreateTenantRequest → TenantCall
  update : Bool → Bool → String → UpdateTenantRequest → TenantCall
  delete : Bool → String → TenantCall
  configure_tenant : ConfigFaults → String → ConfigUpdate → TenantCall

unfoldable pub serve : TenantCall → Tenants → Tenants
serve (create faults id request) tenants = (create_tenant faults id request tenants).0
serve (update read_fault fault id request) tenants =
    (update_tenant read_fault fault id request tenants).0
serve (delete fault id) tenants = (delete_tenant fault id tenants).0
serve (configure_tenant faults id change) tenants = (update_part faults id change tenants).0

unfoldable pub serve_all : List TenantCall → Tenants → Tenants
serve_all [] tenants = tenants
serve_all (call ∷ calls) tenants = serve_all calls (serve call tenants)
