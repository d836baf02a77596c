-- ===== src/Tenants/Checks.antt =====
-- apps/carrier-connector/internal/services/tenant_quota.go: when a check of a quota passes.
use telecom_platform.Tenants.{Tenants}
