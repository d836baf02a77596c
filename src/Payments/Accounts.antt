-- ===== src/Payments/Accounts.antt =====
-- apps/api-server/internal/payment/gateway_service.go and controller_refund.go: the accounts over many calls.
use text.Mathlib.Text.{◌==◌ as str_eq}
use telecom_platform.Base.{ℕ, ◌≢◌, none, ◌==◌}
use telecom_platform.Payments.{Ledger, get_subscriber}

abbrev pub Known : ℕ → Ledger → Type 0
Known who ledger = get_subscriber who ledger.subscribers ≢ none
