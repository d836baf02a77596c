-- ===== src/Payments/Webhook.antt =====
-- apps/api-server/internal/payment/webhook.go and webhook_handlers.go: the events that Stripe sends. A panic
-- is an outcome, which the server answers by 500. What validates the signature and parses the body is an
-- argument: `none` for an error. Texts for people are left out.
use text.Mathlib.Text.{◌==◌ as str_eq}
use telecom_platform.Base.{ℕ, ℤ, Bool, true, false, Option, none, some, ◌∷◌, String, if◌then◌else◌}
use telecom_platform.Payments.{
  Transaction, Ledger, or_fault, get_subscriber, get_transaction, save_transaction,
  update_subscriber_balance,
}
use telecom_platform.Payments.Json.{Fields, get, as_object, as_text, as_int64}

pub record WebhookEvent : Type 0 where
  pub type : String
  pub body : Fields

pub data Handled : Type 0 where
  done failed panicked : Handled

pub record WebhookFaults : Type 0 where
  pub get : Bool
  pub update : Bool
  pub balance : Bool
  pub subscriber : Bool
  pub notify : Bool
  pub alert : Bool

unfoldable pub update_transaction : Transaction → Ledger → Ledger
update_transaction t ledger = record ledger {
  transactions = save_transaction t ledger.transactions;
}

abbrev is_some {ℓ} : {A : Type ℓ} → Option A → Bool
is_some none = false
is_some (some a) = true

-- An error of it is only logged.
send_top_up_notification : WebhookFaults → ℕ → Ledger → Ledger
send_top_up_notification faults subscriber ledger =
    if is_some (or_fault faults.subscriber (get_subscriber subscriber ledger.subscribers))
    then if faults.notify then ledger else record ledger {
      notifications =
          record {
            subscriber_id = subscriber;
            type = "PAYMENT_SUCCESS";
            heading = "Top-up Successful";
          }
          ∷ ledger.notifications;
    }
    else ledger

credit_top_up : WebhookFaults → Transaction → ℤ → Ledger → Ledger × Handled
unfolding send_top_up_notification
credit_top_up faults t amount ledger =
    if str_eq t.type "TOP_UP"
    then if faults.balance then (ledger, failed) else (
      send_top_up_notification faults t.subscriber_id
          (update_subscriber_balance t.subscriber_id amount ledger),
      done,
    )
    else (ledger, done)

complete : WebhookFaults → ℤ → Option Transaction → Ledger → Ledger × Handled
unfolding credit_top_up
complete faults amount none ledger = (ledger, failed)
complete faults amount (some t) ledger =
    if faults.update
    then (ledger, failed)
    else credit_top_up faults t amount
        (update_transaction (record t { status = "COMPLETED" }) ledger)

-- Both assertions panic where they fail.
amount_and_currency : WebhookFaults → String → Option ℤ → Option String → Ledger → Ledger × Handled
unfolding complete
amount_and_currency faults id none currency ledger = (ledger, panicked)
amount_and_currency faults id (some amount) none ledger = (ledger, panicked)
amount_and_currency faults id (some amount) (some currency) ledger =
    complete faults amount (or_fault faults.get (get_transaction id ledger.transactions)) ledger

identified : (String → Ledger → Ledger × Handled) → Option String → Ledger → Ledger × Handled
identified f none ledger = (ledger, failed)
identified f (some id) ledger = f id ledger

-- The intent is the object of the event, and must have an identifier.
with_id :
    (Fields → String → Ledger → Ledger × Handled)
    → String
    → Option Fields
    → Ledger
    → Ledger × Handled
unfolding identified
with_id f key none ledger = (ledger, failed)
with_id f key (some intent) ledger = identified (f intent) (as_text (get key intent)) ledger

unfoldable pub handle_payment_succeeded : WebhookFaults → Fields → Ledger → Ledger × Handled
unfolding with_id amount_and_currency
handle_payment_succeeded faults body ledger =
    with_id
      (λ intent id l.
        amount_and_currency faults id (as_int64 (get "amount" intent))
          (as_text (get "currency" intent)) l)
      "id" (as_object (get "object" body)) ledger

alert_about : Bool → ℕ → String → Ledger → Ledger
alert_about fault subscriber severity ledger = if fault then ledger else record ledger {
  alerts =
      record { subscriber_id = subscriber; type = "PAYMENT_FAILED"; heading = severity }
      ∷ ledger.alerts;
}

fail_payment : WebhookFaults → Option Transaction → Ledger → Ledger × Handled
unfolding alert_about
fail_payment faults none ledger = (ledger, failed)
fail_payment faults (some t) ledger = if faults.update then (ledger, failed) else (
  alert_about faults.alert t.subscriber_id "medium"
      (update_transaction (record t { status = "FAILED" }) ledger),
  done,
)

unfoldable pub handle_payment_failed : WebhookFaults → Fields → Ledger → Ledger × Handled
unfolding with_id fail_payment
handle_payment_failed faults body ledger =
    with_id
      (λ intent id l.
        fail_payment faults (or_fault faults.get (get_transaction id l.transactions)) l)
      "id" (as_object (get "object" body)) ledger

cancel_payment : WebhookFaults → Option Transaction → Ledger → Ledger × Handled
cancel_payment faults none ledger = (ledger, failed)
cancel_payment faults (some t) ledger =
    if faults.update
    then (ledger, failed)
    else (update_transaction (record t { status = "CANCELLED" }) ledger, done)

unfoldable pub handle_payment_canceled : WebhookFaults → Fields → Ledger → Ledger × Handled
unfolding with_id cancel_payment
handle_payment_canceled faults body ledger =
    with_id
      (λ intent id l.
        cancel_payment faults (or_fault faults.get (get_transaction id l.transactions)) l)
      "id" (as_object (get "object" body)) ledger

-- The amount of the dispute is asserted before the transaction is looked up.
dispute : WebhookFaults → Option ℤ → Option Transaction → Ledger → Ledger × Handled
unfolding alert_about
dispute faults none found ledger = (ledger, panicked)
dispute faults (some amount) none ledger = (ledger, failed)
dispute faults (some amount) (some t) ledger =
    if faults.alert
    then (ledger, failed)
    else (alert_about false t.subscriber_id "high" ledger, done)

unfoldable pub handle_dispute_created : WebhookFaults → Fields → Ledger → Ledger × Handled
unfolding with_id dispute
handle_dispute_created faults body ledger =
    with_id
      (λ object id l.
        dispute faults (as_int64 (get "amount" object))
          (or_fault faults.get (get_transaction id l.transactions)) l)
      "charge" (as_object (get "object" body)) ledger

unfoldable pub dispatch : WebhookFaults → WebhookEvent → Ledger → Ledger × Handled
dispatch faults event ledger =
    if str_eq event.type "payment_intent.succeeded"
    then handle_payment_succeeded faults event.body ledger
    else if str_eq event.type "payment_intent.payment_failed"
    then handle_payment_failed faults event.body ledger
    else if str_eq event.type "payment_intent.canceled"
    then handle_payment_canceled faults event.body ledger
    else if str_eq event.type "charge.dispute.created"
    then handle_dispute_created faults event.body ledger
    else (ledger, done)

unfoldable pub status_of : Ledger × Handled → Ledger × ℕ
status_of (ledger, done) = (ledger, 200)
status_of (ledger, failed) = (ledger, 500)
status_of (ledger, panicked) = (ledger, 500)

parsed : WebhookFaults → Option WebhookEvent → Ledger → Ledger × ℕ
unfolding status_of
parsed faults none ledger = (ledger, 400)
parsed faults (some event) ledger = status_of (dispatch faults event ledger)

validated : WebhookFaults → Option Bool → Option WebhookEvent → Ledger → Ledger × ℕ
unfolding parsed
validated faults none event ledger = (ledger, 400)
validated faults (some false) event ledger = (ledger, 401)
validated faults (some true) event ledger = parsed faults event ledger

-- `readable` says whether the body could be read.
unfoldable pub handle_stripe_webhook :
    WebhookFaults → Bool → String → Option Bool → Option WebhookEvent → Ledger → Ledger × ℕ
unfolding validated
handle_stripe_webhook faults readable signature valid event ledger =
    if readable
    then if str_eq signature "" then (ledger, 400) else validated faults valid event ledger
    else (ledger, 400)
