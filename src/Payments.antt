-- ===== src/Payments.antt =====
-- apps/api-server/internal/payment: top-ups (gateway_service.go), refunds (controller_refund.go), the status
-- of gateway_stripe_helpers.go, and in Webhook the events that Stripe sends. Amounts of money, float64 in
-- the source, are integers of hundredths, with no rounding. What Stripe answers to a request is an argument, the
-- identifier and the status of the new object, `none` for an error; so is the new row's identifier. A query that
-- fails is a Boolean argument. An answer is its HTTP status. Dates are left out.
pub mod Json
pub mod Webhook
pub mod Balance
pub mod Accounts
pub mod Refunds
pub mod Events
mod Examples
use text.Mathlib.Text.{◌==◌ as str_eq}
use telecom_platform.Base.{
  ℕ, ℤ, pos, ◌+ℤ◌, ◌-ℤ◌, ltb_ℤ, Bool, true, false, not, ◌&&◌, ◌||◌, Option, none, some, List, [],
  ◌∷◌, ◌++◌, String, ◌==◌, if◌then◌else◌,
}

pub record Transaction : Type 0 where
  pub id : ℕ
  pub subscriber_id : ℕ
  pub transaction_id : String
  pub type : String
  pub amount : ℤ
  pub currency : String
  pub status : String
  pub parent_id : Option ℕ

pub record Subscriber : Type 0 where
  pub id : ℕ
  pub balance : ℤ

-- An alert, or a notification, about a subscriber: its type and its severity or title.
pub record Message : Type 0 where
  pub subscriber_id : ℕ
  pub type : String
  pub heading : String

-- Rows in the order in which `First` finds them.
pub record Ledger : Type 0 where
  pub transactions : List Transaction
  pub subscribers : List Subscriber
  pub alerts : List Message
  pub notifications : List Message

unfoldable pub get_subscriber : ℕ → List Subscriber → Option Subscriber
get_subscriber id [] = none
get_subscriber id (s ∷ subscribers) = if s.id == id then some s else get_subscriber id subscribers

-- GetTransaction, GetTransactionByGatewayID and GetTransactionByChargeID are the same query.
unfoldable pub get_transaction : String → List Transaction → Option Transaction
get_transaction id [] = none
get_transaction id (t ∷ transactions) =
    if str_eq t.transaction_id id then some t else get_transaction id transactions

abbrev pub or_fault {ℓ} : {A : Type ℓ} → Bool → Option A → Option A
or_fault fault found = if fault then none else found

-- `Create`, whose row has the largest identifier.
unfoldable pub create_transaction : Transaction → Ledger → Ledger
create_transaction t ledger = record ledger { transactions = ledger.transactions ++ t ∷ [] }

unfoldable pub save_transaction : Transaction → List Transaction → List Transaction
save_transaction t [] = t ∷ []
save_transaction t (u ∷ transactions) =
    if u.id == t.id then t ∷ transactions else u ∷ save_transaction t transactions

unfoldable pub add_balance : ℕ → ℤ → List Subscriber → List Subscriber
add_balance id amount [] = []
add_balance id amount (s ∷ subscribers) =
    (if s.id == id then record s { balance = s.balance +ℤ amount } else s)
    ∷ add_balance id amount subscribers

unfoldable pub update_subscriber_balance : ℕ → ℤ → Ledger → Ledger
unfolding add_balance
update_subscriber_balance id amount ledger = record ledger {
  subscribers = add_balance id amount ledger.subscribers;
}

unfoldable pub map_stripe_status : String → String
map_stripe_status status =
    if str_eq status "requires_payment_method"
      || str_eq status "requires_confirmation"
      || str_eq status "requires_action"
    then "PENDING"
    else if str_eq status "processing"
    then "PROCESSING"
    else if str_eq status "succeeded"
    then "COMPLETED"
    else if str_eq status "canceled"
    then "CANCELLED"
    else "FAILED"

-- What Stripe answers: an identifier and a status.
abbrev pub Stripe : Type 0
Stripe = Option (String × String)

pub data TopUpError : Type 0 where
  no_subscriber payment_failed save_failed balance_failed : TopUpError

pub data Result {ℓ} (A : Type ℓ) : Type ℓ where
  ok : A → Result A
  err : TopUpError → Result A

pub record TopUpFaults : Type 0 where
  pub get : Bool
  pub create : Bool
  pub balance : Bool

credit_if_completed : TopUpFaults → Transaction → Ledger → Ledger × Result Transaction
credit_if_completed faults t ledger =
    if str_eq t.status "COMPLETED"
    then if faults.balance
      then (ledger, err balance_failed)
      else (update_subscriber_balance t.subscriber_id t.amount ledger, ok t)
    else (ledger, ok t)

unfoldable pub record_top_up : TopUpFaults → Transaction → Ledger → Ledger × Result Transaction
unfolding credit_if_completed
record_top_up faults t ledger =
    if faults.create
    then (ledger, err save_failed)
    else credit_if_completed faults t (create_transaction t ledger)

unfoldable pub top_up : ℕ → ℕ → ℤ → String → String → Transaction
unfolding map_stripe_status
top_up row subscriber amount id status = record {
  id = row;
  subscriber_id = subscriber;
  transaction_id = id;
  type = "TOP_UP";
  amount = amount;
  currency = "USD";
  status = map_stripe_status status;
  parent_id = none;
}

unfoldable pub top_up_found :
    TopUpFaults → ℕ → ℕ → ℤ → Stripe → Option Subscriber → Ledger → Ledger × Result Transaction
unfolding record_top_up
top_up_found faults row subscriber amount answer none ledger = (ledger, err no_subscriber)
top_up_found faults row subscriber amount none (some s) ledger = (ledger, err payment_failed)
top_up_found faults row subscriber amount (some (id, status)) (some s) ledger =
    record_top_up faults (top_up row subscriber amount id status) ledger

unfoldable pub process_top_up :
    TopUpFaults → ℕ → ℕ → ℤ → Stripe → Ledger → Ledger × Result Transaction
unfolding top_up_found
process_top_up faults row subscriber amount answer ledger =
    top_up_found faults row subscriber amount answer
      (or_fault faults.get (get_subscriber subscriber ledger.subscribers)) ledger

pub record RefundFaults : Type 0 where
  pub get : Bool
  pub create : Bool
  pub balance : Bool

unfoldable pub refund_of : ℕ → ℤ → String → String → Transaction → Transaction
unfolding map_stripe_status
refund_of row amount id status t = record {
  id = row;
  subscriber_id = t.subscriber_id;
  transaction_id = id;
  type = "REFUND";
  amount = amount;
  currency = "USD";
  status = map_stripe_status status;
  parent_id = some t.id;
}

unfoldable pub record_refund : RefundFaults → Transaction → Ledger → Ledger × ℕ
record_refund faults refund ledger =
    if faults.create
    then (ledger, 500)
    else if faults.balance
    then (create_transaction refund ledger, 500)
    else (
      update_subscriber_balance refund.subscriber_id (pos 0 -ℤ refund.amount)
          (create_transaction refund ledger),
      200,
    )

unfoldable pub refund_paid : RefundFaults → ℕ → ℤ → Stripe → Transaction → Ledger → Ledger × ℕ
unfolding record_refund
refund_paid faults row amount none t ledger = (ledger, 500)
refund_paid faults row amount (some (id, status)) t ledger =
    record_refund faults (refund_of row amount id status t) ledger

unfoldable pub refund_found :
    RefundFaults → ℕ → ℕ → ℤ → Stripe → Option Transaction → Ledger → Ledger × ℕ
unfolding refund_paid
refund_found faults row subscriber amount answer none ledger = (ledger, 404)
refund_found faults row subscriber amount answer (some t) ledger =
    if not (t.subscriber_id == subscriber)
    then (ledger, 403)
    else if not (str_eq t.status "COMPLETED")
    then (ledger, 400)
    else refund_paid faults row amount answer t ledger

-- An amount below 0.01 is not bound. `subscriber` is 0 where there is no user.
unfoldable pub refund_transaction : RefundFaults → ℕ → ℕ → String → ℤ → Stripe → Ledger → Ledger × ℕ
unfolding refund_found
refund_transaction faults row subscriber id amount answer ledger =
    if str_eq id ""
    then (ledger, 400)
    else if ltb_ℤ amount (pos 1)
    then (ledger, 400)
    else if subscriber == 0
    then (ledger, 401)
    else refund_found faults row subscriber amount answer
        (or_fault faults.get (get_transaction id ledger.transactions)) ledger

top_up_status : Ledger × Result Transaction → Ledger × ℕ
top_up_status (ledger, ok t) = (ledger, 200)
top_up_status (ledger, err e) = (ledger, 500)

-- The handler of ProcessTopUp in controller.go.
unfoldable pub process_top_up_request :
    TopUpFaults → ℕ → ℕ → ℤ → String → Stripe → Ledger → Ledger × ℕ
unfolding top_up_status
process_top_up_request faults row subscriber amount method answer ledger =
    if ltb_ℤ amount (pos 1) || str_eq method ""
    then (ledger, 400)
    else if subscriber == 0
    then (ledger, 401)
    else top_up_status (process_top_up faults row subscriber amount answer ledger)
