-- ===== src/Payments/Examples.antt =====
-- Witnesses and tests for apps/api-server/internal/payment.
use text.Mathlib.TextEquality.{eq_iff}
use telecom_platform.Base.{
  pos, negsuc, ◌+ℤ◌, ◌-ℤ◌, ◌≡◌, refl, true, false, none, some, List, [], ◌∷◌,
}
use telecom_platform.Payments.{
  Transaction, Ledger, TopUpFaults, process_top_up, get_transaction, refund_transaction, refund_of,
  add_balance, update_subscriber_balance, create_transaction, refund_found, refund_paid,
  record_refund,
}
use telecom_platform.Payments.Json.{Fields, Json, field, end, get, as_object, as_text, as_int64}
use telecom_platform.Payments.Webhook.{WebhookFaults, dispatch, panicked, handle_payment_succeeded}
use telecom_platform.Payments.Events.{
  Ignored, WebhookRequest, receive_all, success_is_never_recorded, pending_top_up_is_never_credited,
}
use telecom_platform.Payments.Balance.{balance_of}
use telecom_platform.Payments.Refunds.{Refund, all_work, refund_all, refund_guarded}

abbrev paid : Transaction
paid = record {
  id = 1;
  subscriber_id = 7;
  transaction_id = "pi_1";
  type = "TOP_UP";
  amount = pos 1000;
  currency = "USD";
  status = "COMPLETED";
  parent_id = none;
}

abbrev ledger : Ledger
ledger = record {
  transactions = paid ∷ [];
  subscribers = record { id = 7; balance = pos 1000 } ∷ [];
  alerts = [];
  notifications = [];
}

abbrev no_faults : WebhookFaults
no_faults = record {
  get = false;
  update = false;
  balance = false;
  subscriber = false;
  notify = false;
  alert = false;
}

abbrev body : Fields
body =
    field "object"
      (Json.object (
        field "id" (Json.str "pi_1")
          (field "amount" (Json.float "1000") (field "currency" (Json.str "usd") end))))
      end

success_is_never_recorded_example :
    Ignored ledger
      (dispatch no_faults (record { type = "payment_intent.succeeded"; body = body }) ledger)
success_is_never_recorded_example = (success_is_never_recorded no_faults body ledger).0

abbrev request : WebhookRequest
request = record {
  faults = no_faults;
  readable = true;
  signature = "t=1,v1=ab";
  valid = some true;
  event = some (record { type = "payment_intent.succeeded"; body = body });
}

abbrev working : TopUpFaults
working = record { get = false; create = false; balance = false }

pending_top_up_is_never_credited_example :
    (receive_all
      (request ∷ [])
      (process_top_up working 2 7
        (pos 500)
        (some ("pi_2", "requires_action"))
        ledger).0).subscribers
    ≡ ledger.subscribers
pending_top_up_is_never_credited_example =
    pending_top_up_is_never_credited working 2 7 (pos 500) "pi_2" "requires_action" (request ∷ [])
      ledger (λ e. cc ((eq_iff "requires_action" "succeeded").1 e))

refund_guarded_example :
    (t : Transaction) × (get_transaction "pi_1" ledger.transactions ≡ some t)
    × (t.subscriber_id ≡ 7)
    × (t.status ≡ "COMPLETED")
unfolding refund_transaction get_transaction refund_found refund_paid record_refund
refund_guarded_example =
    (refund_guarded all_work 2 7 "pi_1" (pos 300) (some ("re_1", "succeeded")) ledger refl).2

abbrev refunds : List Refund
refunds =
    record { row = 2; amount = pos 800; id = "re_1"; status = "succeeded" }
    ∷ record { row = 3; amount = pos 800; id = "re_2"; status = "failed" }
    ∷ []

overdrawn : balance_of 7 (refund_all 7 "pi_1" refunds ledger).0.subscribers ≡ negsuc 599
unfolding refund_all refund_transaction get_transaction refund_found refund_paid record_refund
    refund_of update_subscriber_balance add_balance create_transaction ◌+ℤ◌ ◌-ℤ◌
overdrawn = refl

success_panics : (handle_payment_succeeded no_faults body ledger).1 ≡ panicked
unfolding handle_payment_succeeded get as_object as_text as_int64
success_panics = refl
