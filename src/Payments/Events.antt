-- ===== src/Payments/Events.antt =====
-- apps/api-server/internal/payment/webhook.go and webhook_handlers.go: what an event can change.
use text.Mathlib.Text.{◌==◌ as str_eq}
use text.Mathlib.TextEquality.{eq_iff}
use telecom_platform.Base.{
  ℕ, ℤ, ◌≡◌, ◌≢◌, refl, ◌∙◌, inl, inr, Bool, true, false, Option, none, some, List, [], ◌∷◌, String,
  arith, if◌then◌else◌, Bool-cases, Option-cases,
}
use telecom_platform.Payments.{
  Ledger, or_fault, get_subscriber, get_transaction, map_stripe_status, TopUpFaults, process_top_up,
  create_transaction, top_up,
}
use telecom_platform.Payments.Json.{Fields, Json, get, as_object, as_text, as_int64}
use telecom_platform.Payments.Webhook.{
  WebhookEvent, Handled, done, failed, panicked, WebhookFaults, handle_payment_succeeded,
  handle_payment_failed, handle_payment_canceled, handle_dispute_created, update_transaction,
  dispatch, status_of, handle_stripe_webhook,
}

no_int64 : (value : Option Json) → as_int64 value ≡ none
unfolding as_int64
no_int64 none = refl
no_int64 (some Json.null) = refl
no_int64 (some (Json.boolean b)) = refl
no_int64 (some (Json.float x)) = refl
no_int64 (some (Json.str s)) = refl
no_int64 (some (Json.array items)) = refl
no_int64 (some (Json.object fields)) = refl

abbrev pub Ignored : Ledger → Ledger × Handled → Type 0
Ignored ledger result = (result.0 ≡ ledger) × (result.1 ≢ done)

succeeded-Ignored :
    (faults : WebhookFaults) (body : Fields) (ledger : Ledger)
    → Ignored ledger (handle_payment_succeeded faults body ledger)
unfolding handle_payment_succeeded
succeeded-Ignored faults body ledger = elim (Option-cases (as_object (get "object" body))) [
  | inl absent ↦ rw absent (refl, λ e. cc)
  | inr (intent, found) ↦ elim (Option-cases (as_text (get "id" intent))) [
    | inl anonymous ↦ rw (found, anonymous) (refl, λ e. cc)
    | inr (id, named) ↦ rw (found, named, no_int64 (get "amount" intent)) (refl, λ e. cc)
  ]
]

dispute-Ignored :
    (faults : WebhookFaults) (body : Fields) (ledger : Ledger)
    → Ignored ledger (handle_dispute_created faults body ledger)
unfolding handle_dispute_created
dispute-Ignored faults body ledger = elim (Option-cases (as_object (get "object" body))) [
  | inl absent ↦ rw absent (refl, λ e. cc)
  | inr (object, found) ↦ elim (Option-cases (as_text (get "charge" object))) [
    | inl anonymous ↦ rw (found, anonymous) (refl, λ e. cc)
    | inr (id, named) ↦ rw (found, named, no_int64 (get "amount" object)) (refl, λ e. cc)
  ]
]

-- An event that a payment has succeeded, or that a charge is disputed, is never handled: whatever its body and
-- whichever query fails, the handler fails or panics and the ledger stays as it was.
pub success_is_never_recorded :
    (faults : WebhookFaults) (body : Fields) (ledger : Ledger)
    → Ignored ledger
        (dispatch faults (record { type = "payment_intent.succeeded"; body = body }) ledger)
      × Ignored ledger
          (dispatch faults (record { type = "charge.dispute.created"; body = body }) ledger)
unfolding dispatch
success_is_never_recorded faults body ledger =
    (succeeded-Ignored faults body ledger, dispute-Ignored faults body ledger)

-- Fails where no `done` is reached; else the balances stay.
abbrev Keeps : Ledger → Ledger × Handled → Type 0
Keeps ledger result = result.0.subscribers ≡ ledger.subscribers

failed-Keeps :
    (faults : WebhookFaults) (body : Fields) (ledger : Ledger)
    → Keeps ledger (handle_payment_failed faults body ledger)
unfolding handle_payment_failed update_transaction
failed-Keeps faults body ledger = elim (Option-cases (as_object (get "object" body))) [
  | inl absent ↦ rw absent refl
  | inr (intent, found) ↦ elim (Option-cases (as_text (get "id" intent))) [
    | inl anonymous ↦ rw (found, anonymous) refl
    | inr (id, named) ↦
        elim (Option-cases (or_fault faults.get (get_transaction id ledger.transactions))) [
          | inl none_there ↦ rw (found, named, none_there) refl
          | inr (t, there) ↦ rw (found, named, there) (ground arith)
        ]
  ]
]

canceled-Keeps :
    (faults : WebhookFaults) (body : Fields) (ledger : Ledger)
    → Keeps ledger (handle_payment_canceled faults body ledger)
unfolding handle_payment_canceled update_transaction
canceled-Keeps faults body ledger = elim (Option-cases (as_object (get "object" body))) [
  | inl absent ↦ rw absent refl
  | inr (intent, found) ↦ elim (Option-cases (as_text (get "id" intent))) [
    | inl anonymous ↦ rw (found, anonymous) refl
    | inr (id, named) ↦
        elim (Option-cases (or_fault faults.get (get_transaction id ledger.transactions))) [
          | inl none_there ↦ rw (found, named, none_there) refl
          | inr (t, there) ↦ rw (found, named, there) (ground arith)
        ]
  ]
]

dispatch-Keeps :
    (faults : WebhookFaults) (event : WebhookEvent) (ledger : Ledger)
    → Keeps ledger (dispatch faults event ledger)
unfolding dispatch
dispatch-Keeps faults event ledger = ground (
  arith,
  (succeeded-Ignored faults event.body ledger).0,
  failed-Keeps faults event.body ledger,
  canceled-Keeps faults event.body ledger,
  (dispute-Ignored faults event.body ledger).0,
)

-- A request of the webhook, with what is valid in it and what fails.
pub record WebhookRequest : Type 0 where
  pub faults : WebhookFaults
  pub readable : Bool
  pub signature : String
  pub valid : Option Bool
  pub event : Option WebhookEvent

unfoldable pub receive : WebhookRequest → Ledger → Ledger
receive r ledger = (handle_stripe_webhook r.faults r.readable r.signature r.valid r.event ledger).0

unfoldable pub receive_all : List WebhookRequest → Ledger → Ledger
receive_all [] ledger = ledger
receive_all (r ∷ requests) ledger = receive_all requests (receive r ledger)

status_of-ledger : (result : Ledger × Handled) → (status_of result).0 ≡ result.0
unfolding status_of
status_of-ledger (ledger, done) = refl
status_of-ledger (ledger, failed) = refl
status_of-ledger (ledger, panicked) = refl

webhook-subscribers :
    (faults : WebhookFaults) (readable : Bool) (signature : String) (valid : Option Bool)
    (event : Option WebhookEvent) (ledger : Ledger)
    → (handle_stripe_webhook faults readable signature valid event ledger).0.subscribers
      ≡ ledger.subscribers
unfolding handle_stripe_webhook
webhook-subscribers faults false signature valid event ledger = refl
webhook-subscribers faults true signature none event ledger = ground arith
webhook-subscribers faults true signature (some false) event ledger = ground arith
webhook-subscribers faults true signature (some true) none ledger = ground arith
webhook-subscribers faults true signature (some true) (some event) ledger =
    elim (Bool-cases (str_eq signature "")) [
      | inl unsigned ↦ rw unsigned refl
      | inr signed ↦ rw signed (
          rw (status_of-ledger (dispatch faults event ledger)) (dispatch-Keeps faults event ledger))
    ]

receive-subscribers :
    (r : WebhookRequest) (ledger : Ledger) → (receive r ledger).subscribers ≡ ledger.subscribers
unfolding receive
receive-subscribers r ledger =
    webhook-subscribers r.faults r.readable r.signature r.valid r.event ledger

receive_all-subscribers :
    (requests : List WebhookRequest) (ledger : Ledger)
    → (receive_all requests ledger).subscribers ≡ ledger.subscribers
unfolding receive_all
receive_all-subscribers [] ledger = refl
receive_all-subscribers (r ∷ requests) ledger =
    receive_all-subscribers requests (receive r ledger) ∙ receive-subscribers r ledger

other_status :
    (pending processing canceled : Bool)
    → str_eq
        (if pending
          then "PENDING"
          else if processing
          then "PROCESSING"
          else if canceled
          then "CANCELLED"
          else "FAILED")
        "COMPLETED"
      ≡ false
other_status true processing canceled = refl
other_status false true canceled = refl
other_status false false true = refl
other_status false false false = refl

not_completed :
    (status : String) → status ≢ "succeeded" → str_eq (map_stripe_status status) "COMPLETED" ≡ false
unfolding map_stripe_status
not_completed status n = elim (Bool-cases (str_eq status "succeeded")) [
  | inl same ↦ absurd (n ((eq_iff status "succeeded").0 same))
  | inr differ ↦ rw differ (other_status _ _ _)
]

pending-subscribers :
    (faults : TopUpFaults) (row subscriber : ℕ) (amount : ℤ) (id status : String) (ledger : Ledger)
    → status ≢ "succeeded"
    → (process_top_up faults row subscriber amount (some (id, status)) ledger).0.subscribers
      ≡ ledger.subscribers
unfolding process_top_up create_transaction top_up
pending-subscribers faults row subscriber amount id status ledger n =
    elim (Option-cases (or_fault faults.get (get_subscriber subscriber ledger.subscribers))) [
      | inl absent ↦ rw absent refl
      | inr (s, found) ↦ rw (found, not_completed status n) (ground arith)
    ]

-- A top-up that Stripe has not completed at once is never credited: whatever the webhook receives after it,
-- in any order and whichever queries fail, every subscriber's balance is what it was before the top-up.
pub pending_top_up_is_never_credited :
    (faults : TopUpFaults) (row subscriber : ℕ) (amount : ℤ) (id status : String)
    (requests : List WebhookRequest) (ledger : Ledger)
    → status ≢ "succeeded"
    → (receive_all requests
        (process_top_up faults row subscriber amount (some (id, status)) ledger).0).subscribers
      ≡ ledger.subscribers
pending_top_up_is_never_credited faults row subscriber amount id status requests ledger n =
    receive_all-subscribers requests
      (process_top_up faults row subscriber amount (some (id, status)) ledger).0
    ∙ pending-subscribers faults row subscriber amount id status ledger n
