-- ===== src/Payments/Balance.antt =====
-- apps/api-server/internal/payment/gateway_service.go and controller_refund.go: balances and transactions.
use text.Mathlib.Text.{◌==◌ as str_eq}
use telecom_platform.Base.{
  ℕ, ℤ, pos, ◌+ℤ◌, ◌-ℤ◌, int_laws, +ℤ_zero, zero-+ℤ, +ℤ_assoc, ◌≡◌, ◌≢◌, refl, inl, inr, Bool,
  false, none, List, [], ◌∷◌, ◌++◌, String, arith, ◌==◌, if◌then◌else◌, Bool-cases,
}
use telecom_platform.Payments.{
  Transaction, Subscriber, Ledger, get_subscriber, add_balance, update_subscriber_balance,
  create_transaction, map_stripe_status, TopUpFaults, process_top_up, Stripe, record_top_up,
  record_refund, top_up, RefundFaults, refund_of, refund_transaction,
}

abbrev pub balance_of : ℕ → List Subscriber → ℤ
balance_of id [] = pos 0
balance_of id (s ∷ subscribers) = if s.id == id then s.balance else balance_of id subscribers

-- What a transaction moves: a completed top-up adds its amount, and a refund takes it, whatever its status.
abbrev pub moved : ℕ → Transaction → ℤ
moved id t =
    if t.subscriber_id == id
    then if str_eq t.type "REFUND"
      then pos 0 -ℤ t.amount
      else if str_eq t.status "COMPLETED"
      then t.amount
      else pos 0
    else pos 0

abbrev pub net : ℕ → List Transaction → ℤ
net id [] = pos 0
net id (t ∷ transactions) = moved id t +ℤ net id transactions

net-append : (id : ℕ) (ts us : List Transaction) → net id (ts ++ us) ≡ net id ts +ℤ net id us
net-append id [] us = rw (zero-+ℤ (net id us)) refl
net-append id (t ∷ ts) us =
    rw (net-append id ts us) (rw (+ℤ_assoc (moved id t) (net id ts) (net id us)) refl)

pub balance-add :
    (id k : ℕ) (amount : ℤ) (subscribers : List Subscriber)
    → get_subscriber id subscribers ≢ none
    → balance_of id (add_balance k amount subscribers)
      ≡ balance_of id subscribers +ℤ (if k == id then amount else pos 0)
unfolding get_subscriber add_balance
balance-add id k amount [] h = absurd (h refl)
balance-add id k amount (u ∷ subscribers) h =
    ground (arith, +ℤ_zero u.balance, balance-add id k amount subscribers)

pub known-add :
    (id k : ℕ) (amount : ℤ) (subscribers : List Subscriber)
    → get_subscriber id subscribers ≢ none
    → get_subscriber id (add_balance k amount subscribers) ≢ none
unfolding get_subscriber add_balance
known-add id k amount [] h = h
known-add id k amount (u ∷ subscribers) h = λ e. ground (arith, known-add id k amount subscribers)

-- The balance and the transactions of a subscriber have moved by the same amount.
abbrev pub Agree : ℕ → Ledger → Ledger → Type 0
Agree id before after =
    balance_of id after.subscribers +ℤ net id before.transactions
    ≡ balance_of id before.subscribers +ℤ net id after.transactions

-- The subscriber is still there, too.
abbrev pub Step : ℕ → Ledger → Ledger → Type 0
Step id before after = Agree id before after × (get_subscriber id after.subscribers ≢ none)

created-Step :
    (id k : ℕ) (amount : ℤ) (t : Transaction) (ledger : Ledger)
    → get_subscriber id ledger.subscribers ≢ none
    → moved id t ≡ (if k == id then amount else pos 0)
    → Step id ledger (update_subscriber_balance k amount (create_transaction t ledger))
unfolding update_subscriber_balance create_transaction
created-Step id k amount t ledger known m = (
  rw
      (
        balance-add id k amount ledger.subscribers known,
        net-append id ledger.transactions (t ∷ []),
        ← m,
      )
      (omega int_laws),
  known-add id k amount ledger.subscribers known,
)

unmoved-Step :
    (id : ℕ) (t : Transaction) (ledger : Ledger)
    → get_subscriber id ledger.subscribers ≢ none
    → moved id t ≡ pos 0
    → Step id ledger (create_transaction t ledger)
unfolding create_transaction
unmoved-Step id t ledger known m =
    (rw (net-append id ledger.transactions (t ∷ []), m) (omega int_laws), known)

-- A top-up by a subscriber, or a refund, with whether the two queries fail that come before the balance.
pub data PaymentCall : Type 0 where
  top_up_call : Bool → Bool → ℕ → ℕ → ℤ → Stripe → PaymentCall
  refund_call : Bool → Bool → ℕ → ℕ → String → ℤ → Stripe → PaymentCall

unfoldable pub pay : PaymentCall → Ledger → Ledger
pay (top_up_call get create row subscriber amount answer) ledger =
    (process_top_up (record { get = get; create = create; balance = false }) row subscriber amount
      answer ledger).0
pay (refund_call get create row subscriber id amount answer) ledger =
    (refund_transaction (record { get = get; create = create; balance = false }) row subscriber id
      amount answer ledger).0

unfoldable pub pay_all : List PaymentCall → Ledger → Ledger
pay_all [] ledger = ledger
pay_all (call ∷ calls) ledger = pay_all calls (pay call ledger)

pub top_up-Step :
    (who : ℕ) (faults : TopUpFaults) (row k : ℕ) (amount : ℤ) (id status : String) (ledger : Ledger)
    → faults.balance ≡ false
    → get_subscriber who ledger.subscribers ≢ none
    → Step who ledger (record_top_up faults (top_up row k amount id status) ledger).0
unfolding record_top_up top_up
top_up-Step who faults row k amount id status ledger works known = elim (Bool-cases faults.create) [
  | inl fails ↦ rw fails (refl, known)
  | inr created ↦ elim (Bool-cases (str_eq (map_stripe_status status) "COMPLETED")) [
    | inl completed ↦
        rw (created, completed, works)
          (created-Step who k amount (top_up row k amount id status) ledger known
            (rw completed refl))
    | inr pending ↦
        rw (created, pending)
          (unmoved-Step who (top_up row k amount id status) ledger known
            (rw pending (ground arith)))
  ]
]

pub refund-Step :
    (who : ℕ) (faults : RefundFaults) (row : ℕ) (amount : ℤ) (id status : String) (t : Transaction)
    (ledger : Ledger)
    → faults.balance ≡ false
    → get_subscriber who ledger.subscribers ≢ none
    → Step who ledger (record_refund faults (refund_of row amount id status t) ledger).0
unfolding record_refund refund_of
refund-Step who faults row amount id status t ledger works known = elim (Bool-cases faults.create) [
  | inl fails ↦ rw fails (refl, known)
  | inr created ↦
      rw (created, works)
        (created-Step who t.subscriber_id (pos 0 -ℤ amount) (refund_of row amount id status t)
          ledger known refl)
]
