-- ===== src/Payments/Refunds.antt =====
-- apps/api-server/internal/payment/controller_refund.go: what a refund asks for, and what it does not.
use text.Mathlib.Text.{◌==◌ as str_eq}
use text.Mathlib.TextEquality.{eq_iff}
use telecom_platform.Base.{
  ℕ, ℤ, pos, ◌+ℤ◌, ◌≤ℤ◌, ltb_ℤ, ◌≡◌, ◌≢◌, refl, inl, inr, false, Option, none, some, List, [], ◌∷◌,
  String, arith, ◌==◌, Bool-cases, All,
}
use telecom_platform.Payments.{
  Transaction, Ledger, or_fault, get_transaction, refund_found, Stripe, RefundFaults,
  refund_transaction,
}

found_owned :
    (faults : RefundFaults) (row k : ℕ) (amount : ℤ) (answer : Stripe) (found : Option Transaction)
    (ledger : Ledger)
    → (refund_found faults row k amount answer found ledger).1 ≡ 200
    → (t : Transaction) × (found ≡ some t) × (t.subscriber_id ≡ k) × (t.status ≡ "COMPLETED")
unfolding refund_found
found_owned faults row k amount answer none ledger h = absurd (omega arith)
found_owned faults row k amount answer (some t) ledger h =
    (t, refl, ground arith, ground (arith, eq_iff t.status "COMPLETED"))

-- A refund that is answered by 200 is of an amount of 0.01 or more and of a completed transaction of the
-- subscriber that asks for it.
pub refund_guarded :
    (faults : RefundFaults) (row k : ℕ) (id : String) (amount : ℤ) (answer : Stripe)
    (ledger : Ledger)
    → (refund_transaction faults row k id amount answer ledger).1 ≡ 200
    → (pos 1 ≤ℤ amount)
      × (k ≢ 0)
      × ((t : Transaction) × (get_transaction id ledger.transactions ≡ some t)
          × (t.subscriber_id ≡ k)
          × (t.status ≡ "COMPLETED"))
unfolding refund_transaction
refund_guarded faults row k id amount answer ledger h = elim (Bool-cases (str_eq id "")) [
  | inl empty ↦ absurd (let g = rw empty at h in omega arith)
  | inr given ↦ elim (Bool-cases (ltb_ℤ amount (pos 1))) [
    | inl small ↦ absurd (let g = rw (given, small) at h in omega arith)
    | inr large ↦ elim (Bool-cases (k == 0)) [
      | inl nobody ↦ absurd (let g = rw (given, large, nobody) at h in omega arith)
      | inr somebody ↦
          let (t, found, owned, completed) =
            found_owned faults row k amount answer
              (or_fault faults.get (get_transaction id ledger.transactions)) ledger
              (rw (given, large, somebody) at h) in
          (ground arith, ground arith, (t, ground arith, owned, completed))
    ]
  ]
]

-- One refund: its row, its amount, and Stripe's identifier and status of it.
pub record Refund : Type 0 where
  pub row : ℕ
  pub amount : ℤ
  pub id : String
  pub status : String

abbrev pub all_work : RefundFaults
all_work = record { get = false; create = false; balance = false }

abbrev pub refund_once : ℕ → String → Refund → Ledger → Ledger × ℕ
refund_once k id r ledger =
    refund_transaction all_work r.row k id r.amount (some (r.id, r.status)) ledger

unfoldable pub refund_all : ℕ → String → List Refund → Ledger → Ledger × List ℕ
refund_all k id [] ledger = (ledger, [])
refund_all k id (r ∷ refunds) ledger =
    let (ledger', reply) = refund_once k id r ledger in
    let (ledger'', replies) = refund_all k id refunds ledger' in (ledger'', reply ∷ replies)

abbrev pub total : List Refund → ℤ
total [] = pos 0
total (r ∷ refunds) = r.amount +ℤ total refunds

abbrev pub AllOk : List ℕ → Type 0
AllOk replies = All (λ reply. reply ≡ 200) replies
