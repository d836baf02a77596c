-- ===== src/PaymentMethods/Defaults.antt =====
-- apps/api-server/internal/services/subscriber_payment.go: how many default methods a subscriber has.
use text.Mathlib.Text.{◌==◌ as str_eq}
use text.Mathlib.TextEquality.{eq_iff}
use telecom_platform.Base.{
  ℕ, zero, suc, ◌+◌, ◌≤◌, ◌≡◌, refl, ◌∙◌, inl, inr, true, false, Option, some, List, [], ◌∷◌,
  String, arith, ◌==◌, length, keep, Bool-cases, Option-cases,
}
use telecom_platform.PaymentMethods.{
  PaymentMethod, AddPaymentMethodRequest, done, find_method, first_other, set_flag, clear_others,
  delete_method, belongs, create_at, RemoveFaults, remove_payment_method,
  set_default_payment_method, add_payment_method,
}
use telecom_platform.PaymentMethods.Table.{
  defaults, Keyed, one_if, counts_for, set_flag-defaults, clear_others-defaults,
  delete_method-defaults, clear_others-find, Keyed-clear_others, Keyed-set_flag, set_flag-find,
  first_other-found,
}

-- Where identifiers are a key and no statement fails, `SetDefaultPaymentMethod` on a method that is
-- there leaves its subscriber with exactly one default; on any failure the table stays as it was.
pub set_default_lem :
    (id : String) (p : PaymentMethod) (table : List PaymentMethod)
    → Keyed table
    → find_method id table ≡ some p
    → (defaults p.subscriber_id (set_default_payment_method false id table).0 ≡ 1)
      × ((set_default_payment_method true id table).0 ≡ table)
unfolding set_default_payment_method
set_default_lem id p table k f =
    let s = p.subscriber_id in
    let cleared = clear_others s id table in
    let found = clear_others-find s id table ∙ f in
    (
      ground (
        arith,
        f,
        set_flag-defaults s id p cleared (Keyed-clear_others s id table k) found,
        clear_others-defaults s id p table k f,
      ),
      ground (arith, f),
    )

find_method-counts :
    (s : ℕ) (j : String) (r : PaymentMethod) (table : List PaymentMethod)
    → find_method j table ≡ some r
    → one_if (counts_for s r) ≤ defaults s table
unfolding find_method defaults
find_method-counts s j r [] f = ground arith
find_method-counts s j r (q ∷ table) f = elim (Bool-cases (str_eq q.id j)) [
  | inl e ↦ ground arith
  | inr e ↦ ground (arith, find_method-counts s j r table)
]

delete_method-find :
    (id j : String) (table : List PaymentMethod)
    → str_eq j id ≡ false
    → find_method j (delete_method id table) ≡ find_method j table
unfolding find_method delete_method
delete_method-find id j [] ne = refl
delete_method-find id j (q ∷ table) ne =
    ground (arith, eq_iff q.id id, eq_iff q.id j, eq_iff j id, delete_method-find id j table ne)

-- A default method is replaced by an alternative that was not one, if it was the only one.
replacing :
    (id : String) (p r : PaymentMethod) (table : List PaymentMethod)
    → Keyed table
    → find_method id table ≡ some p
    → p.is_default ≡ true
    → defaults p.subscriber_id table ≡ 1
    → first_other p.subscriber_id id table ≡ some r
    → (defaults p.subscriber_id (set_flag r.id true table) ≡ 2)
      × (defaults p.subscriber_id (delete_method id (set_flag r.id true table)) ≡ 1)
replacing id p r table k f d one g =
    let s = p.subscriber_id in
    let other = first_other-found s id r table k g in
    let ne : str_eq r.id id ≡ false = ground (arith, other.1) in
    let left = delete_method-defaults s id p table k f in
    let not_default =
      find_method-counts s r.id r (delete_method id table)
        (delete_method-find id r.id table ne ∙ other.0) in
    let two : defaults s (set_flag r.id true table) ≡ 2 =
      ground
        (arith, set_flag-defaults s r.id r table k other.0, other.1, left, not_default, one, d) in
    (
      two,
      ground (
        arith,
        two,
        d,
        delete_method-defaults s id p (set_flag r.id true table) (Keyed-set_flag r.id true table k)
            (set_flag-find r.id id true table ne ∙ f),
      ),
    )

abbrev pub all_succeed : RemoveFaults
all_succeed = record { count = false; alternative = false; update = false; delete = false }

abbrev pub delete_fails : RemoveFaults
delete_fails = record all_succeed { delete = true }

module _ (id : String) (p : PaymentMethod) (table : List PaymentMethod) where
  -- Where identifiers are a key, a subscriber with exactly one default still has exactly one after
  -- `RemovePaymentMethod` has removed one of several methods.
  pub removal_keeps_default :
      Keyed table
      → find_method id table ≡ some p
      → defaults p.subscriber_id table ≡ 1
      → (remove_payment_method all_succeed id table).1 ≡ done
      → defaults p.subscriber_id (remove_payment_method all_succeed id table).0 ≡ 1
  unfolding remove_payment_method
  removal_keeps_default k f one ok = elim (Bool-cases p.is_default) [
    | inl d ↦ elim (Option-cases (first_other p.subscriber_id id table)) [
      | inl g ↦ ground (arith, f, d, g, ok)
      | inr (r, g) ↦ ground (arith, f, d, g, ok, (replacing id p r table k f d one g).1)
    ]
    | inr d ↦ ground (arith, f, d, ok, delete_method-defaults p.subscriber_id id p table k f, one)
  ]

  -- The removal is not a transaction: where identifiers are a key, when the deletion of a default
  -- method fails after another of the subscriber's methods has been made the default, the
  -- subscriber, who had exactly one default, is left with two.
  pub failed_removal_doubles :
      Keyed table
      → find_method id table ≡ some p
      → p.is_default ≡ true
      → defaults p.subscriber_id table ≡ 1
      → (r : PaymentMethod) → first_other p.subscriber_id id table ≡ some r
      → (length (keep (belongs p.subscriber_id) table) == 1) ≡ false
      → defaults p.subscriber_id (remove_payment_method delete_fails id table).0 ≡ 2
  unfolding remove_payment_method
  failed_removal_doubles k f d one r g several =
      ground (arith, f, d, g, several, (replacing id p r table k f d one g).0)

create_at-defaults :
    (s at : ℕ) (p : PaymentMethod) (table : List PaymentMethod)
    → defaults s (create_at at p table) ≡ one_if (counts_for s p) + defaults s table
unfolding create_at defaults
create_at-defaults s zero p table = refl
create_at-defaults s (suc n) p [] = refl
create_at-defaults s (suc n) p (q ∷ table) = omega (arith, create_at-defaults s n p table)

-- A method added as the default does not unset the others: the subscriber has one default more.
pub add_default_adds_one :
    (at : ℕ) (id : String) (subscriber : ℕ) (request : AddPaymentMethodRequest)
    (card : Option (String × String)) (table : List PaymentMethod)
    → (add_payment_method at id subscriber request card false table).1 ≡ done
    → defaults subscriber (add_payment_method at id subscriber request card false table).0
      ≡ defaults subscriber table + one_if request.is_default
unfolding add_payment_method
add_default_adds_one at id subscriber request card table ok = elim (Option-cases card) [
  | inl e ↦ ground arith
  | inr ((last4, brand), e) ↦ ground (
    arith,
    create_at-defaults subscriber at
        (record {
          id = id;
          subscriber_id = subscriber;
          type = request.type;
          last4 = last4;
          brand = brand;
          is_default = request.is_default;
        })
        table,
  )
]
