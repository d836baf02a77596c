-- ===== src/PaymentMethods.antt =====
-- apps/api-server/internal/services/subscriber_payment.go. The table of payment methods is the list of
-- its rows in the order in which the database finds them; a new row goes to a position that is a
-- parameter. A statement of SQL that fails is a fault, given as a Boolean for each; a transaction that
-- is rolled back leaves the table as it was. The gateway's answer to a token and the text of a new
-- identifier are parameters. The context, the gateway's and customer's names and the dates are left out.
pub mod Table
pub mod Defaults
mod Examples
use text.Mathlib.Text.{◌==◌ as str_eq}
use telecom_platform.Base.{
  ℕ, zero, suc, Bool, true, false, not, ◌&&◌, Option, none, some, List, [], ◌∷◌, String, ◌==◌,
  length, map, keep, if◌then◌else◌,
}

pub data PaymentMethodType : Type 0 where
  credit_card bank_account : PaymentMethodType

pub record PaymentMethod : Type 0 where
  pub id : String
  pub subscriber_id : ℕ
  pub type : PaymentMethodType
  pub last4 : String
  pub brand : String
  pub is_default : Bool

pub record AddPaymentMethodRequest : Type 0 where
  pub type : PaymentMethodType
  pub is_default : Bool

-- `First` by the identifier.
unfoldable pub find_method : String → List PaymentMethod → Option PaymentMethod
find_method id [] = none
find_method id (p ∷ table) = if str_eq p.id id then some p else find_method id table

-- `Create`, which fails on an identifier that is there.
unfoldable pub create_at : ℕ → PaymentMethod → List PaymentMethod → List PaymentMethod
create_at zero p table = p ∷ table
create_at (suc n) p [] = p ∷ []
create_at (suc n) p (q ∷ table) = q ∷ create_at n p table

pub data Answer : Type 0 where
  done not_found token_failed failed only_method : Answer

abbrev is_free : Option PaymentMethod → Bool
is_free none = true
is_free (some p) = false

add_with_card :
    ℕ
    → String
    → ℕ
    → AddPaymentMethodRequest
    → Option (String × String)
    → Bool
    → List PaymentMethod
    → List PaymentMethod × Answer
add_with_card at id subscriber request none fault table = (table, token_failed)
add_with_card at id subscriber request (some (last4, brand)) fault table =
    if not fault && is_free (find_method id table)
    then (
      create_at at
          (record {
            id = id;
            subscriber_id = subscriber;
            type = request.type;
            last4 = last4;
            brand = brand;
            is_default = request.is_default;
          })
          table,
      done,
    )
    else (table, failed)

-- `id` is made of the subscriber and the time in seconds; `card` is the gateway's answer.
unfoldable pub add_payment_method :
    ℕ
    → String
    → ℕ
    → AddPaymentMethodRequest
    → Option (String × String)
    → Bool
    → List PaymentMethod
    → List PaymentMethod × Answer
unfolding add_with_card
add_payment_method at id subscriber request card fault table =
    add_with_card at id subscriber request card fault table

abbrev pub belongs : ℕ → PaymentMethod → Bool
belongs subscriber p = p.subscriber_id == subscriber

-- `subscriber_id = ? AND id != ?`.
abbrev pub is_other : ℕ → String → PaymentMethod → Bool
is_other subscriber id p = belongs subscriber p && not (str_eq p.id id)

unfoldable pub first_other : ℕ → String → List PaymentMethod → Option PaymentMethod
first_other subscriber id [] = none
first_other subscriber id (p ∷ table) =
    if is_other subscriber id p then some p else first_other subscriber id table

-- `Update("is_default", b)` on the row of an identifier, and on the other rows of a subscriber.
unfoldable pub set_flag : String → Bool → List PaymentMethod → List PaymentMethod
set_flag id b [] = []
set_flag id b (p ∷ table) =
    (if str_eq p.id id then record p { is_default = b } else p) ∷ set_flag id b table

unfoldable pub clear_others : ℕ → String → List PaymentMethod → List PaymentMethod
clear_others subscriber id [] = []
clear_others subscriber id (p ∷ table) =
    (if is_other subscriber id p then record p { is_default = false } else p)
    ∷ clear_others subscriber id table

unfoldable pub delete_method : String → List PaymentMethod → List PaymentMethod
delete_method id [] = []
delete_method id (p ∷ table) =
    let rest = delete_method id table in if str_eq p.id id then rest else p ∷ rest

-- The statements of `RemovePaymentMethod` that fail.
pub record RemoveFaults : Type 0 where
  pub count : Bool
  pub alternative : Bool
  pub update : Bool
  pub delete : Bool

finish_removal : Bool → String → List PaymentMethod → List PaymentMethod × Answer
finish_removal fault id table = if fault then (table, failed) else (delete_method id table, done)

replace_default :
    RemoveFaults → String → Option PaymentMethod → List PaymentMethod → List PaymentMethod × Answer
unfolding finish_removal
replace_default faults id none table = (table, failed)
replace_default faults id (some new_default) table =
    if faults.alternative
    then (table, failed)
    else if faults.update
    then (table, failed)
    else finish_removal faults.delete id (set_flag new_default.id true table)

remove_found :
    RemoveFaults → String → Option PaymentMethod → List PaymentMethod → List PaymentMethod × Answer
unfolding replace_default finish_removal
remove_found faults id none table = (table, not_found)
remove_found faults id (some p) table =
    if faults.count
    then (table, failed)
    else if length (keep (belongs p.subscriber_id) table) == 1
    then (table, only_method)
    else if p.is_default
    then replace_default faults id (first_other p.subscriber_id id table) table
    else finish_removal faults.delete id table

unfoldable pub remove_payment_method :
    RemoveFaults → String → List PaymentMethod → List PaymentMethod × Answer
unfolding remove_found
remove_payment_method faults id table = remove_found faults id (find_method id table) table

set_found : Bool → String → Option PaymentMethod → List PaymentMethod → List PaymentMethod × Answer
set_found fault id none table = (table, not_found)
set_found fault id (some p) table =
    if fault
    then (table, failed)
    else (set_flag id true (clear_others p.subscriber_id id table), done)

-- `fault` says whether any statement of the transaction or its commit fails.
unfoldable pub set_default_payment_method :
    Bool → String → List PaymentMethod → List PaymentMethod × Answer
unfolding set_found
set_default_payment_method fault id table = set_found fault id (find_method id table) table
