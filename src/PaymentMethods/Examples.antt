-- ===== src/PaymentMethods/Examples.antt =====
-- Witnesses and tests for apps/api-server/internal/services/subscriber_payment.go.
use telecom_platform.Base.{◌≡◌, refl, Bool, true, false, some, List, [], ◌∷◌, String}
use telecom_platform.PaymentMethods.{
  PaymentMethod, credit_card, bank_account, find_method, first_other, remove_payment_method,
  set_default_payment_method, add_payment_method,
}
use telecom_platform.PaymentMethods.Table.{defaults}
use telecom_platform.PaymentMethods.Defaults.{
  all_succeed, delete_fails, set_default_lem, removal_keeps_default, failed_removal_doubles,
  add_default_adds_one,
}

abbrev card : String → Bool → PaymentMethod
card id b = record {
  id = id;
  subscriber_id = 7;
  type = credit_card;
  last4 = "4242";
  brand = "visa";
  is_default = b;
}

abbrev table : List PaymentMethod
table = card "a" true ∷ card "b" false ∷ []

set_default_lem_example : defaults 7 (set_default_payment_method false "b" table).0 ≡ 1
unfolding find_method
set_default_lem_example = (set_default_lem "b" (card "b" false) table ((refl, tt), (tt, tt)) refl).0

removal_keeps_default_example : defaults 7 (remove_payment_method all_succeed "a" table).0 ≡ 1
unfolding find_method defaults remove_payment_method first_other
removal_keeps_default_example =
    removal_keeps_default "a" (card "a" true) table ((refl, tt), (tt, tt)) refl refl refl

failed_removal_doubles_example : defaults 7 (remove_payment_method delete_fails "a" table).0 ≡ 2
unfolding find_method defaults first_other
failed_removal_doubles_example =
    failed_removal_doubles "a" (card "a" true) table ((refl, tt), (tt, tt)) refl refl refl
      (card "b" false) refl refl

add_default_adds_one_example :
    defaults 7
      (add_payment_method 0 "c" 7
        (record { type = bank_account; is_default = true })
        (some ("1", "bank"))
        false
        table).0
    ≡ 2
unfolding add_payment_method find_method defaults
add_default_adds_one_example =
    add_default_adds_one 0 "c" 7 (record { type = bank_account; is_default = true })
      (some ("1", "bank")) table refl
