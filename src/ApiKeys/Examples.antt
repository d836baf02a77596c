-- ===== src/ApiKeys/Examples.antt =====
-- Witnesses for the API keys of apps/carrier-connector/internal/services/tenant_apikey.go.
use text.Mathlib.Text.{◌==◌ as str_eq}
use telecom_platform.Base.{ℕ, pos, ◌≡◌, refl, Bool, false, none, some, List, [], ◌∷◌, String}
use telecom_platform.ApiKeys.{
  TenantApiKey, CreateApiKeyRequest, UpdateApiKeyRequest, ok, create_api_key, create_with,
  new_api_key, generate_api_key, insert_row, find_key, find_by_hash, hash_api_key, hex_digit,
  same_bytes, check_api_key, has_expired, record_use, update_api_key, used, validate_api_key,
  save_row,
}
use telecom_platform.ApiKeys.Stored.{unhash, stored_hash_is_the_key, created_key_lem}
use telecom_platform.ApiKeys.Use.{update_undone_by_use}

abbrev request : CreateApiKeyRequest
request = record {
  name = "ci";
  permissions = "read" ∷ [];
  rate_limit = pos 60;
  expires_at = some 100;
}

abbrev sorts_first : String → String → Bool
sorts_first a b = str_eq a "k1"

-- "tk_0a".
abbrev key : List ℕ
key = 116 ∷ 107 ∷ 95 ∷ 48 ∷ 97 ∷ []

abbrev row : TenantApiKey
unfolding new_api_key
row = new_api_key "k1" "t1" key request

creates :
    create_api_key sorts_first false "k1" "t1" (some (10 ∷ [])) [] request []
    ≡ (row ∷ [], ok (row, key))
unfolding create_api_key create_with generate_api_key hash_api_key hex_digit find_key insert_row
    new_api_key
creates = refl

stored_hash_is_the_key_example : unhash row.key_hash ≡ key
stored_hash_is_the_key_example =
    (stored_hash_is_the_key sorts_first false "k1" "t1" (some (10 ∷ [])) [] request [] (row ∷ [])
      row key creates).1

created_key_lem_example : check_api_key false 50 key (row ∷ []) ≡ ok row
unfolding has_expired find_by_hash
created_key_lem_example =
    (created_key_lem sorts_first false "k1" "t1" (some (10 ∷ [])) [] request [] (row ∷ []) row key
      creates refl 50).0

abbrev revoke : UpdateApiKeyRequest
revoke = record {
  name = none;
  permissions = none;
  rate_limit = none;
  expires_at = none;
  status = some "revoked";
}

update_undone_by_use_example :
    find_key "k1" (record_use false 50 row (update_api_key false false "k1" revoke (row ∷ [])).0)
    ≡ some (used 50 row)
unfolding new_api_key
update_undone_by_use_example =
    (update_undone_by_use false 50 key (row ∷ []) row created_key_lem_example revoke).1

validates : validate_api_key false false 50 key (row ∷ []) ≡ (used 50 row ∷ [], ok (used 50 row))
unfolding validate_api_key check_api_key find_by_hash hash_api_key hex_digit new_api_key same_bytes
    has_expired record_use save_row
validates = refl
