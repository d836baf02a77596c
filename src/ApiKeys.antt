-- ===== src/ApiKeys.antt =====
-- apps/carrier-connector/internal/services/tenant_apikey.go, with the queries of
-- internal/repository/tenant_repository_apikey_usage.go. A key and its hash are lists of bytes. The table is
-- the list of its rows in the order of their identifiers. A query that fails is a Boolean argument. Left out
-- are the dates and the creator of a row, which nothing reads.
pub mod Stored
pub mod Use
mod Examples
use text.Mathlib.Text.{◌==◌ as str_eq}
use telecom_platform.Base.{
  ℕ, suc, zero, ◌+◌, ◌-◌, ◌/◌, ◌%◌, ℤ, Bool, true, false, not, ◌&&◌, Option, none, some, List, [],
  ◌∷◌, ◌++◌, String, ◌==◌, ltb, if◌then◌else◌, keep,
}

pub record TenantApiKey : Type 0 where
  pub id : String
  pub tenant_id : String
  pub name : String
  pub key_hash : List ℕ
  pub key_prefix : List ℕ
  pub permissions : List String
  pub rate_limit : ℤ
  pub last_used : Option ℕ
  pub expires_at : Option ℕ
  pub status : String

pub record CreateApiKeyRequest : Type 0 where
  pub name : String
  pub permissions : List String
  pub rate_limit : ℤ
  pub expires_at : Option ℕ

-- A field that is nil is `none`.
pub record UpdateApiKeyRequest : Type 0 where
  pub name : Option String
  pub permissions : Option (List String)
  pub rate_limit : Option ℤ
  pub expires_at : Option ℕ
  pub status : Option String

pub data ApiKeyError : Type 0 where
  name_required create_failed not_found update_failed delete_failed not_active expired : ApiKeyError

pub data Result (A : Type 0) : Type 0 where
  ok : A → Result A
  err : ApiKeyError → Result A

abbrev pub ApiKeys : Type 0
ApiKeys = List TenantApiKey

unfoldable pub same_bytes : List ℕ → List ℕ → Bool
same_bytes [] [] = true
same_bytes [] (d ∷ t) = false
same_bytes (c ∷ s) [] = false
same_bytes (c ∷ s) (d ∷ t) = c == d && same_bytes s t

unfoldable pub find_key : String → ApiKeys → Option TenantApiKey
find_key id [] = none
find_key id (k ∷ keys) = if str_eq k.id id then some k else find_key id keys

unfoldable pub find_by_hash : List ℕ → ApiKeys → Option TenantApiKey
find_by_hash hash [] = none
find_by_hash hash (k ∷ keys) = if same_bytes k.key_hash hash then some k else find_by_hash hash keys

-- Where `Create` puts a row whose identifier is not there yet.
unfoldable pub insert_row : (String → String → Bool) → TenantApiKey → ApiKeys → ApiKeys
insert_row before k [] = k ∷ []
insert_row before k (j ∷ keys) =
    if before k.id j.id then k ∷ j ∷ keys else j ∷ insert_row before k keys

-- `Save` of a row that is there: its columns are overwritten.
unfoldable pub save_row : TenantApiKey → ApiKeys → ApiKeys
save_row k [] = []
save_row k (j ∷ keys) = if str_eq j.id k.id then k ∷ keys else j ∷ save_row k keys

-- `%x` of a text.
unfoldable pub hex_digit : ℕ → ℕ
hex_digit n = if ltb n 10 then n + 48 else n + 87

unfoldable pub hash_api_key : List ℕ → List ℕ
hash_api_key [] = []
hash_api_key (b ∷ bs) = hex_digit (b / 16) ∷ hex_digit (b % 16) ∷ hash_api_key bs

-- "tk_" and the random bytes in hexadecimal, or a UUID where there are none.
unfoldable pub generate_api_key : Option (List ℕ) → List ℕ → List ℕ
unfolding hash_api_key
generate_api_key none uuid = uuid
generate_api_key (some bytes) uuid = 116 ∷ 107 ∷ 95 ∷ hash_api_key bytes

abbrev take : ℕ → List ℕ → List ℕ
take zero bs = []
take (suc n) [] = []
take (suc n) (b ∷ bs) = b ∷ take n bs

unfoldable pub new_api_key : String → String → List ℕ → CreateApiKeyRequest → TenantApiKey
unfolding hash_api_key
new_api_key id tenant key r = record {
  id = id;
  tenant_id = tenant;
  name = r.name;
  key_hash = hash_api_key key;
  key_prefix = take 8 key;
  permissions = r.permissions;
  rate_limit = r.rate_limit;
  last_used = none;
  expires_at = r.expires_at;
  status = "active";
}

abbrev pub is_there : Option TenantApiKey → Bool
is_there none = false
is_there (some k) = true

unfoldable pub create_with :
    (String → String → Bool)
    → Bool
    → String
    → String
    → List ℕ
    → CreateApiKeyRequest
    → ApiKeys
    → ApiKeys × Result (TenantApiKey × List ℕ)
create_with before fault id tenant key r keys =
    if not fault && not (is_there (find_key id keys))
    then (
      insert_row before (new_api_key id tenant key r) keys,
      ok (new_api_key id tenant key r, key),
    )
    else (keys, err create_failed)

-- The record and the key, which is shown only here.
unfoldable pub create_api_key :
    (String → String → Bool)
    → Bool
    → String
    → String
    → Option (List ℕ)
    → List ℕ
    → CreateApiKeyRequest
    → ApiKeys
    → ApiKeys × Result (TenantApiKey × List ℕ)
create_api_key before fault id tenant random uuid r keys =
    if str_eq r.name ""
    then (keys, err name_required)
    else create_with before fault id tenant (generate_api_key random uuid) r keys

abbrev pub or {ℓ} : {A : Type ℓ} → Option A → A → A
or none a = a
or (some b) a = b

unfoldable pub or_some : Option ℕ → Option ℕ → Option ℕ
or_some none old = old
or_some (some t) old = some t

unfoldable pub apply_updates : UpdateApiKeyRequest → TenantApiKey → TenantApiKey
unfolding or_some
apply_updates r k = record k {
  name = or r.name k.name;
  permissions = or r.permissions k.permissions;
  rate_limit = or r.rate_limit k.rate_limit;
  expires_at = or_some r.expires_at k.expires_at;
  status = or r.status k.status;
}

abbrev pub or_fault : Bool → Option TenantApiKey → Option TenantApiKey
or_fault fault found = if fault then none else found

abbrev pub update_found :
    Bool → UpdateApiKeyRequest → Option TenantApiKey → ApiKeys → ApiKeys × Result TenantApiKey
update_found fault r none keys = (keys, err not_found)
update_found fault r (some k) keys =
    if fault
    then (keys, err update_failed)
    else (save_row (apply_updates r k) keys, ok (apply_updates r k))

unfoldable pub update_api_key :
    Bool → Bool → String → UpdateApiKeyRequest → ApiKeys → ApiKeys × Result TenantApiKey
update_api_key get_fault fault id r keys =
    update_found fault r (or_fault get_fault (find_key id keys)) keys

unfoldable pub delete_api_key : Bool → String → ApiKeys → ApiKeys × Result Unit
delete_api_key fault id keys =
    if fault
    then (keys, err delete_failed)
    else (keep (λ (k : TenantApiKey). not (str_eq k.id id)) keys, ok tt)

unfoldable pub has_expired : ℕ → Option ℕ → Bool
has_expired now none = false
has_expired now (some end) = ltb end now

abbrev pub usable : ℕ → Option TenantApiKey → Result TenantApiKey
unfolding has_expired
usable now none = err not_found
usable now (some k) =
    if not (str_eq k.status "active")
    then err not_active
    else if has_expired now k.expires_at
    then err expired
    else ok k

-- ValidateAPIKey, up to the checks of the row that it read, and its write of that row.
unfoldable pub check_api_key : Bool → ℕ → List ℕ → ApiKeys → Result TenantApiKey
unfolding usable
check_api_key fault now key keys =
    usable now (or_fault fault (find_by_hash (hash_api_key key) keys))

abbrev pub used : ℕ → TenantApiKey → TenantApiKey
used now k = record k { last_used = some now }

unfoldable pub record_use : Bool → ℕ → TenantApiKey → ApiKeys → ApiKeys
record_use fault now k keys = if fault then keys else save_row (used now k) keys

abbrev pub after_check : Bool → ℕ → Result TenantApiKey → ApiKeys → ApiKeys × Result TenantApiKey
after_check fault now (err e) keys = (keys, err e)
after_check fault now (ok k) keys = (record_use fault now k keys, ok (used now k))

unfoldable pub validate_api_key : Bool → Bool → ℕ → List ℕ → ApiKeys → ApiKeys × Result TenantApiKey
unfolding check_api_key
validate_api_key get_fault fault now key keys =
    after_check fault now (check_api_key get_fault now key keys) keys
