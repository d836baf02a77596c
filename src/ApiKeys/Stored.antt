-- ===== src/ApiKeys/Stored.antt =====
-- What CreateAPIKey of apps/carrier-connector/internal/services/tenant_apikey.go stores, and who can read it.
use text.Mathlib.Text.{◌==◌ as str_eq}
use text.Mathlib.TextPositions.{eq_refl}
use telecom_platform.Base.{
  ℕ, ◌+◌, ◌-◌, ◌*◌, ◌/◌, ◌%◌, ◌≡◌, refl, sym, ap, ◌≢◌, inl, inr, Bool, true, false, Option, none,
  some, List, [], ◌∷◌, String, ltb, arith, if◌then◌else◌, Bool-cases, Option-cases,
}
use telecom_platform.ApiKeys.{
  TenantApiKey, CreateApiKeyRequest, ApiKeys, ok, err, same_bytes, find_key, find_by_hash,
  insert_row, hex_digit, hash_api_key, new_api_key, create_with, create_api_key, generate_api_key,
  check_api_key, has_expired, expired,
}

unfoldable pub digit_of : ℕ → ℕ
digit_of c = if ltb c 58 then c - 48 else c - 87

-- The text that a hash is made of.
unfoldable pub unhash : List ℕ → List ℕ
unhash [] = []
unhash (c ∷ []) = []
unhash (c ∷ d ∷ s) = (digit_of c * 16 + digit_of d) ∷ unhash s

digit_of-hex_digit : (n : ℕ) → digit_of (hex_digit n) ≡ n
unfolding digit_of hex_digit
digit_of-hex_digit n = ground arith

unhash-hash_api_key : (key : List ℕ) → unhash (hash_api_key key) ≡ key
unfolding unhash hash_api_key
unhash-hash_api_key [] = refl
unhash-hash_api_key (b ∷ bs) =
    let whole : b / 16 * 16 + b % 16 ≡ b = omega arith in
    rw (digit_of-hex_digit (b / 16), digit_of-hex_digit (b % 16), whole, unhash-hash_api_key bs)
      refl

same_bytes_self : (s : List ℕ) → same_bytes s s ≡ true
unfolding same_bytes
same_bytes_self [] = refl
same_bytes_self (c ∷ s) = ground (arith, same_bytes_self s)

same_bytes_sound : (s t : List ℕ) → same_bytes s t ≡ true → s ≡ t
unfolding same_bytes
same_bytes_sound [] [] h = refl
same_bytes_sound [] (d ∷ t) h = cc
same_bytes_sound (c ∷ s) [] h = cc
same_bytes_sound (c ∷ s) (d ∷ t) h = ground (arith, same_bytes_sound s t)

hash_api_key_distinct :
    (key other : List ℕ) → other ≢ key → same_bytes (hash_api_key key) (hash_api_key other) ≡ false
hash_api_key_distinct key other h =
    elim (Bool-cases (same_bytes (hash_api_key key) (hash_api_key other))) [
      | inl e ↦
          let same = ap unhash (same_bytes_sound _ _ e) in
          let equal : key ≡ other =
            rw (unhash-hash_api_key key, unhash-hash_api_key other) at same in
          elim (h (sym equal)) [ ]
      | inr e ↦ e
    ]

module _ (before : String → String → Bool) (k : TenantApiKey) where
  find_by_hash-insert_row_other :
      (hash : List ℕ) (keys : ApiKeys)
      → same_bytes k.key_hash hash ≡ false
      → find_by_hash hash (insert_row before k keys) ≡ find_by_hash hash keys
  unfolding find_by_hash insert_row
  find_by_hash-insert_row_other hash [] h = rw h refl
  find_by_hash-insert_row_other hash (j ∷ keys) h =
      ground (arith, find_by_hash-insert_row_other hash keys h)

  find_by_hash-insert_row :
      (hash : List ℕ) (keys : ApiKeys)
      → same_bytes k.key_hash hash ≡ true
      → find_by_hash hash keys ≡ none
      → find_by_hash hash (insert_row before k keys) ≡ some k
  unfolding find_by_hash insert_row
  find_by_hash-insert_row hash [] h e = rw h refl
  find_by_hash-insert_row hash (j ∷ keys) h e = ground (arith, find_by_hash-insert_row hash keys h)

  find_key-insert_row :
      (keys : ApiKeys)
      → find_key k.id keys ≡ none
      → find_key k.id (insert_row before k keys) ≡ some k
  unfolding find_key insert_row
  find_key-insert_row [] e = rw (eq_refl k.id) refl
  find_key-insert_row (j ∷ keys) e = ground (arith, eq_refl k.id, find_key-insert_row keys)

abbrev Created :
    (String → String → Bool)
    → String
    → String
    → Option (List ℕ)
    → List ℕ
    → CreateApiKeyRequest
    → ApiKeys
    → ApiKeys
    → TenantApiKey
    → List ℕ
    → Type 0
Created before id tenant random uuid r keys after row key =
    (key ≡ generate_api_key random uuid)
    × (row ≡ new_api_key id tenant key r)
    × (find_key id keys ≡ none)
    × (after ≡ insert_row before row keys)

created :
    (before : String → String → Bool) (fault : Bool) (id tenant : String) (random : Option (List ℕ))
    (uuid : List ℕ) (r : CreateApiKeyRequest) (keys after : ApiKeys) (row : TenantApiKey)
    (key : List ℕ)
    → create_api_key before fault id tenant random uuid r keys ≡ (after, ok (row, key))
    → Created before id tenant random uuid r keys after row key
unfolding create_api_key create_with
created before fault id tenant random uuid r keys after row key h =
    elim (Option-cases (find_key id keys)) [
      | inl e ↦ elim (Bool-cases (str_eq r.name "")) [
        | inl n ↦ cc (rw n at h)
        | inr n ↦ elim (Bool-cases fault) [
          | inl f ↦ cc (rw (n, f) at h)
          | inr f ↦ let k = rw (n, f, e) at h in (cc, cc, e, cc)
        ]
      ]
      | inr (k, e) ↦ elim (Bool-cases (str_eq r.name "")) [
        | inl n ↦ cc (rw n at h)
        | inr n ↦ elim (Bool-cases fault) [
          | inl f ↦ cc (rw (n, f) at h)
          | inr f ↦ cc (rw (n, f, e) at h)
        ]
      ]
    ]

-- A key that was created is stored in a form from which it can be read back: the hash of its row, decoded, is
-- the key.
pub stored_hash_is_the_key :
    (before : String → String → Bool) (fault : Bool) (id tenant : String) (random : Option (List ℕ))
    (uuid : List ℕ) (r : CreateApiKeyRequest) (keys after : ApiKeys) (row : TenantApiKey)
    (key : List ℕ)
    → create_api_key before fault id tenant random uuid r keys ≡ (after, ok (row, key))
    → (find_key id after ≡ some row) × (unhash row.key_hash ≡ key)
unfolding new_api_key
stored_hash_is_the_key before fault id tenant random uuid r keys after row key h =
    let (a, b, c, d) = created before fault id tenant random uuid r keys after row key h in
    (
      rw (d, b) (find_key-insert_row before (new_api_key id tenant key r) keys c),
      rw b (unhash-hash_api_key key),
    )

-- A key that was created, and whose hash was not in the table, passes the checks of its row, unless the expiry of
-- the request has passed; for every other key the checks answer as before.
pub created_key_lem :
    (before : String → String → Bool) (fault : Bool) (id tenant : String) (random : Option (List ℕ))
    (uuid : List ℕ) (r : CreateApiKeyRequest) (keys after : ApiKeys) (row : TenantApiKey)
    (key : List ℕ)
    → create_api_key before fault id tenant random uuid r keys ≡ (after, ok (row, key))
    → find_by_hash (hash_api_key key) keys ≡ none
    → (now : ℕ)
    → (check_api_key false now key after
        ≡ (if has_expired now r.expires_at then err expired else ok row))
      × ((other : List ℕ)
          → other ≢ key
          → check_api_key false now other after ≡ check_api_key false now other keys)
unfolding new_api_key check_api_key
created_key_lem before fault id tenant random uuid r keys after row key h f now =
    let (a, b, c, d) = created before fault id tenant random uuid r keys after row key h in
    (
      let found =
            find_by_hash-insert_row before row (hash_api_key key) keys
              (rw b (same_bytes_self (hash_api_key key))) f in
          rw (d, found, b) refl,
      λ other n.
          let same =
            find_by_hash-insert_row_other before row (hash_api_key other) keys
              (rw b (hash_api_key_distinct key other n)) in
          rw (d, same) refl,
    )
