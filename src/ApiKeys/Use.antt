-- ===== src/ApiKeys/Use.antt =====
-- ValidateAPIKey of apps/carrier-connector/internal/services/tenant_apikey.go reads a row, checks it and later
-- writes it back whole; an update may come between.
use text.Mathlib.Text.{◌==◌ as str_eq}
use text.Mathlib.TextEquality.{eq_iff}
use text.Mathlib.TextPositions.{eq_refl}
use telecom_platform.Base.{
  ℕ, ◌≡◌, refl, sym, ap, ◌∙◌, inl, inr, Bool, true, false, Option, none, some, List, [], ◌∷◌,
  String, arith, Bool-cases, Option-cases,
}
use telecom_platform.ApiKeys.{
  TenantApiKey, UpdateApiKeyRequest, ApiKeys, ok, find_key, find_by_hash, same_bytes, save_row,
  apply_updates, update_api_key, check_api_key, record_use, used, usable, hash_api_key, is_there,
  has_expired,
}

save_row-save_row :
    (j k : TenantApiKey) (keys : ApiKeys)
    → j.id ≡ k.id
    → save_row k (save_row j keys) ≡ save_row k keys
unfolding save_row
save_row-save_row j k [] h = refl
save_row-save_row j k (i ∷ keys) h =
    rw h (ground (arith, eq_refl k.id, save_row-save_row j k keys h))

find_key-save_row :
    (k : TenantApiKey) (keys : ApiKeys)
    → is_there (find_key k.id keys) ≡ true
    → find_key k.id (save_row k keys) ≡ some k
unfolding find_key save_row
find_key-save_row k [] h = cc
find_key-save_row k (i ∷ keys) h = ground (arith, eq_refl k.id, find_key-save_row k keys)

-- A row that is found by its hash has an identifier that is there.
hash_is_there :
    (hash : List ℕ) (k : TenantApiKey) (keys : ApiKeys)
    → find_by_hash hash keys ≡ some k
    → is_there (find_key k.id keys) ≡ true
unfolding find_by_hash find_key
hash_is_there hash k [] h = cc
hash_is_there hash k (i ∷ keys) h = elim (Bool-cases (same_bytes i.key_hash hash)) [
  | inl e ↦
      let g = rw e at h in let same : i ≡ k = cc in rw (ap (λ x. x.id) same, eq_refl k.id) refl
  | inr e ↦ elim (Bool-cases (str_eq i.id k.id)) [
    | inl f ↦ rw f refl
    | inr f ↦ rw f (hash_is_there hash k keys (rw e at h))
  ]
]

find_key_id :
    (id : String) (k : TenantApiKey) (keys : ApiKeys) → find_key id keys ≡ some k → k.id ≡ id
unfolding find_key
find_key_id id k [] h = cc
find_key_id id k (i ∷ keys) h = elim (Bool-cases (str_eq i.id id)) [
  | inl e ↦
      let g = rw e at h in let same : i ≡ k = cc in sym (ap (λ x. x.id) same) ∙ (eq_iff i.id id).0 e
  | inr e ↦ find_key_id id k keys (rw e at h)
]

checked :
    (now : ℕ) (o : Option TenantApiKey) (k : TenantApiKey)
    → usable now o ≡ ok k
    → (o ≡ some k) × (k.status ≡ "active")
unfolding usable
checked now none k h = cc
checked now (some j) k h = elim (Bool-cases (str_eq j.status "active")) [
  | inl a ↦ elim (Bool-cases (has_expired now j.expires_at)) [
    | inl b ↦ cc (rw (a, b) at h)
    | inr b ↦
        let g = rw (a, b) at h in
        let same : j ≡ k = cc in
        (cc, sym (ap (λ x. x.status) same) ∙ (eq_iff j.status "active").0 a)
  ]
  | inr a ↦ cc (rw a at h)
]

read :
    (fault : Bool) (now : ℕ) (key : List ℕ) (keys : ApiKeys) (k : TenantApiKey)
    → check_api_key fault now key keys ≡ ok k
    → (find_by_hash (hash_api_key key) keys ≡ some k) × (k.status ≡ "active")
unfolding check_api_key
read true now key keys k h = cc
read false now key keys k h = checked now (find_by_hash (hash_api_key key) keys) k h

-- A key passes the checks of its row, the row is then updated in any way, and the use of the key is recorded
-- last. The table is then the one that it is without the update: the row is active, as it was read.
pub update_undone_by_use :
    (fault : Bool) (now : ℕ) (key : List ℕ) (keys : ApiKeys) (k : TenantApiKey)
    → check_api_key fault now key keys ≡ ok k
    → (r : UpdateApiKeyRequest)
    → let later = record_use false now k (update_api_key false false k.id r keys).0 in
      (later ≡ record_use false now k keys)
      × (find_key k.id later ≡ some (used now k))
      × (k.status ≡ "active")
unfolding record_use update_api_key apply_updates
update_undone_by_use fault now key keys k h r =
    let (found, active) = read fault now key keys k h in
    let there = hash_is_there (hash_api_key key) k keys found in
    elim (Option-cases (find_key k.id keys)) [
      | inl e ↦ cc (rw e at there)
      | inr (j, e) ↦
          let same : save_row (used now k) (save_row (apply_updates r j) keys)
              ≡ save_row (used now k) keys =
            save_row-save_row (apply_updates r j) (used now k) keys (find_key_id k.id j keys e) in
          rw (e, same) (refl, find_key-save_row (used now k) keys there, active)
    ]
