-- ===== src/Cache/Lookup.antt =====
-- apps/carrier-connector/internal/infra/cache.go: what `Get` finds after `Set` and the others.
use text.Mathlib.TextEquality.{eq_iff}
use telecom_platform.Base.{
  ℕ, ◌+◌, ◌≤◌, ◌≡◌, ◌↔◌, Option, none, some, List, String, arith, IsMap, lookup, lookup-insert_self,
  lookup-delete, lookup-delete_if, Option-cases, inl, inr, if◌then◌else◌, leb, length,
}
use telecom_platform.Cache.{
  evict, Cache, CacheEntry, Readings, get, set, effective_ttl, clear, cleanup, has_expired,
  delete_key, set_json, get_json, present,
}

-- `Get` gives a value exactly when the key has an entry that has not expired, and it is the value
-- of that entry.
pub get_value :
    (now : ℕ) (key : String) (c : Cache) (value : List ℕ)
    → ((get now key c).1 ≡ some value) ↔ (
        (e : CacheEntry) × (lookup key c.entries ≡ some e)
        × (now ≤ e.expires_at)
        × (e.value ≡ value))
unfolding get
get_value now key c value = elim (Option-cases (lookup key c.entries)) [
  | inl f ↦ ((λ h. ground arith), λ h. ground arith)
  | inr (e, f) ↦ ((λ h. (e, f, ground arith, ground arith)), λ h. ground arith)
]

abbrev pub stored : Readings → String → List ℕ → ℕ → Cache → CacheEntry
stored at key value ttl c = record {
  key = key;
  value = value;
  expires_at = at.expiry + effective_ttl ttl c;
  created_at = at.creation;
  hit_count = 0;
}

lookup-set :
    (at : Readings) (key : String) (value : List ℕ) (ttl : ℕ) (c : Cache)
    → lookup key (set at key value ttl c).entries ≡ some (stored at key value ttl c)
unfolding set
lookup-set at key value ttl c =
    lookup-insert_self key (stored at key value ttl c)
      (if leb c.max_size (length c.entries) then evict c else c).entries

-- After `Set`, `Get` gives the value for the whole of its time to live (the default one for 0), and
-- nothing after it.
pub get-set :
    (at : Readings) (key : String) (value : List ℕ) (ttl now : ℕ) (c : Cache)
    → (get now key (set at key value ttl c)).1
      ≡ (if leb now (at.expiry + effective_ttl ttl c) then some value else none)
unfolding get
get-set at key value ttl now c = ground (arith, lookup-set at key value ttl c)

-- Neither `Delete` nor `Clear` leaves a value to find.
pub get-delete :
    (now : ℕ) (key : String) (c : Cache)
    → ((get now key (delete_key key c)).1 ≡ none) × ((get now key (clear c)).1 ≡ none)
unfolding get clear delete_key lookup
get-delete now key c = ground (arith, eq_iff key key, lookup-delete key key c.entries)

-- In a cache with distinct keys, `cleanup` takes away nothing that `Get` would give at that time
-- or later, and leaves no entry that has expired.
pub get-cleanup :
    (now later : ℕ) (key : String) (c : Cache)
    → IsMap c.entries
    → now ≤ later
    → ((get later key (cleanup now c)).1 ≡ (get later key c).1)
      × ((e : CacheEntry) → lookup key (cleanup now c).entries ≡ some e → now ≤ e.expires_at)
unfolding get cleanup
get-cleanup now later key c u h = (
  ground (arith, lookup-delete_if (λ k e. has_expired now e) key c.entries u),
  λ e f. ground (arith, lookup-delete_if (λ k e. has_expired now e) key c.entries u),
)

module _ {A : Type 0} (marshal : A → Option (List ℕ)) (unmarshal : List ℕ → Option A) where
  -- Where `json.Unmarshal` reads back what `json.Marshal` wrote, `GetJSON` gives the value that
  -- `SetJSON` stored, for the whole of its time to live.
  pub get_json-set_json :
      (round_trip : (a : A) (bytes : List ℕ) → marshal a ≡ some bytes → unmarshal bytes ≡ some a)
      (at : Readings) (key : String) (value : A) (ttl now : ℕ) (c c' : Cache)
      → set_json marshal unmarshal at key value ttl c ≡ some c'
      → now ≤ at.expiry + effective_ttl ttl c
      → (get_json marshal unmarshal now key c').1 ≡ present value
  unfolding set_json get_json
  get_json-set_json round_trip at key value ttl now c c' h w = elim (Option-cases (marshal value)) [
    | inl e ↦ ground arith
    | inr (bytes, e) ↦ ground (arith, get-set at key bytes ttl now c, round_trip value bytes e)
  ]
