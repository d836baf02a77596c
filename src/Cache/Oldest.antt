-- ===== src/Cache/Oldest.antt =====
-- apps/carrier-connector/internal/infra/cache.go: the entry that `evict` takes.
use text.Mathlib.TextEquality.{eq_iff}
use telecom_platform.Base.{
  ◌≤◌, ◌≡◌, ◌≢◌, refl, ◌⊎◌, inl, inr, Option, none, some, [], ◌∷◌, String, arith, IsMap, Bool-cases,
  Option-cases, Dict, lookup, delete, lookup-Fresh, length, length-delete-lt, suc,
}
use telecom_platform.Cache.{Cache, CacheEntry, oldest_of, evict, older}

-- What the loop ends with: an entry that it was given or that is in the map, and none older.
record Oldest (start : Option (String × CacheEntry)) (m : Dict CacheEntry) (k : String)
    (e : CacheEntry) : Type 0 where
  found : (lookup k m ≡ some e) ⊎ (start ≡ some (k, e))
  least : (j : String) (o : CacheEntry) → lookup j m ≡ some o → e.created_at ≤ o.created_at
  least_start : (j : String) (o : CacheEntry) → start ≡ some (j, o) → e.created_at ≤ o.created_at

oldest_of-Oldest :
    (start : Option (String × CacheEntry)) (m : Dict CacheEntry) (k : String) (e : CacheEntry)
    → IsMap m
    → oldest_of start m ≡ some (k, e)
    → Oldest start m k e
unfolding oldest_of lookup
oldest_of-Oldest start [] k e u h = record {
  found = inr h;
  least = λ j o f. ground arith;
  least_start = λ j o f. ground arith;
}
oldest_of-Oldest start ((i, x) ∷ m) k e u h = elim (Bool-cases (older x start)) [
  | inl y ↦
      let r = oldest_of-Oldest (some (i, x)) m k e u.1 (rw y at h) in
      record {
        found = ground (arith, r.found, eq_iff i k, lookup-Fresh i m u.0);
        least = λ j o f. ground (arith, r.least j o, r.least_start i x, eq_iff i j);
        least_start = λ j o f. ground (arith, r.least_start i x);
      }
  | inr n ↦
      let r = oldest_of-Oldest start m k e u.1 (rw n at h) in
      record {
        found = ground (arith, r.found, eq_iff i k, lookup-Fresh i m u.0);
        least = λ j o f. elim (Option-cases start) [
          | inl z ↦ ground arith
          | inr ((b, y), z) ↦ ground (arith, r.least j o, r.least_start b y, eq_iff i j)
        ];
        least_start = r.least_start;
      }
]

oldest_of-some :
    (start : String × CacheEntry) (m : Dict CacheEntry)
    → (found : String × CacheEntry) × (oldest_of (some start) m ≡ some found)
unfolding oldest_of
oldest_of-some start [] = (start, refl)
oldest_of-some start ((i, x) ∷ m) = elim (Bool-cases (older x (some start))) [
  | inl y ↦ let (found, q) = oldest_of-some (i, x) m in (found, rw (y, oldest_of) q)
  | inr n ↦ let (found, q) = oldest_of-some start m in (found, rw (n, oldest_of) q)
]

oldest_exists :
    (m : Dict CacheEntry) → m ≢ [] → (found : String × CacheEntry) × (oldest_of none m ≡ some found)
unfolding oldest_of
oldest_exists [] ne = absurd (ne refl)
oldest_exists ((i, x) ∷ m) ne = oldest_of-some (i, x) m

evict_taken :
    (c : Cache) (key : String) (e : CacheEntry)
    → oldest_of none c.entries ≡ some (key, e)
    → lookup key c.entries ≡ some e
    → lookup "" c.entries ≡ none
    → (evict c).entries ≡ delete key c.entries
unfolding evict
evict_taken c key e q found empty = ground (arith, eq_iff key "")

-- In a cache with distinct keys that is not empty and has no entry under the empty key, `evict`
-- takes away the entry of one key, and no other entry is older than that.
pub evict_lem :
    (c : Cache)
    → IsMap c.entries
    → c.entries ≢ []
    → lookup "" c.entries ≡ none
    → (key : String) × (e : CacheEntry) × (lookup key c.entries ≡ some e)
      × ((evict c).entries ≡ delete key c.entries)
      × (suc (length (evict c).entries) ≤ length c.entries)
      × ((j : String) (o : CacheEntry) → lookup j c.entries ≡ some o → e.created_at ≤ o.created_at)
evict_lem c u ne empty =
    let ((key, e), q) = oldest_exists c.entries ne in
    let r = oldest_of-Oldest none c.entries key e u q in
    let found : lookup key c.entries ≡ some e = ground (arith, r.found) in
    let taken = evict_taken c key e q found empty in
    (key, e, found, taken, rw taken (length-delete-lt key e c.entries found), r.least)
