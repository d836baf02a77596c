-- ===== src/Cache/Size.antt =====
-- apps/carrier-connector/internal/infra/cache.go: the size limit.
use text.Mathlib.Text.{◌==◌ as str_eq}
use text.Mathlib.TextEquality.{eq_iff}
use telecom_platform.Base.{
  ℕ, ◌+◌, ◌≤◌, ◌<◌, ◌≡◌, ◌≢◌, refl, ap, inl, inr, false, Option, none, some, List, [], ◌∷◌, String,
  arith, IsMap, leb, Bool-cases, Option-cases, Dict, lookup, insert, lookup-insert, lookup-delete,
  lookup-delete_if, length, length-insert, length-insert_old, length-insert_new, length-delete-le,
  insert-IsMap, delete-IsMap, delete_if-IsMap, length-delete_if-le, if◌then◌else◌, u64, leb→le,
}
use telecom_platform.Cache.{
  finish_get, CacheStats, oldest_of, Cache, CacheConfig, CacheEntry, Readings, evict, get, set,
  delete_key, clear, cleanup, new_cache, has_expired,
}
use telecom_platform.Cache.Lookup.{stored}
use telecom_platform.Cache.Oldest.{evict_lem}

-- Between calls, in a cache that may hold something: no more entries than the limit, distinct keys,
-- and none of them empty.
pub record Inv (c : Cache) : Type 0 where
  pub is_map : IsMap c.entries
  pub no_empty_key : lookup "" c.entries ≡ none
  pub bounded : length c.entries ≤ c.max_size
  pub roomy : 0 < c.max_size

-- `Set` first makes room, if the cache is full.
abbrev make_room : Cache → Cache
make_room c = if leb c.max_size (length c.entries) then evict c else c

evict-max_size : (c : Cache) → (evict c).max_size ≡ c.max_size
unfolding evict
evict-max_size c = elim (Option-cases (oldest_of none c.entries)) [
  | inl e ↦ ground arith
  | inr ((k, x), e) ↦ ground arith
]

-- What `Set` starts from: room for one more.
record HasRoom (c : Cache) (m : Cache) : Type 0 where
  is_map : IsMap m.entries
  no_empty_key : lookup "" m.entries ≡ none
  below : length m.entries < c.max_size
  max_kept : m.max_size ≡ c.max_size

evict-HasRoom : (c : Cache) → Inv c → c.max_size ≤ length c.entries → HasRoom c (evict c)
evict-HasRoom c inv full =
    let nonempty : c.entries ≢ [] =
      λ q. omega (arith, full, inv.roomy, ap (λ (m : Dict CacheEntry). length m) q) in
    let (key, e, found, taken, fewer, least) = evict_lem c inv.is_map nonempty inv.no_empty_key in
    record {
      is_map = rw taken (delete-IsMap key c.entries inv.is_map);
      no_empty_key = rw taken (ground (arith, lookup-delete key "" c.entries, inv.no_empty_key));
      below = omega (arith, fewer, inv.bounded);
      max_kept = evict-max_size c;
    }

make_room-HasRoom : (c : Cache) → Inv c → HasRoom c (make_room c)
make_room-HasRoom c inv = elim (Bool-cases (leb c.max_size (length c.entries))) [
  | inr n ↦ rw n (record {
    is_map = inv.is_map;
    no_empty_key = inv.no_empty_key;
    below = ground arith;
    max_kept = refl;
  })
  | inl full ↦ rw full (evict-HasRoom c inv (leb→le _ _ full))
]

set-Inv :
    (at : Readings) (key : String) (value : List ℕ) (ttl : ℕ) (c : Cache)
    → str_eq key "" ≡ false
    → Inv c
    → Inv (set at key value ttl c)
unfolding set
set-Inv at key value ttl c ne inv =
    let r = make_room-HasRoom c inv in
    let new = stored at key value ttl c in
    record {
      is_map = insert-IsMap key new (make_room c).entries r.is_map;
      no_empty_key = ground (arith, r.no_empty_key, lookup-insert key "" new (make_room c).entries);
      bounded = omega (arith, length-insert key new (make_room c).entries, r.below, r.max_kept);
      roomy = omega (arith, inv.roomy, r.max_kept);
    }

delete_key-Inv : (key : String) (c : Cache) → Inv c → Inv (delete_key key c)
unfolding delete_key
delete_key-Inv key c inv = record {
  is_map = delete-IsMap key c.entries inv.is_map;
  no_empty_key = ground (arith, inv.no_empty_key, lookup-delete key "" c.entries);
  bounded = omega (arith, inv.bounded, length-delete-le key c.entries);
  roomy = inv.roomy;
}

-- An entry that is there may be given a new value.
same_keys-Inv :
    (key : String) (e new : CacheEntry) (c : Cache)
    → lookup key c.entries ≡ some e
    → Inv c
    → Inv (record c { entries = insert key new c.entries })
same_keys-Inv key e new c f inv = record {
  is_map = insert-IsMap key new c.entries inv.is_map;
  no_empty_key =
      ground (arith, inv.no_empty_key, eq_iff key "", lookup-insert key "" new c.entries);
  bounded = omega (arith, inv.bounded, length-insert_old key new e c.entries f);
  roomy = inv.roomy;
}

stats-Inv : (stats : CacheStats) (c : Cache) → Inv c → Inv (record c { stats = stats })
stats-Inv stats c inv = record {
  is_map = inv.is_map;
  no_empty_key = inv.no_empty_key;
  bounded = inv.bounded;
  roomy = inv.roomy;
}

finish_get-Inv :
    (now : ℕ) (key : String) (found : Option CacheEntry) (c : Cache)
    → lookup key c.entries ≡ found
    → Inv c
    → Inv (finish_get now key found c).0
unfolding finish_get
finish_get-Inv now key none c f inv = stats-Inv _ c inv
finish_get-Inv now key (some e) c f inv = elim (Bool-cases (has_expired now e)) [
  | inl x ↦ rw x (stats-Inv _ (delete_key key c) (delete_key-Inv key c inv))
  | inr x ↦ rw x (
      stats-Inv _
        (record c {
          entries = insert key (record e { hit_count = u64 (e.hit_count + 1) }) c.entries;
        })
        (same_keys-Inv key e (record e { hit_count = u64 (e.hit_count + 1) }) c f inv))
]

cleanup-Inv : (now : ℕ) (c : Cache) → Inv c → Inv (cleanup now c)
unfolding cleanup
cleanup-Inv now c inv = record {
  is_map = delete_if-IsMap (λ k e. has_expired now e) c.entries inv.is_map;
  no_empty_key = ground (
    arith,
    inv.no_empty_key,
    lookup-delete_if (λ k e. has_expired now e) "" c.entries inv.is_map,
  );
  bounded = omega (arith, inv.bounded, length-delete_if-le (λ k e. has_expired now e) c.entries);
  roomy = inv.roomy;
}

clear-Inv : (c : Cache) → Inv c → Inv (clear c)
unfolding clear lookup
clear-Inv c inv = record {
  is_map = tt;
  no_empty_key = refl;
  bounded = omega arith;
  roomy = inv.roomy;
}

pub data Call : Type 0 where
  gets : ℕ → String → Call
  sets : Readings → String → List ℕ → ℕ → Call
  deletes : String → Call
  clears : Call
  cleans : ℕ → Call

unfoldable pub step : Call → Cache → Cache
step (gets now key) c = (get now key c).0
step (sets at key value ttl) c = set at key value ttl c
step (deletes key) c = delete_key key c
step clears c = clear c
step (cleans now) c = cleanup now c

unfoldable pub run : List Call → Cache → Cache
run [] c = c
run (call ∷ calls) c = run calls (step call c)

-- No call stores under the empty key.
abbrev pub NamesKey : Call → Type 0
NamesKey (sets at key value ttl) = str_eq key "" ≡ false
NamesKey _ = Unit {0}

abbrev pub AllNameKeys : List Call → Type 0
AllNameKeys [] = Unit {0}
AllNameKeys (call ∷ calls) = NamesKey call × AllNameKeys calls

step-Inv : (call : Call) (c : Cache) → NamesKey call → Inv c → Inv (step call c)
unfolding step get
step-Inv (gets now key) c n inv = finish_get-Inv now key (lookup key c.entries) c refl inv
step-Inv (sets at key value ttl) c n inv = set-Inv at key value ttl c n inv
step-Inv (deletes key) c n inv = delete_key-Inv key c inv
step-Inv clears c n inv = clear-Inv c inv
step-Inv (cleans now) c n inv = cleanup-Inv now c inv

run-Inv : (calls : List Call) (c : Cache) → AllNameKeys calls → Inv c → Inv (run calls c)
unfolding run
run-Inv [] c n inv = inv
run-Inv (call ∷ calls) c n inv = run-Inv calls (step call c) n.1 (step-Inv call c n.0 inv)

new-Inv : (config : CacheConfig) → 0 < config.max_size → Inv (new_cache config)
unfolding new_cache lookup
new-Inv config h = record {
  is_map = tt;
  no_empty_key = refl;
  bounded = omega arith;
  roomy = omega arith;
}

-- A new cache with a positive limit, after any calls none of which stores under the empty key, has
-- distinct keys, none of them empty, and no more entries than its limit.
pub run_bounded :
    (config : CacheConfig) (calls : List Call)
    → 0 < config.max_size
    → AllNameKeys calls
    → Inv (run calls (new_cache config))
run_bounded config calls h n = run-Inv calls (new_cache config) n (new-Inv config h)

-- The empty key escapes the limit: when it is the oldest of a full cache, nothing is evicted, and
-- storing under a new key makes the cache larger than its limit.
pub empty_key_overflows :
    (at : Readings) (key : String) (value : List ℕ) (ttl : ℕ) (e : CacheEntry) (c : Cache)
    → oldest_of none c.entries ≡ some ("", e)
    → length c.entries ≡ c.max_size
    → lookup key c.entries ≡ none
    → length (set at key value ttl c).entries ≡ c.max_size + 1
unfolding set
empty_key_overflows at key value ttl e c o full absent =
    ground (arith, length-insert_new key (stored at key value ttl c) c.entries absent)
