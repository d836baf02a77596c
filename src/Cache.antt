-- ===== src/Cache.antt =====
-- apps/carrier-connector/internal/infra/cache.go. Times and durations are nanoseconds; an int64
-- counter is its bit pattern below 2 ^ 64; the size limit is not negative. The list of entries is in
-- the order in which `range` visits the map. A value is its list of bytes. The ticker that calls
-- `cleanup` each minute and the floating-point hit rate of `Stats` are left out.
pub mod Lookup
pub mod Oldest
pub mod Size
pub mod Race
mod Examples
use text.Mathlib.Text.{◌==◌ as str_eq}
use telecom_platform.Base.{
  ℕ, ◌+◌, ◌-◌, ◌*◌, Bool, true, false, not, Option, none, some, List, [], ◌∷◌, String, ltb, leb,
  ◌==◌, length, if◌then◌else◌, u64, Dict, lookup, insert, delete, delete_if,
}

pub data CacheStrategy : Type 0 where
  strategy_lru strategy_ttl strategy_write_thru strategy_write_back strategy_read_thru :
      CacheStrategy

pub record CacheEntry : Type 0 where
  pub key : String
  pub value : List ℕ
  pub expires_at : ℕ
  pub created_at : ℕ
  pub hit_count : ℕ

pub record CacheStats : Type 0 where
  pub hits : ℕ
  pub misses : ℕ
  pub sets : ℕ
  pub deletes : ℕ
  pub evictions : ℕ

pub record Cache : Type 0 where
  pub entries : Dict CacheEntry
  pub max_size : ℕ
  pub default_ttl : ℕ
  pub strategy : CacheStrategy
  pub stats : CacheStats

pub record CacheConfig : Type 0 where
  pub max_size : ℕ
  pub default_ttl : ℕ
  pub strategy : CacheStrategy

unfoldable pub default_cache_config : CacheConfig
default_cache_config = record {
  max_size = 10000;
  default_ttl = 5 * 60 * 1000000000;
  strategy = strategy_ttl;
}

unfoldable pub new_cache : CacheConfig → Cache
new_cache config = record {
  entries = [];
  max_size = config.max_size;
  default_ttl = config.default_ttl;
  strategy = config.strategy;
  stats = record { hits = 0; misses = 0; sets = 0; deletes = 0; evictions = 0 };
}

unfoldable pub delete_key : String → Cache → Cache
delete_key key c = record c {
  entries = delete key c.entries;
  stats = record c.stats { deletes = u64 (c.stats.deletes + 1) };
}

abbrev add_miss : Cache → Cache
add_miss c = record c { stats = record c.stats { misses = u64 (c.stats.misses + 1) } }

abbrev has_expired : ℕ → CacheEntry → Bool
has_expired now e = ltb e.expires_at now

-- `entry.HitCount++` goes through the pointer that the map still holds.
hit : String → CacheEntry → Cache → Cache
hit key e c = record c {
  entries = insert key (record e { hit_count = u64 (e.hit_count + 1) }) c.entries;
  stats = record c.stats { hits = u64 (c.stats.hits + 1) };
}

-- `Get` after it has looked the entry up and given up the read lock.
unfoldable pub finish_get : ℕ → String → Option CacheEntry → Cache → Cache × Option (List ℕ)
unfolding delete_key hit
finish_get now key none c = (add_miss c, none)
finish_get now key (some e) c =
    if has_expired now e then (add_miss (delete_key key c), none) else (hit key e c, some e.value)

-- `Get` when nothing else happens between its locks.
unfoldable pub get : ℕ → String → Cache → Cache × Option (List ℕ)
unfolding finish_get
get now key c = finish_get now key (lookup key c.entries) c

abbrev older : CacheEntry → Option (String × CacheEntry) → Bool
older e none = true
older e (some (k, o)) = ltb e.created_at o.created_at

-- The loop of `evict`, from the oldest entry seen so far.
unfoldable pub oldest_of :
    Option (String × CacheEntry) → Dict CacheEntry → Option (String × CacheEntry)
oldest_of oldest [] = oldest
oldest_of oldest ((k, e) ∷ m) = oldest_of (if older e oldest then some (k, e) else oldest) m

-- `if oldestKey != ""`, where the key is empty too when there was no entry.
evict_entry : Option (String × CacheEntry) → Cache → Cache
evict_entry none c = c
evict_entry (some (k, e)) c = if str_eq k "" then c else record c {
  entries = delete k c.entries;
  stats = record c.stats { evictions = u64 (c.stats.evictions + 1) };
}

unfoldable pub evict : Cache → Cache
unfolding evict_entry oldest_of
evict c = evict_entry (oldest_of none c.entries) c

-- The two readings of the clock in `Set`.
pub record Readings : Type 0 where
  pub expiry : ℕ
  pub creation : ℕ

abbrev pub effective_ttl : ℕ → Cache → ℕ
effective_ttl ttl c = if ttl == 0 then c.default_ttl else ttl

store : Readings → String → List ℕ → ℕ → Cache → Cache
store at key value ttl c = record c {
  entries =
      insert key
        (record {
          key = key;
          value = value;
          expires_at = at.expiry + ttl;
          created_at = at.creation;
          hit_count = 0;
        })
        c.entries;
  stats = record c.stats { sets = u64 (c.stats.sets + 1) };
}

-- `Set`, whose error is always nil.
unfoldable pub set : Readings → String → List ℕ → ℕ → Cache → Cache
unfolding evict store
set at key value ttl c =
    store at key value (effective_ttl ttl c)
      (if leb c.max_size (length c.entries) then evict c else c)

unfoldable pub clear : Cache → Cache
clear c = record c { entries = [] }

unfoldable pub cleanup : ℕ → Cache → Cache
cleanup now c =
    let kept = delete_if (λ k e. has_expired now e) c.entries in
    record c {
      entries = kept;
      stats = record c.stats {
        evictions = u64 (c.stats.evictions + (length c.entries - length kept));
      };
    }

pub data Fetched (A : Type 0) : Type 0 where
  absent malformed : Fetched A
  present : A → Fetched A

-- `json.Marshal` and `json.Unmarshal` are parameters; `none` is their error.
module _ {A : Type 0} (marshal : A → Option (List ℕ)) (unmarshal : List ℕ → Option A) where
  set_bytes : Readings → String → ℕ → Option (List ℕ) → Cache → Option Cache
  set_bytes at key ttl none c = none
  set_bytes at key ttl (some bytes) c = some (set at key bytes ttl c)

  unfoldable pub set_json : Readings → String → A → ℕ → Cache → Option Cache
  unfolding set_bytes
  set_json at key value ttl c = set_bytes at key ttl (marshal value) c

  decoded : Option A → Fetched A
  decoded none = malformed
  decoded (some a) = present a

  fetched : Option (List ℕ) → Fetched A
  unfolding decoded
  fetched none = absent
  fetched (some bytes) = decoded (unmarshal bytes)

  unfoldable pub get_json : ℕ → String → Cache → Cache × Fetched A
  unfolding fetched
  get_json now key c = let (c', found) = get now key c in (c', fetched found)
