-- ===== src/Cache/Race.antt =====
-- apps/carrier-connector/internal/infra/cache.go: a `Get` that gives up the read lock and then
-- deletes under the write lock, with another call in between.
use text.Mathlib.TextEquality.{eq_iff}
use telecom_platform.Base.{
  ℕ, ◌+◌, ◌≤◌, ◌<◌, ◌≡◌, none, some, List, String, arith, lookup, lookup-delete,
}
use telecom_platform.Cache.{
  CacheEntry, Cache, Readings, finish_get, get, set, effective_ttl, delete_key,
}
use telecom_platform.Cache.Lookup.{get-set}

-- A `Get` that found an expired entry, and then lost the lock to a `Set` of the same key, deletes
-- the fresh entry: a `Get` after it finds nothing, though without it one would find the value for
-- the whole of its time to live.
pub stale_get_drops :
    (now later : ℕ) (at : Readings) (key : String) (value : List ℕ) (ttl : ℕ) (old : CacheEntry)
    (c : Cache)
    → lookup key c.entries ≡ some old
    → old.expires_at < now
    → later ≤ at.expiry + effective_ttl ttl c
    → ((get later key (finish_get now key (lookup key c.entries) (set at key value ttl c)).0).1
        ≡ none)
      × ((get later key (set at key value ttl c)).1 ≡ some value)
unfolding get finish_get delete_key
stale_get_drops now later at key value ttl old c found expired fresh = (
  rw found (ground (arith, eq_iff key key, lookup-delete key key (set at key value ttl c).entries)),
  ground (arith, get-set at key value ttl later c),
)
