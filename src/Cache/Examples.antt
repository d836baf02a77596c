-- ===== src/Cache/Examples.antt =====
-- Witnesses and tests for apps/carrier-connector/internal/infra/cache.go.
use telecom_platform.Base.{
  ℕ, ◌+◌, ◌<◌, ◌≡◌, refl, Option, none, some, List, [], ◌∷◌, arith, length, lookup,
}
use telecom_platform.Cache.{
  CacheConfig, CacheEntry, Cache, Readings, new_cache, strategy_lru, get, set, finish_get,
  delete_key, cleanup, evict, oldest_of, set_json, get_json, present,
}
use telecom_platform.Cache.Lookup.{get_value, get-set, get-delete, get-cleanup, get_json-set_json}
use telecom_platform.Cache.Oldest.{evict_lem}
use telecom_platform.Cache.Size.{
  Inv, Call, gets, sets, deletes, cleans, run, run_bounded, empty_key_overflows,
}
use telecom_platform.Cache.Race.{stale_get_drops}

abbrev entry : ℕ → CacheEntry
entry t = record { key = "a"; value = 7 ∷ []; expires_at = t + 10; created_at = t; hit_count = 0 }

abbrev config : CacheConfig
config = record { max_size = 2; default_ttl = 100; strategy = strategy_lru }

abbrev two : Cache
two = record {
  entries = ("a", entry 3) ∷ ("b", entry 1) ∷ [];
  max_size = 2;
  default_ttl = 100;
  strategy = strategy_lru;
  stats = record { hits = 0; misses = 0; sets = 0; deletes = 0; evictions = 0 };
}

abbrev at : ℕ → Readings
at t = record { expiry = t; creation = t }

get_value_example : (get 13 "a" two).1 ≡ some (7 ∷ [])
unfolding lookup
get_value_example = (get_value 13 "a" two (7 ∷ [])).1 (entry 3, refl, omega arith, refl)

get-set_example : (get 120 "c" (set (at 20) "c" (1 ∷ []) 0 two)).1 ≡ some (1 ∷ [])
get-set_example = get-set (at 20) "c" (1 ∷ []) 0 120 two

get-delete_example : (get 4 "a" (delete_key "a" two)).1 ≡ none
get-delete_example = (get-delete 4 "a" two).0

get-cleanup_example : (get 13 "a" (cleanup 12 two)).1 ≡ (get 13 "a" two).1
get-cleanup_example = (get-cleanup 12 13 "a" two ((refl, tt), (tt, tt)) (omega arith)).0

evict_lem_example : length (evict two).entries < 2
unfolding lookup
evict_lem_example = (evict_lem two ((refl, tt), (tt, tt)) (λ q. ground arith) refl).4

abbrev calls : List Call
calls =
    sets (at 1) "a" [] 5
    ∷ sets (at 2) "b" [] 5
    ∷ gets 3 "a"
    ∷ sets (at 4) "c" [] 5
    ∷ deletes "b"
    ∷ cleans 9
    ∷ []

run_bounded_example : Inv (run calls (new_cache config))
unfolding new_cache
run_bounded_example =
    run_bounded config calls (omega arith) (refl, (refl, (tt, (refl, (tt, (tt, tt))))))

abbrev with_empty : Cache
with_empty = record two { entries = ("a", entry 3) ∷ ("", entry 1) ∷ [] }

empty_key_overflows_example : length (set (at 20) "c" [] 0 with_empty).entries ≡ 3
unfolding oldest_of lookup
empty_key_overflows_example =
    empty_key_overflows (at 20) "c" [] 0 (entry 1) with_empty refl refl refl

stale_get_drops_example :
    (get 21 "a" (finish_get 20 "a" (lookup "a" two.entries) (set (at 20) "a" [] 50 two)).0).1 ≡ none
unfolding lookup
stale_get_drops_example =
    (stale_get_drops 20 21 (at 20) "a" [] 50 (entry 3) two refl (omega arith) (omega arith)).0

abbrev decode : List ℕ → Option ℕ
decode [] = none
decode (n ∷ rest) = some n

abbrev encode : ℕ → Option (List ℕ)
encode n = some (n ∷ [])

decode-encode : (a : ℕ) (bytes : List ℕ) → encode a ≡ some bytes → decode bytes ≡ some a
decode-encode a bytes h = ground arith

get_json-set_json_example :
    (get_json encode decode 30 "c" (set (at 20) "c" (9 ∷ []) 50 two)).1 ≡ present 9
unfolding set_json
get_json-set_json_example =
    get_json-set_json encode decode decode-encode (at 20) "c" 9 50 30 two
      (set (at 20) "c" (9 ∷ []) 50 two) refl (omega arith)
