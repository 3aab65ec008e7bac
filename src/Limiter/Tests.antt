-- ===== src/Limiter/Tests.antt =====
-- A dirty link of the sample state, and the theorems of Limiter at it.
use session_proxy.Base.{if◌then◌else◌, ◌≡◌, refl, false, some, [], ◌∷◌, ℕ, true}
use session_proxy.Store.App.{World, command, settle, query, ◌>>=◌}
use session_proxy.Store.Redis.{
  map_redis, MapStore, Cell, number, missing, Key, key_eq, requests_key, bytes_key, has_member,
}
use session_proxy.Store.Sample.{start}
use session_proxy.Repo.Guests.{usage_of, upsert, upsert_usage}
use session_proxy.Limiter.{
  Counters, read_counters, flush_link, flush_once, run, done, ticked, ok, flush_listed, flush_links,
  get, store_counters, clear_flushed, clear_dirty, dirty_link_ids, upsert, command, ◌>>=◌,
}
use session_proxy.Limiter.Drain.{flush_once_drains}
use session_proxy.Limiter.Flush.{flushed, overtaken_flush, increment_loses_mark}

abbrev cells : Key → Cell
cells k =
    if key_eq k (requests_key 4)
    then number 2
    else if key_eq k (bytes_key 4)
    then number 300
    else missing

abbrev counted : Counters
counted = record { requests = 2; bytes = 300; violations = 0 }

abbrev dirty : World MapStore
dirty = record start { redis = record { cells = cells; members = 4 ∷ [] } }

increment_loses_mark_example :
    ((overtaken_flush map_redis 4 dirty).1.redis.cells (requests_key 4) ≡ number 3)
    × ((usage_of 4 (overtaken_flush map_redis 4 dirty).1.db ≡ some (flushed 4 counted 100))
        × (has_member (map_redis.s_members (overtaken_flush map_redis 4 dirty).1.redis) 4 ≡ false))
increment_loses_mark_example = increment_loses_mark map_redis 4 dirty counted refl refl refl refl

flush_once_drains_example :
    ((flush_once map_redis dirty).0 ≡ ok tt)
    × (((j : ℕ) → has_member (map_redis.s_members (flush_once map_redis dirty).1.redis) j ≡ false)
        × (((j : ℕ) (c : Counters)
              → has_member (map_redis.s_members dirty.redis) j ≡ true
              → read_counters map_redis j dirty.redis ≡ ok c
              → usage_of j (flush_once map_redis dirty).1.db ≡ some (flushed j c 100))
            × (((j : ℕ)
                  → has_member (map_redis.s_members dirty.redis) j ≡ false
                  → usage_of j (flush_once map_redis dirty).1.db ≡ usage_of j dirty.db)
                × ((j : ℕ)
                    → read_counters map_redis j (flush_once map_redis dirty).1.redis
                      ≡ read_counters map_redis j dirty.redis))))
flush_once_drains_example =
    flush_once_drains map_redis dirty refl ((refl, (counted, (refl, refl))), tt)

-- A tick, and then the cancelled context: the tick behind it does nothing.
run_test : run map_redis (ticked ∷ done ∷ ticked ∷ []) dirty ≡ flush_once map_redis dirty
unfolding run flush_once flush_listed flush_links flush_link get store_counters clear_flushed
    clear_dirty dirty_link_ids upsert command settle query ◌>>=◌ upsert_usage
run_test = refl
