-- ===== src/Enforcement/Tests.antt =====
-- The first request of a link with a request limit, and the theorems of Enforcement at it.
use session_proxy.Base.{
  none, ℕ, ◌≡◌, ◌≢◌, refl, if◌then◌else◌, Bool, true, Option, some, List, [], ◌∷◌, arith,
}
use session_proxy.Base.Bytes.{Bytes, codes}
use session_proxy.Store.Redis.{
  map_redis, MapStore, Key, key_eq, Cell, missing, number, requests_key, bytes_key, violations_key,
  has_member,
}
use session_proxy.Store.App.{World, ok, query, command, settle, ◌>>=◌}
use session_proxy.Policy.{resolve_policies, tighten_all, tighten, min_ptr}
use session_proxy.Blacklist.{match_rules}
use session_proxy.Repo.Policies.{list_for_link, select_policies_for}
use session_proxy.Repo.Blacklists.{rules_for_link, select_rules, with_methods}
use session_proxy.Repo.Guests.{get_usage_by_link, select_usage}
use session_proxy.Limiter.{read_counters}
use session_proxy.Limiter
use session_proxy.LinkService.Status.{IsTerminated}
use session_proxy.Store.Sample.{start, joined, link}
use session_proxy.Enforcement.{
  pass, before_proxy, warm_load, seed_from, resolve, check, settle_blocked, check_limits, judge,
}
use session_proxy.Enforcement.{after_proxy}
use session_proxy.Enforcement.Counting.{after_proxy_counts}
use session_proxy.Domain.{EffectivePolicy}
use session_proxy.Base.Int.{pos}
use session_proxy.Enforcement.Limits.{Ended, check_limits_exact}
use session_proxy.Enforcement.Recovery.{flush-warm_load}
use session_proxy.Enforcement.Calls.{Call, checks, counts, flushes, run, IsTerminated-forever}
use session_proxy.Enforcement.Allowed.{Unblocked, Passes, before_proxy_sound}

abbrev every : Bytes → Bytes → Option Bool
every pattern path = some Bool.true

abbrev after_first : World MapStore
after_first = (before_proxy every map_redis joined 9 (codes "/") (codes "GET") start).1

first_passes :
    before_proxy every map_redis joined 9 (codes "/") (codes "GET") start ≡ (ok pass, after_first)
unfolding before_proxy warm_load seed_from resolve check settle_blocked check_limits judge
    Limiter.warm_load Limiter.seed_counters Limiter.get get_usage_by_link select_usage list_for_link
    select_policies_for rules_for_link select_rules with_methods query command settle
    resolve_policies tighten_all tighten min_ptr match_rules ◌>>=◌
first_passes = refl

before_proxy_sound_example :
    Unblocked every map_redis start.db 100 joined (codes "GET") (codes "/")
    × Passes map_redis start.db 100 joined after_first
before_proxy_sound_example =
    before_proxy_sound every map_redis joined 9 (codes "/") (codes "GET") start after_first pass
      first_passes refl

after_proxy_counts_example :
    ((after_proxy map_redis joined 300 start).0 ≡ ok tt)
    × (((after_proxy map_redis joined 300 start).1.redis.cells (requests_key 4) ≡ number 1)
        × (((after_proxy map_redis joined 300 start).1.redis.cells (bytes_key 4) ≡ number 300)
            × (((after_proxy map_redis joined 300 start).1.redis.cells (violations_key 4) ≡ missing)
                × ((has_member
                        (map_redis.s_members (after_proxy map_redis joined 300 start).1.redis)
                        4
                      ≡ true)
                    × ((j : ℕ)
                        → j ≢ 4
                        → read_counters map_redis j (after_proxy map_redis joined 300 start).1.redis
                          ≡ read_counters map_redis j start.redis)))))
after_proxy_counts_example = after_proxy_counts map_redis joined 300 start refl

abbrev ended : World MapStore
ended = record start {
  db = record start.db { shared_links = record link { status = "terminated" } ∷ [] };
}

abbrev day : List Call
day = checks joined 9 (codes "/") (codes "GET") ∷ counts joined 300 ∷ flushes ∷ []

IsTerminated-forever_example : IsTerminated 4 (run every map_redis ended day).db
IsTerminated-forever_example =
    IsTerminated-forever every map_redis 4 day ended (omega arith, ((λ _. refl), tt))

abbrev two_requests : Key → Cell
two_requests k = if key_eq k (requests_key 4) then number 2 else missing

abbrev two_counted : World MapStore
two_counted = record start { redis = record { cells = two_requests; members = 4 ∷ [] } }

flush-warm_load_example :
    read_counters map_redis 4
      (warm_load map_redis 4 (record (Limiter.flush_link map_redis 4 two_counted).1 {
        redis = start.redis;
        outcomes = [];
      })).1.redis
    ≡ ok (record { requests = 2; bytes = 0; violations = 0 })
flush-warm_load_example =
    flush-warm_load map_redis 4 two_counted (record { requests = 2; bytes = 0; violations = 0 })
      start.redis refl refl refl refl (refl, (refl, refl))

abbrev two_allowed : EffectivePolicy
two_allowed = record {
  max_requests = some (pos 2);
  max_bytes_transferred = none;
  max_ttl_seconds = none;
  max_violation_count = pos 3;
}

check_limits_exact_example :
    Ended 4 link 403 "request_limit" two_counted
      (check_limits map_redis joined two_allowed two_counted)
check_limits_exact_example =
    check_limits_exact map_redis joined two_allowed link two_counted
      (record {
        calls = refl;
        found = refl;
        active = refl;
        known = (refl, (refl, (refl, (refl, tt))));
      })
      (record { requests = 2; bytes = 0; violations = 0 }) refl
