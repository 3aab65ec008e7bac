-- ===== src/Limiter/Flush.antt =====
-- What a flush copies to usage_counters, and what a warm load brings back to Redis.
use session_proxy.Base.{
  Bool, ℕ, ◌≡◌, refl, ap, ◌∙◌, true, false, some, List, [], ◌∷◌, ◌++◌, arith, ◌==◌, ==_self,
  first_row, any_row, update_rows, Bool-cases, inl, inr,
}
use session_proxy.Domain.{UsageCounters}
use session_proxy.Store.Db.{Db}
use session_proxy.Store.Redis.{Redis, requests_key, bytes_key, violations_key, has_member, bumped}
use session_proxy.Store.App.{
  App, attempt, ◌>>◌, World, ok, AllAnswered, query, command, settle, ◌>>=◌,
}
use session_proxy.Repo.Guests.{upsert, upsert_usage, usage_of, usage_fits}
use session_proxy.Limiter.{
  Counters, read_counters, get, store_counters, clear_flushed, clear_dirty, flush_link,
  incr_requests, incr_and_mark_dirty, bump_and_mark,
}

-- The row that a flush writes.
abbrev pub flushed : ℕ → Counters → ℕ → UsageCounters
flushed link c now = record {
  shared_link_id = link;
  request_count = c.requests;
  bytes_transferred = c.bytes;
  violation_count = c.violations;
  updated_at = now;
}

-- The counters that the int columns of usage_counters hold.
abbrev pub fits_columns : Counters → Bool
fits_columns c = usage_fits (flushed 0 c 0)

usage_updated :
    (link : ℕ) (row : UsageCounters) (us : List UsageCounters)
    → row.shared_link_id ≡ link
    → any_row (λ u. u.shared_link_id == link) us ≡ true
    → first_row
        (λ u. u.shared_link_id == link)
        (update_rows (λ u. u.shared_link_id == link) (λ u. row) us)
      ≡ some row
usage_updated link row [] e h = cc
usage_updated link row (u ∷ us) e h = elim (Bool-cases (u.shared_link_id == link)) [
  | inl t ↦ rw (t, ap (λ k. k == link) e ∙ ==_self link) refl
  | inr f ↦ rw (f, f) (usage_updated link row us e (ground arith))
]

usage_added :
    (link : ℕ) (row : UsageCounters) (us : List UsageCounters)
    → row.shared_link_id ≡ link
    → any_row (λ u. u.shared_link_id == link) us ≡ false
    → first_row (λ u. u.shared_link_id == link) (us ++ row ∷ []) ≡ some row
usage_added link row [] e h = ground (arith, ==_self link)
usage_added link row (u ∷ us) e h = ground (arith, usage_added link row us e)

pub upsert_usage-stored :
    (link : ℕ) (c : Counters) (now : ℕ) (d : Db)
    → any_row (λ l. l.id == link) d.shared_links ≡ true
    → fits_columns c ≡ true
    → ((upsert_usage (flushed link c 0) now d).0 ≡ ok tt)
      × (usage_of link (upsert_usage (flushed link c 0) now d).1 ≡ some (flushed link c now))
unfolding upsert_usage
upsert_usage-stored link c now d h f =
    elim (Bool-cases (any_row (λ u. u.shared_link_id == link) d.usage_counters)) [
      | inl e ↦ rw (f, e) (refl, usage_updated link _ d.usage_counters refl e)
      | inr e ↦ rw (f, e, h) (refl, usage_added link _ d.usage_counters refl e)
    ]

module _ (rd : Redis) where
  -- A flush of a link whose counters can be read.
  pub flush_link-answered :
      (link : ℕ) (w : World rd.Store) (c : Counters)
      → AllAnswered w
      → read_counters rd link w.redis ≡ ok c
      → any_row (λ l. l.id == link) w.db.shared_links ≡ true
      → fits_columns c ≡ true
      → flush_link rd link w ≡ (
        ok tt,
        record w {
          db = (upsert_usage (flushed link c 0) w.now w.db).1;
          redis = rd.s_rem w.redis link;
          outcomes = [];
        },
      )
  unfolding flush_link get store_counters clear_flushed clear_dirty upsert query command settle
      ◌>>=◌
  flush_link-answered link w c h e k f = simp (h, e, (upsert_usage-stored link c w.now w.db k f).0)

  pub read-flushed :
      (link : ℕ) (s : rd.Store) (j : ℕ)
      → read_counters rd j (rd.s_rem s link) ≡ read_counters rd j s
  read-flushed link s j =
      rw
        (
          rd.get-s_rem s link (requests_key j),
          rd.get-s_rem s link (bytes_key j),
          rd.get-s_rem s link (violations_key j),
        )
        refl

  unmarked : (link : ℕ) (s : rd.Store) → has_member (rd.s_members (rd.s_rem s link)) link ≡ false
  unmarked link s = rd.members-s_rem s link link ∙ rw (==_self link) refl

  -- flush of one link, when every call is answered, the link is there and its counters can be
  -- read and are below 2^31 requests and violations: the row of the link in usage_counters then holds those counters and the current time,
  -- the link is no longer dirty, and the counters of every link in Redis are what they were.
  pub flush_link_stores :
      (link : ℕ) (w : World rd.Store) (c : Counters)
      → AllAnswered w
      → read_counters rd link w.redis ≡ ok c
      → any_row (λ l. l.id == link) w.db.shared_links ≡ true
      → fits_columns c ≡ true
      → (usage_of link (flush_link rd link w).1.db ≡ some (flushed link c w.now))
        × ((has_member (rd.s_members (flush_link rd link w).1.redis) link ≡ false)
            × ((j : ℕ)
                → read_counters rd j (flush_link rd link w).1.redis ≡ read_counters rd j w.redis))
  flush_link_stores link w c h e k f = rw (flush_link-answered link w c h e k f) (
    (upsert_usage-stored link c w.now w.db k f).1,
    (unmarked link w.redis, read-flushed link w.redis),
  )

  -- A request that another goroutine counts after the flush has read the counters.
  unfoldable pub overtaken_flush : ℕ → App rd.Store (Unit {0})
  overtaken_flush link = do
    counters ← attempt (get rd link)
    attempt (incr_requests rd link)
    store_counters rd link counters

  overtaken-answered :
      (link : ℕ) (w : World rd.Store) (c : Counters)
      → AllAnswered w
      → read_counters rd link w.redis ≡ ok c
      → any_row (λ l. l.id == link) w.db.shared_links ≡ true
      → fits_columns c ≡ true
      → overtaken_flush link w ≡ (
        ok tt,
        record w {
          db = (upsert_usage (flushed link c 0) w.now w.db).1;
          redis = rd.s_rem (rd.s_add (rd.incr_by w.redis (requests_key link) 1).0 link) link;
          outcomes = [];
        },
      )
  unfolding overtaken_flush get incr_requests incr_and_mark_dirty bump_and_mark store_counters
      clear_flushed clear_dirty upsert query command settle ◌>>=◌
  overtaken-answered link w c h e k f = simp (h, e, (upsert_usage-stored link c w.now w.db k f).0)

  requests-overtaken :
      (link : ℕ) (s : rd.Store)
      → rd.get
          (rd.s_rem (rd.s_add (rd.incr_by s (requests_key link) 1).0 link) link)
          (requests_key link)
        ≡ bumped (rd.get s (requests_key link)) 1
  requests-overtaken link s =
      rd.get-s_rem _ link _
      ∙ (rd.get-s_add _ link _ ∙ (rd.get-incr_by s _ 1 _ ∙ rw (==_self link) refl))

  -- A flush between whose read and whose write a request is counted, when every call is answered,
  -- the link is there and its counters can be read and are below 2^31 requests and violations:
  -- Redis has counted the request, usage_counters holds the counters without it, and the link is
  -- not dirty, so the next flush does not copy the request either.
  pub increment_loses_mark :
      (link : ℕ) (w : World rd.Store) (c : Counters)
      → AllAnswered w
      → read_counters rd link w.redis ≡ ok c
      → any_row (λ l. l.id == link) w.db.shared_links ≡ true
      → fits_columns c ≡ true
      → (rd.get (overtaken_flush link w).1.redis (requests_key link)
          ≡ bumped (rd.get w.redis (requests_key link)) 1)
        × ((usage_of link (overtaken_flush link w).1.db ≡ some (flushed link c w.now))
            × (has_member (rd.s_members (overtaken_flush link w).1.redis) link ≡ false))
  increment_loses_mark link w c h e k f = rw (overtaken-answered link w c h e k f) (
    requests-overtaken link w.redis,
    ((upsert_usage-stored link c w.now w.db k f).1, unmarked link _),
  )
