-- ===== src/Enforcement/Recovery.antt =====
-- The counters of a link after Redis has lost them.
use session_proxy.Base.{ℕ, ◌≡◌, refl, ◌∙◌, true, some, [], ◌==◌, ==_self, any_row}
use session_proxy.Domain.{UsageCounters}
use session_proxy.Store.Redis.{Redis, requests_key, bytes_key, violations_key, missing, number}
use session_proxy.Store.App.{World, ok, AllAnswered, query, command, settle, ◌>>=◌}
use session_proxy.Repo.Guests.{get_usage_by_link, select_usage, usage_of}
use session_proxy.Limiter.{Counters, read_counters, seed_counters, counters_of, int_or_zero}
use session_proxy.Limiter
use session_proxy.Limiter.Flush.{flushed, fits_columns, flush_link_stores}
use session_proxy.Enforcement.{counters_from, seed_from, warm_load}

module _ (rd : Redis) where
  -- Redis holds nothing of the link.
  abbrev pub IsCold : ℕ → rd.Store → Type 0
  IsCold link s =
      (rd.get s (requests_key link) ≡ missing)
      × ((rd.get s (bytes_key link) ≡ missing) × (rd.get s (violations_key link) ≡ missing))

  read-seeded :
      (link : ℕ) (c : Counters) (s : rd.Store)
      → IsCold link s
      → read_counters rd link (seed_counters rd link c s).1 ≡ ok c
  unfolding seed_counters
  read-seeded link c s h = λ i.
      counters_of (int_or_zero (requests i)) (int_or_zero (bytes i)) (int_or_zero (violations i))
    where
      s1 : rd.Store
      s1 = rd.set_nx s (requests_key link) c.requests

      s2 : rd.Store
      s2 = rd.set_nx s1 (bytes_key link) c.bytes

      requests :
          rd.get (rd.set_nx s2 (violations_key link) c.violations) (requests_key link)
          ≡ number c.requests
      requests =
          rd.get-set_nx s2 _ _ _
          ∙ (rd.get-set_nx s1 _ _ _ ∙ (rd.get-set_nx s _ _ _ ∙ rw (==_self link, h.0) refl))

      bytes :
          rd.get (rd.set_nx s2 (violations_key link) c.violations) (bytes_key link) ≡ number c.bytes
      bytes =
          rd.get-set_nx s2 _ _ _
          ∙ (rd.get-set_nx s1 _ _ _
              ∙ rw
                  (
                    ==_self link,
                    rd.get-set_nx s (requests_key link) c.requests (bytes_key link),
                    h.1.0,
                  )
                  refl)

      violations :
          rd.get (rd.set_nx s2 (violations_key link) c.violations) (violations_key link)
          ≡ number c.violations
      violations =
          rd.get-set_nx s2 _ _ _
          ∙ rw
              (
                ==_self link,
                rd.get-set_nx s1 (bytes_key link) c.bytes (violations_key link),
                rd.get-set_nx s (requests_key link) c.requests (violations_key link),
                h.1.1,
              )
              refl

  warm_load-answered :
      (link : ℕ) (w : World rd.Store) (u : UsageCounters)
      → AllAnswered w
      → usage_of link w.db ≡ some u
      → warm_load rd link w ≡ (
        ok tt,
        record w { redis = (seed_counters rd link (counters_from u) w.redis).1; outcomes = [] },
      )
  unfolding warm_load seed_from get_usage_by_link select_usage Limiter.warm_load seed_counters query
      command settle ◌>>=◌
  warm_load-answered link w u h e = simp (h, e)

  -- What a flush wrote, a warm load brings back: after an answered flush of a link that is there
  -- and whose counters read c, with less than 2^31 requests and violations, and a loss of all of Redis, an answered warm load makes the link's
  -- counters read c again.
  pub flush-warm_load :
      (link : ℕ) (w : World rd.Store) (c : Counters) (cold : rd.Store)
      → AllAnswered w
      → read_counters rd link w.redis ≡ ok c
      → any_row (λ l. l.id == link) w.db.shared_links ≡ true
      → fits_columns c ≡ true
      → IsCold link cold
      → read_counters rd link
          (warm_load rd link
            (record (Limiter.flush_link rd link w).1 { redis = cold; outcomes = [] })).1.redis
        ≡ ok c
  flush-warm_load link w c cold h e k f empty =
      rw
        (warm_load-answered link
          (record (Limiter.flush_link rd link w).1 { redis = cold; outcomes = [] })
          (flushed link c w.now) refl (flush_link_stores rd link w c h e k f).0)
        (read-seeded link c cold empty)
