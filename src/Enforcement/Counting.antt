-- ===== src/Enforcement/Counting.antt =====
-- What AfterProxy counts.
use session_proxy.Base.{
  ℕ, ◌≡◌, ◌≢◌, refl, ◌∙◌, String, true, false, if◌then◌else◌, List, [], ◌∷◌, arith, ◌==◌, ==_iff,
  ==_self,
}
use session_proxy.Domain.{LinkWithSession}
use session_proxy.Store.Redis.{
  Redis, Key, key_eq, requests_key, bytes_key, violations_key, bumped, has_member,
}
use session_proxy.Store.App.{
  App, World, Result, ok, err, AllAnswered, Statement, Outcome, answered, refused, unacknowledged,
  query, command, settle, ◌>>=◌,
}
use session_proxy.Store.Keeps.{Keeps, keeps_rules}
use session_proxy.Repo.Links
use session_proxy.Repo.Policies.{list_for_link}
use session_proxy.Repo.Logs.{create_termination}
use session_proxy.Limiter.{Counters, read_counters, counters_of, int_or_zero}
use session_proxy.Limiter
use session_proxy.LinkService
use session_proxy.Enforcement.{
  notify, after_termination, auto_terminate, resolve, recheck, recheck_limits, after_proxy,
}

-- Redis is as it was.
abbrev SameRedis : {R A : Type 0} → R → App R A → Type 0
SameRedis s m = Keeps (λ w. w.redis ≡ s) m

module _ (rd : Redis) (s : rd.Store) where
  query-same : {A : Type 0} (q : Statement A) → SameRedis s (query q)
  unfolding query
  query-same q = record { at = λ w h. h }

  read-same : {A : Type 0} (f : rd.Store → Result A) → SameRedis s (command (λ s. (f s, s)))
  unfolding command settle
  read-same {A} f = record { at = λ w h. go w.outcomes w.redis ∙ h }
    where
      go : (os : List Outcome) (s : rd.Store) → (settle os s (f s, s)).1 ≡ s
      go [] s = refl
      go (answered ∷ os) s = refl
      go (refused ∷ os) s = refl
      go (unacknowledged ∷ os) s = refl

  link-same : (link : ℕ) (reason : String) → SameRedis s (LinkService.auto_terminate link reason)
  unfolding LinkService.auto_terminate LinkService.record_termination Links.get_by_id
      Links.update_status create_termination
  link-same link reason = search (keeps_rules, query-same)

  after_termination-same :
      (link : ℕ) (reason : String) (r : Result (Unit {0}))
      → SameRedis s (after_termination link reason r)
  unfolding after_termination notify
  after_termination-same link reason (ok u) = record { at = λ w h. h }
  after_termination-same link reason (err e) = search keeps_rules

  terminate-same : (link : ℕ) (reason : String) → SameRedis s (auto_terminate link reason)
  unfolding auto_terminate
  terminate-same link reason = search (keeps_rules, link-same, after_termination-same)

  resolve-same : (link : ℕ) → SameRedis s (resolve link)
  unfolding resolve list_for_link
  resolve-same link = search (keeps_rules, query-same)

  recheck-same : (link : ℕ) → SameRedis s (recheck_limits rd link)
  unfolding recheck_limits recheck Limiter.get
  recheck-same link = search (keeps_rules, terminate-same, resolve-same, read-same) depth 8

module _ (rd : Redis) where
  -- Redis after the two increments.
  abbrev bumped_and_marked : ℕ → Key → ℕ → rd.Store → rd.Store
  bumped_and_marked link key n s = rd.s_add (rd.incr_by s key n).0 link

  abbrev counted : ℕ → ℕ → rd.Store → rd.Store
  counted link n s =
      bumped_and_marked link (bytes_key link) n (bumped_and_marked link (requests_key link) 1 s)

  after_proxy-answered :
      (l : LinkWithSession) (n : ℕ) (w : World rd.Store)
      → AllAnswered w
      → after_proxy rd l n w ≡ (
        ok tt,
        (recheck_limits rd l.link.id
            (record w { redis = counted l.link.id n w.redis; outcomes = [] })).1,
      )
  unfolding after_proxy Limiter.incr_requests Limiter.incr_bytes Limiter.incr_and_mark_dirty
      Limiter.bump_and_mark command settle ◌>>=◌
  after_proxy-answered l n w h = simp h

  get-marked :
      (link : ℕ) (key : Key) (n : ℕ) (s : rd.Store) (j : Key)
      → rd.get (bumped_and_marked link key n s) j
        ≡ (if key_eq key j then bumped (rd.get s key) n else rd.get s j)
  get-marked link key n s j = rd.get-s_add _ link j ∙ rd.get-incr_by s key n j

  requests-counted :
      (link n : ℕ) (s : rd.Store)
      → rd.get (counted link n s) (requests_key link) ≡ bumped (rd.get s (requests_key link)) 1
  requests-counted link n s =
      get-marked link (bytes_key link) n _ (requests_key link)
      ∙ (get-marked link (requests_key link) 1 s (requests_key link) ∙ rw (==_self link) refl)

  bytes-counted :
      (link n : ℕ) (s : rd.Store)
      → rd.get (counted link n s) (bytes_key link) ≡ bumped (rd.get s (bytes_key link)) n
  bytes-counted link n s =
      get-marked link (bytes_key link) n _ (bytes_key link)
      ∙ rw (==_self link, get-marked link (requests_key link) 1 s (bytes_key link)) refl

  violations-counted :
      (link n : ℕ) (s : rd.Store) (j : ℕ)
      → rd.get (counted link n s) (violations_key j) ≡ rd.get s (violations_key j)
  violations-counted link n s j =
      get-marked link (bytes_key link) n _ (violations_key j)
      ∙ get-marked link (requests_key link) 1 s (violations_key j)

  others-counted :
      (link n : ℕ) (s : rd.Store) (j : ℕ)
      → (link == j) ≡ false
      → read_counters rd j (counted link n s) ≡ read_counters rd j s
  others-counted link n s j e = λ i.
      counters_of (int_or_zero (requests i)) (int_or_zero (bytes i))
        (int_or_zero (violations-counted link n s j i))
    where
      requests : rd.get (counted link n s) (requests_key j) ≡ rd.get s (requests_key j)
      requests =
          get-marked link (bytes_key link) n _ (requests_key j)
          ∙ (get-marked link (requests_key link) 1 s (requests_key j) ∙ rw e refl)

      bytes : rd.get (counted link n s) (bytes_key j) ≡ rd.get s (bytes_key j)
      bytes =
          get-marked link (bytes_key link) n _ (bytes_key j)
          ∙ rw (e, get-marked link (requests_key link) 1 s (bytes_key j)) refl

  marked : (link n : ℕ) (s : rd.Store) → has_member (rd.s_members (counted link n s)) link ≡ true
  marked link n s = rd.members-s_add _ link link ∙ rw (==_self link) refl

  -- AfterProxy, when every call is answered, succeeds and raises the link's request counter by one
  -- and its byte counter by the bytes of the response, up to the int64 bound of Redis. It leaves
  -- the violation counter and the counters of every other link, and marks the link dirty.
  pub after_proxy_counts :
      (l : LinkWithSession) (n : ℕ) (w : World rd.Store)
      → AllAnswered w
      → ((after_proxy rd l n w).0 ≡ ok tt)
        × ((rd.get (after_proxy rd l n w).1.redis (requests_key l.link.id)
              ≡ bumped (rd.get w.redis (requests_key l.link.id)) 1)
            × ((rd.get (after_proxy rd l n w).1.redis (bytes_key l.link.id)
                  ≡ bumped (rd.get w.redis (bytes_key l.link.id)) n)
                × ((rd.get (after_proxy rd l n w).1.redis (violations_key l.link.id)
                      ≡ rd.get w.redis (violations_key l.link.id))
                    × ((has_member (rd.s_members (after_proxy rd l n w).1.redis) l.link.id ≡ true)
                        × ((j : ℕ)
                            → j ≢ l.link.id
                            → read_counters rd j (after_proxy rd l n w).1.redis
                              ≡ read_counters rd j w.redis)))))
  after_proxy_counts l n w h =
      rw
        (
          after_proxy-answered l n w h,
          (recheck-same rd (counted l.link.id n w.redis) l.link.id).at
              (record w { redis = counted l.link.id n w.redis; outcomes = [] }) refl,
        )
        (
          refl,
          (
            requests-counted _ n _,
            (
              bytes-counted _ n _,
              (
                violations-counted _ n _ _,
                (marked _ n _, λ j k. others-counted _ n _ j (ground (arith, ==_iff l.link.id j))),
              ),
            ),
          ),
        )
