-- ===== src/Enforcement/Allowed.antt =====
-- What BeforeProxy has checked when it lets a request through.
use session_proxy.Base.{
  ℕ, ◌≡◌, refl, sym, ap, subst, ◌∙◌, Bool, true, false, Option, none, some, arith,
}
use session_proxy.Base.Int.{pos, leb_ℤ}
use session_proxy.Base.Bytes.{Bytes}
use session_proxy.Domain.{
  reason_violation_limit, LinkWithSession, EffectivePolicy, BlacklistedEndpoint,
}
use session_proxy.Blacklist.{match_rules}
use session_proxy.Store.Db.{Db}
use session_proxy.Store.Redis.{Redis}
use session_proxy.Store.App.{App, World, Result, ok, pure, ◌>>=◌}
use session_proxy.Store.Ensures.{
  Post, Ensures, Ensures-pure, Ensures-gets, Ensures-command, Ensures-bind, Ensures-if,
  Ensures-weaken, Ensures-nothing, Ensures-given, Ensures-assume,
}
use session_proxy.Repo.Blacklists.{rules_of}
use session_proxy.Limiter.{Counters, read_counters}
use session_proxy.Limiter
use session_proxy.Enforcement.{
  auto_terminate, refuse, Verdict, at_limit, past_ttl, auto_terminate, judge_violations,
  record_violation, judge, check_limits, check, settle_blocked, before_proxy,
}
use session_proxy.Enforcement.Reads.{filled, limits_of, At, warm_load-At, resolve-At, rules-At}

module _ (rd : Redis) (d : Db) (t : ℕ) where
  -- No numeric limit is met.
  abbrev pub Within : EffectivePolicy → Counters → Type 0
  Within e c =
      (at_limit e.max_requests c.requests ≡ false)
      × ((at_limit e.max_bytes_transferred c.bytes ≡ false)
          × (leb_ℤ e.max_violation_count (pos c.violations) ≡ false))

  -- The counters in Redis are within the limits.
  pub record CountersWithin (link : ℕ) (e : EffectivePolicy) (w : World rd.Store) : Type 0 where
    pub counters : Counters
    pub read : read_counters rd link w.redis ≡ ok counters
    pub within : Within e counters

  unpassed :
      {P : World rd.Store → Type 0} (v : Verdict) (Q : Verdict → World rd.Store → Type 0)
      → v.allowed ≡ false
      → Ensures P (pure v) (λ v w. v.allowed ≡ true → Q v w)
  unpassed v Q e = Ensures-pure _ _ (λ w p k. absurd (grind arith))

  refusal :
      {P : World rd.Store → Type 0} (m : App rd.Store (Unit {0})) (v : Verdict)
      (Q : Verdict → World rd.Store → Type 0)
      → v.allowed ≡ false
      → Ensures P (m >>= λ _. pure v) (λ v w. v.allowed ≡ true → Q v w)
  refusal m v Q e = Ensures-bind _ _ _ _ (Ensures-nothing m) (λ _. unpassed v Q e)

  judge-Within :
      (link : ℕ) (e : EffectivePolicy) (c : Counters)
      → Ensures
          (λ w. read_counters rd link w.redis ≡ ok c)
          (judge rd link e c)
          (λ v w. v.allowed ≡ true → CountersWithin link e w)
  unfolding judge
  judge-Within link e c =
      Ensures-if _ _ _ _ (λ _. refusal _ _ _ refl)
        (λ requests.
          Ensures-if _ _ _ _ (λ _. refusal _ _ _ refl)
            (λ bytes.
              Ensures-if _ _ _ _ (λ _. refusal _ _ _ refl)
                (λ violations. Ensures-pure _ _ (λ w p k. record {
                  counters = c;
                  read = p;
                  within = (requests, (bytes, violations));
                }))))

  -- What BeforeProxy has seen when it lets a request pass.
  pub record Passes (l : LinkWithSession) (w : World rd.Store) : Type 0 where
    pub in_time : past_ttl (limits_of l.link.id d).max_ttl_seconds l.link.created_at t ≡ false
    pub counted : CountersWithin l.link.id (limits_of l.link.id d) w

  check_limits-Passes :
      (l : LinkWithSession)
      → Ensures
          (At d t)
          (check_limits rd l (limits_of l.link.id d))
          (λ v w. v.allowed ≡ true → Passes l w)
  unfolding check_limits Limiter.get
  check_limits-Passes l = Ensures-bind _ _ _ _ (Ensures-gets _) (λ now.
      Ensures-if _ _ _ _ (λ _. refusal _ _ _ refl)
        (λ fresh.
          Ensures-bind _ _ (λ c w. (now ≡ t) × (read_counters rd l.link.id w.redis ≡ ok c)) _
            (Ensures-command _ _ (λ w c os p e. (p.1 ∙ p.0.1, e)))
            (λ c. Ensures-weaken _ (Ensures-given _ (judge-Within l.link.id _ c)) (λ v w q k.
              record {
                in_time =
                    ap (past_ttl (limits_of l.link.id d).max_ttl_seconds l.link.created_at)
                      (sym q.0)
                    ∙ fresh;
                counted = q.1 k;
              }))))

  judge_violations-refuses :
      (link : ℕ) (e : EffectivePolicy) (n : ℕ) (P : World rd.Store → Type 0)
      (Q : Verdict → World rd.Store → Type 0)
      → Ensures P (judge_violations rd link e n) (λ v w. v.allowed ≡ true → Q v w)
  unfolding judge_violations
  judge_violations-refuses link e n P Q =
      Ensures-if (leb_ℤ e.max_violation_count (pos n)) _ _ _
        (λ _.
          refusal (auto_terminate link reason_violation_limit)
            (refuse 403 "link terminated: too many blacklist violations") Q refl)
        (λ _. unpassed (refuse 403 "this path is not accessible through this shared link") Q refl)

  record_violation-refuses :
      (l : LinkWithSession) (session : ℕ) (e : EffectivePolicy) (method path : Bytes)
      (Q : Verdict → World rd.Store → Type 0)
      → Ensures
          (At d t)
          (record_violation rd l session e method path)
          (λ v w. v.allowed ≡ true → Q v w)
  unfolding record_violation
  record_violation-refuses l session e method path Q =
      Ensures-bind _ _ _ _ (Ensures-nothing _) (λ _. Ensures-bind _ _ _ _ (Ensures-nothing _) (λ _.
        Ensures-bind _ _ _ _ (Ensures-nothing _) (λ n. judge_violations-refuses l.link.id e _ _ Q)))

module _ (regexp_match : Bytes → Bytes → Option Bool) (rd : Redis) (d : Db) (t : ℕ) where
  -- The rules of the link and of its site, as they stood at the start, do not block the request.
  abbrev pub Unblocked : LinkWithSession → Bytes → Bytes → Type 0
  Unblocked l method path =
      match_rules regexp_match (filled (rules_of l.link.id l.target_site.id d) d) method path ≡ none

  settle_blocked-Passes :
      (l : LinkWithSession) (session : ℕ) (method path : Bytes) (b : Option BlacklistedEndpoint)
      → b ≡ match_rules regexp_match (filled (rules_of l.link.id l.target_site.id d) d) method path
      → Ensures
          (At d t)
          (settle_blocked regexp_match rd l session (limits_of l.link.id d) method path b)
          (λ v w. v.allowed ≡ true → Unblocked l method path × Passes rd d t l w)
  unfolding settle_blocked
  settle_blocked-Passes l session method path (some rule) e =
      record_violation-refuses rd d t l session _ method path _
  settle_blocked-Passes l session method path none e =
      Ensures-weaken _ (check_limits-Passes rd d t l) (λ v w q k. (sym e, q k))

  abbrev pub Sound : LinkWithSession → Bytes → Bytes → Result Verdict × World rd.Store → Type 0
  Sound l method path r =
      Post (λ v w. v.allowed ≡ true → Unblocked l method path × Passes rd d t l w) r

  before_proxy-Passes :
      (l : LinkWithSession) (session : ℕ) (path method : Bytes)
      → Ensures
          (At d t)
          (before_proxy regexp_match rd l session path method)
          (λ v w. v.allowed ≡ true → Unblocked l method path × Passes rd d t l w)
  unfolding before_proxy check
  before_proxy-Passes l session path method =
      Ensures-bind _ _ _ _ (warm_load-At rd d t l.link.id) (λ _.
        Ensures-bind _ _ _ _ (resolve-At rd d t l.link.id) (λ e.
          Ensures-bind _ _ _ _
            (Ensures-given _ (
              Ensures-bind _ _ _ _ (rules-At rd d t l.link.id l.target_site.id) (λ rs.
                Ensures-pure _
                  (λ b w.
                    b
                      ≡ match_rules regexp_match (filled (rules_of l.link.id l.target_site.id d) d)
                          method path
                    × At d t w)
                  (λ w p. (ap (λ rs. match_rules regexp_match rs method path) p.0, p.1)))))
            (λ b. Ensures-assume _ (λ f. Ensures-assume _ (λ g.
              subst
                (λ e.
                  Ensures (At d t) (settle_blocked regexp_match rd l session e method path b)
                    (λ v w. v.allowed ≡ true → Unblocked l method path × Passes rd d t l w))
                (sym f) (settle_blocked-Passes l session method path b g))))))

-- A request that BeforeProxy lets pass, in an answer without error, is not blocked by the rules
-- of its link and site, its policy TTL is not over, and the counters in Redis, which could be
-- read, are below the request, traffic and violation limits of its policies. Policies, rules
-- and clock are those at the call; the other calls may fail in any way on the way.
pub before_proxy_sound :
    (regexp_match : Bytes → Bytes → Option Bool) (rd : Redis) (l : LinkWithSession) (session : ℕ)
    (path method : Bytes) (w w' : World rd.Store) (v : Verdict)
    → before_proxy regexp_match rd l session path method w ≡ (ok v, w')
    → v.allowed ≡ true
    → Unblocked regexp_match rd w.db w.now l method path × Passes rd w.db w.now l w'
before_proxy_sound regexp_match rd l session path method w w' v e k =
    subst (Sound regexp_match rd w.db w.now l method path) e
      ((before_proxy-Passes regexp_match rd w.db w.now l session path method).at w (refl, refl)) k
