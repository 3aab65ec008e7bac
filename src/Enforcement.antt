-- ===== src/Enforcement.antt =====
-- app/internal/service/enforcement_service.go, with the repository calls of policy_resolver.go and
-- blacklist_service.go. An error return is an error of the action; the handler answers it with 500.
pub mod Reads
pub mod Allowed
pub mod Limits
pub mod Keeps
pub mod Status
pub mod Recovery
pub mod Calls
pub mod Counting
mod Tests
use session_proxy.Base.{
  ℕ, String, Bool, true, false, Option, none, some, List, [], ◌∷◌, ◌++◌, if◌then◌else◌,
}
use session_proxy.Base.Int.{ℤ, pos, ltb_ℤ, leb_ℤ, seconds_to_duration, add_duration}
use session_proxy.Base.Bytes.{Bytes, codes}
use session_proxy.Domain.{
  LinkWithSession, EffectivePolicy, BlacklistedEndpoint, SecurityEvent, UsageCounters,
  event_blacklist_violation, reason_ttl_expired, reason_request_limit, reason_traffic_limit,
  reason_violation_limit,
}
use session_proxy.Pubsub.{Hub, EventType, blacklist_violation, link_terminated, Event, publish}
use session_proxy.Policy.{resolve_policies}
use session_proxy.Blacklist.{match_rules}
use session_proxy.Store.Redis.{Redis}
use session_proxy.Store.App.{
  App, World, Result, ok, err, Error, no_rows, pure, throw, attempt, gets, ◌>>=◌, ◌>>◌,
}
use session_proxy.Repo.Policies.{list_for_link}
use session_proxy.Repo.Blacklists.{rules_for_link}
use session_proxy.Repo.Guests.{get_usage_by_link}
use session_proxy.Repo.Logs.{create_event}
use session_proxy.Limiter
use session_proxy.Limiter.{Counters}
use session_proxy.LinkService

-- What BeforeProxy answers: pass, or refuse with a status and a message.
pub record Verdict : Type 0 where
  pub allowed : Bool
  pub status : ℕ
  pub message : String

abbrev pub pass : Verdict
pass = record { allowed = true; status = 200; message = "" }

abbrev pub refuse : ℕ → String → Verdict
refuse status message = record { allowed = false; status = status; message = message }

-- `limit != nil && amount >= *limit`
abbrev pub at_limit : Option ℤ → ℕ → Bool
at_limit none amount = false
at_limit (some limit) amount = leb_ℤ limit (pos amount)

-- time.Now().After(created.Add(time.Duration(ttl) * time.Second))
abbrev pub past_ttl : Option ℤ → ℕ → ℕ → Bool
past_ttl none created now = false
past_ttl (some ttl) created now = ltb_ℤ (add_duration created (seconds_to_duration ttl)) (pos now)

abbrev pub counters_from : UsageCounters → Counters
counters_from u = record {
  requests = u.request_count;
  bytes = u.bytes_transferred;
  violations = u.violation_count;
}

abbrev publish_to : Event → Option Hub → Option Hub
publish_to e none = none
publish_to e (some h) = some (publish e h)

module _ {R : Type 0} where
  unfoldable pub notify : EventType → ℕ → Bytes → App R (Unit {0})
  notify type link message w = (
    ok tt,
    record w {
      hub =
          publish_to
            (record { type = type; link_id = link; message = message; occurred_at = w.now }) w.hub;
    },
  )

  unfoldable pub after_termination : ℕ → String → Result (Unit {0}) → App R (Unit {0})
  after_termination link reason (ok _) =
      notify link_terminated link (codes "link auto-terminated: " ++ codes reason)
  after_termination link reason (err e) = pure tt

  unfoldable pub auto_terminate : ℕ → String → App R (Unit {0})
  auto_terminate link reason = do
    terminated ← attempt (LinkService.auto_terminate link reason)
    after_termination link reason terminated

  -- PolicyResolver.Resolve
  unfoldable pub resolve : ℕ → App R EffectivePolicy
  resolve link = do policies ← list_for_link link; pure (resolve_policies policies)

module _ (rd : Redis) where
  unfoldable pub seed_from : ℕ → Result UsageCounters → App rd.Store (Unit {0})
  seed_from link (ok u) = Limiter.warm_load rd link (counters_from u)
  seed_from link (err no_rows) =
      Limiter.warm_load rd link (record { requests = 0; bytes = 0; violations = 0 })
  seed_from link (err e) = throw e

  unfoldable pub warm_load : ℕ → App rd.Store (Unit {0})
  warm_load link = do usage ← attempt (get_usage_by_link link); seed_from link usage

  -- The violation count after an increment; 0 where it failed.
  abbrev pub count_or_zero : Result ℕ → ℕ
  count_or_zero (ok n) = n
  count_or_zero (err e) = 0

  unfoldable pub judge_violations : ℕ → EffectivePolicy → ℕ → App rd.Store Verdict
  judge_violations link effective violations =
      if leb_ℤ effective.max_violation_count (pos violations)
      then (do
        auto_terminate link reason_violation_limit
        pure (refuse 403 "link terminated: too many blacklist violations"))
      else pure (refuse 403 "this path is not accessible through this shared link")

  unfoldable pub record_violation :
      LinkWithSession → ℕ → EffectivePolicy → Bytes → Bytes → App rd.Store Verdict
  record_violation l guest_session effective method path = do
    attempt (
        create_event (record {
          guest_session_id = some guest_session;
          shared_link_id = l.link.id;
          event_type = event_blacklist_violation;
          target_url = some path;
          http_method = some method;
          occurred_at = 0;
        }))
    notify blacklist_violation l.link.id
        (method ++ (codes " " ++ (path ++ codes " was blocked by blacklist")))
    violations ← attempt (Limiter.incr_violations rd l.link.id)
    judge_violations l.link.id effective (count_or_zero violations)

  -- The three numeric limits, in the order of the code.
  unfoldable pub judge : ℕ → EffectivePolicy → Counters → App rd.Store Verdict
  judge link effective snapshot =
      if at_limit effective.max_requests snapshot.requests
      then (do auto_terminate link reason_request_limit; pure (refuse 403 "request limit reached"))
      else if at_limit effective.max_bytes_transferred snapshot.bytes
      then (do auto_terminate link reason_traffic_limit; pure (refuse 403 "traffic limit reached"))
      else if leb_ℤ effective.max_violation_count (pos snapshot.violations)
      then (do
        auto_terminate link reason_violation_limit
        pure (refuse 403 "violation limit reached"))
      else pure pass

  unfoldable pub check_limits : LinkWithSession → EffectivePolicy → App rd.Store Verdict
  check_limits l effective = do
    now ← gets (λ w. w.now)
    if past_ttl effective.max_ttl_seconds l.link.created_at now
        then (do
          auto_terminate l.link.id reason_ttl_expired
          pure (refuse 410 "link TTL (from access policy) has expired"))
        else do snapshot ← Limiter.get rd l.link.id; judge l.link.id effective snapshot

  unfoldable pub recheck : ℕ → EffectivePolicy → Counters → App rd.Store (Unit {0})
  recheck link effective snapshot =
      if at_limit effective.max_requests snapshot.requests
      then auto_terminate link reason_request_limit
      else if at_limit effective.max_bytes_transferred snapshot.bytes
      then auto_terminate link reason_traffic_limit
      else pure tt

  -- An error on the way is logged and ends the method; `after_proxy` has no result.
  unfoldable pub recheck_limits : ℕ → App rd.Store (Unit {0})
  recheck_limits link = do
    effective ← resolve link
    snapshot ← Limiter.get rd link
    recheck link effective snapshot

  unfoldable pub after_proxy : LinkWithSession → ℕ → App rd.Store (Unit {0})
  after_proxy l bytes_transferred = do
    attempt (Limiter.incr_requests rd l.link.id)
    attempt (Limiter.incr_bytes rd l.link.id bytes_transferred)
    attempt (recheck_limits l.link.id)
    pure tt

module _ (regexp_match : Bytes → Bytes → Option Bool) (rd : Redis) where
  -- BlacklistService.Check
  unfoldable pub check : ℕ → ℕ → Bytes → Bytes → App rd.Store (Option BlacklistedEndpoint)
  check link site method path = do
    rules ← rules_for_link link site
    pure (match_rules regexp_match rules method path)

  unfoldable pub settle_blocked :
      LinkWithSession
      → ℕ
      → EffectivePolicy
      → Bytes
      → Bytes
      → Option BlacklistedEndpoint
      → App rd.Store Verdict
  settle_blocked l guest_session effective method path (some rule) =
      record_violation rd l guest_session effective method path
  settle_blocked l guest_session effective method path none = check_limits rd l effective

  unfoldable pub before_proxy : LinkWithSession → ℕ → Bytes → Bytes → App rd.Store Verdict
  before_proxy l guest_session path method = do
    warm_load rd l.link.id
    effective ← resolve l.link.id
    blocked ← check l.link.id l.target_site.id method path
    settle_blocked l guest_session effective method path blocked
