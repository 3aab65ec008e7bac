-- ===== src/Store/Db.antt =====
-- The tables of migrations/00001 to 00005, each a list of rows, oldest first.
use session_proxy.Base.{ℕ, String, List}
use session_proxy.Base.Bytes.{Bytes}
use session_proxy.Domain.{
  User, Device, ApiKey, TargetSite, OriginalSession, SessionCookie, SessionToken, SharedLink,
  AccessPolicy, BlacklistedEndpoint, Guest, GuestSession, UsageCounters, ProxyAccessLog,
  LinkTermination, SecurityEvent,
}

-- A row of a join table: link_policies, link_endpoint_rules, site_endpoint_rules.
pub record Pair : Type 0 where
  pub left : ℕ
  pub right : ℕ

-- A row of endpoint_blocked_methods.
pub record BlockedMethod : Type 0 where
  pub endpoint_id : ℕ
  pub http_method : Bytes

pub record Db : Type 0 where
  -- The order in which a SELECT without ORDER BY returns the rows it finds.
  pub scan_cookies : List SessionCookie → List SessionCookie
  pub scan_tokens : List SessionToken → List SessionToken
  pub users : List User
  pub devices : List Device
  pub api_keys : List ApiKey
  pub target_sites : List TargetSite
  pub original_sessions : List OriginalSession
  pub session_cookies : List SessionCookie
  pub session_tokens : List SessionToken
  pub shared_links : List SharedLink
  pub access_policies : List AccessPolicy
  pub link_policies : List Pair
  pub blacklisted_endpoints : List BlacklistedEndpoint
  pub blocked_methods : List BlockedMethod
  pub site_endpoint_rules : List Pair
  pub link_endpoint_rules : List Pair
  pub guests : List Guest
  pub guest_sessions : List GuestSession
  pub usage_counters : List UsageCounters
  pub proxy_access_logs : List ProxyAccessLog
  pub link_terminations : List LinkTermination
  pub security_events : List SecurityEvent
  pub revocation_reasons : List String
  -- gen_random_uuid(): ids are given out in order, from 1 on.
  pub next_id : ℕ
