-- ===== src/Store/Sample.antt =====
-- A small state for the tests: one owner with one session and one link, and an empty Redis.
use session_proxy.Base.{none, some, [], ◌∷◌}
use session_proxy.Base.Int.{pos}
use session_proxy.Base.Bytes.{codes}
use session_proxy.Domain.{
  User, TargetSite, OriginalSession, SharedLink, AccessPolicy, LinkWithSession,
  session_status_active, link_status_active,
}
use session_proxy.Store.Db.{Db}
use session_proxy.Store.App.{World}
use session_proxy.Store.Redis.{MapStore, missing}

abbrev pub owner : User
owner = record {
  id = 1;
  email = "a@b";
  password_hash = "h";
  display_name = none;
  created_at = 0;
  updated_at = 0;
}

abbrev pub site : TargetSite
site = record {
  id = 2;
  base_domain = "b.example";
  name = "b";
  base_url = codes "https://b.example";
  created_at = 0;
}

abbrev pub session : OriginalSession
session = record {
  id = 3;
  user_id = 1;
  target_site_id = 2;
  device_id = none;
  status = session_status_active;
  label = none;
  imported_at = 0;
  expires_at = none;
}

abbrev pub link : SharedLink
link = record {
  id = 4;
  original_session_id = 3;
  token = codes "tok";
  status = link_status_active;
  label = none;
  created_at = 0;
  expires_at = none;
}

-- At most two requests.
abbrev pub policy : AccessPolicy
policy = record {
  id = 5;
  user_id = 1;
  name = "p";
  max_requests = some (pos 2);
  max_bytes_transferred = none;
  max_ttl_seconds = none;
  max_violation_count = none;
  created_at = 0;
}

abbrev pub joined : LinkWithSession
joined = record { link = link; original_session = session; target_site = site; owner_user_id = 1 }

abbrev pub tables : Db
tables = record {
  scan_cookies = λ rows. rows;
  scan_tokens = λ rows. rows;
  users = owner ∷ [];
  devices = [];
  api_keys = [];
  target_sites = site ∷ [];
  original_sessions = session ∷ [];
  session_cookies = [];
  session_tokens = [];
  shared_links = link ∷ [];
  access_policies = policy ∷ [];
  link_policies = record { left = 4; right = 5 } ∷ [];
  blacklisted_endpoints = [];
  blocked_methods = [];
  site_endpoint_rules = [];
  link_endpoint_rules = [];
  guests = [];
  guest_sessions = [];
  usage_counters = [];
  proxy_access_logs = [];
  link_terminations = [];
  security_events = [];
  revocation_reasons =
      "manual" ∷ "ttl_expired" ∷ "request_limit" ∷ "traffic_limit" ∷ "violation_limit" ∷ [];
  next_id = 6;
}

abbrev pub start : World MapStore
start = record {
  db = tables;
  redis = record { cells = λ k. missing; members = [] };
  hub = none;
  now = 100;
  random = [];
  outcomes = [];
}
