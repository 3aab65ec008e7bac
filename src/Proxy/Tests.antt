-- ===== src/Proxy/Tests.antt =====
-- A guest's request for the sample link, and the theorems of Proxy at it.
use session_proxy.Proxy.Serve.Plan.{IsAuthorized}
use session_proxy.Base.{◌≡◌, ◌⊎◌, refl, Bool, true, Option, some, [], ◌∷◌, ◌++◌, none, List}
use session_proxy.Base.Bytes.{Bytes, codes}
use session_proxy.Policy.{resolve_policies, tighten_all, tighten, min_ptr}
use session_proxy.Blacklist.{match_rules}
use session_proxy.Store.Redis.{map_redis, MapStore}
use session_proxy.Store.App.{World, Result, ok, err, query, command, settle, ◌>>=◌}
use session_proxy.Store.Sample.{start, tables}
use session_proxy.Repo.Order.{order_desc, null_if_empty}
use session_proxy.Repo.Links.{select_by_token}
use session_proxy.Repo.Links
use session_proxy.Repo.Policies.{list_for_link, select_policies_for}
use session_proxy.Repo.Blacklists.{rules_for_link, select_rules, with_methods}
use session_proxy.Repo.Guests.{
  get_usage_by_link, select_usage, get_or_create, select_guest, insert_guest,
  get_active_by_link_and_guest, select_active, create_session, insert_guest_session,
  touch_last_request, touch_guest_session,
}
use session_proxy.Repo.Sessions.{list_cookies, select_cookies, list_tokens, select_tokens}
use session_proxy.Limiter
use session_proxy.Enforcement.{
  before_proxy, warm_load, seed_from, resolve, check, settle_blocked, check_limits, judge,
  after_proxy, recheck_limits, recheck,
}
use session_proxy.Proxy.Path.{
  slash, route_prefix, parse_token_and_path, split_at_slash, inactive_reason,
}
use session_proxy.Proxy.Path.Laws.{
  IsSlashFree, parse_token_and_path_roundtrip, parse_token_and_path_sound,
}
use session_proxy.Proxy.Header.{
  Header, InjectionPlan, cookie_name, authorization_name, values_of, apply, add_cookies, add_fields,
  add_cookie, add, del, canonical,
}
use session_proxy.Proxy.Header.Owner.{apply_ignores_guest}
use session_proxy.Proxy.Handler.{
  Request, Outgoing, Url, Served, relayed, rewrite, resolve_guest_session, session_id_of,
  build_injection_plan, plan_cookies, plan_headers, Exchange, completed,
}
use session_proxy.Proxy.Serve.{
  internal_error, forward, route, inject, admit, enforce, welcome, open_link, find_link, dispatch,
  serve_http, after_exchange, settle_exchange,
}
use session_proxy.Proxy.Serve.Plan.{IsAuthorized}

parse_token_and_path_roundtrip_example :
    (parse_token_and_path (codes "/r/tok/a/b") ≡ some (codes "tok", codes "/a/b"))
    × (parse_token_and_path (codes "/r/tok") ≡ some (codes "tok", codes "/"))
parse_token_and_path_roundtrip_example =
    parse_token_and_path_roundtrip b't' (codes "ok") (codes "a/b") (refl, (refl, (refl, tt)))

double_slash : parse_token_and_path (codes "/r//x") ≡ some ([], codes "/x")
unfolding parse_token_and_path split_at_slash
double_slash = refl

parse_token_and_path_sound_example :
    IsSlashFree []
    × ((codes "/r//x" ≡ route_prefix ++ [] ++ codes "/x")
        ⊎ ((codes "/r//x" ≡ route_prefix ++ []) × (codes "/x" ≡ slash ∷ [])))
parse_token_and_path_sound_example =
    parse_token_and_path_sound (codes "/r//x") [] (codes "/x") double_slash

abbrev plan : InjectionPlan
plan = record {
  cookies = record { name = codes "sid"; value = codes "s3" } ∷ [];
  headers = record { name = authorization_name; value = codes "Bearer o" } ∷ [];
}

abbrev sent_by_guest : Header
sent_by_guest =
    record { name = cookie_name; value = codes "sid=guest" }
    ∷ record { name = authorization_name; value = codes "Bearer g" }
    ∷ []

owner_cookie : values_of cookie_name (apply plan sent_by_guest) ≡ codes "sid=s3" ∷ []
unfolding apply add_fields add_cookies add_cookie add del canonical
owner_cookie = refl

apply_ignores_guest_example :
    (values_of cookie_name (apply plan sent_by_guest) ≡ values_of cookie_name (apply plan []))
    × (values_of authorization_name (apply plan sent_by_guest)
        ≡ values_of authorization_name (apply plan []))
apply_ignores_guest_example = apply_ignores_guest plan sent_by_guest []

abbrev answered_header : Header
answered_header =
    record { name = codes "Set-Cookie"; value = codes "sid=s4" }
    ∷ record { name = codes "Etag"; value = codes "1" }
    ∷ []

abbrev request : Request
request = record {
  path = codes "/r/tok/x";
  method = codes "GET";
  query = [];
  ip = "10.0.0.1";
  user_agent = "ua";
  header = sent_by_guest;
}

abbrev match_any : Bytes → Bytes → Option Bool
match_any pattern path = some true

abbrev no_cipher : Bytes → Option Bytes
no_cipher v = some v

abbrev base_of : Bytes → Option Url
base_of u = some (record { scheme = codes "https"; host = codes "b.example"; path = [] })

abbrev answer : Outgoing → Exchange
answer out = completed (record { status = 200; header = answered_header; body = codes "hello" })

-- The session of the link has a cookie.
abbrev stocked : World MapStore
stocked = record start {
  db = record tables {
    session_cookies =
        record {
          id = 6;
          original_session_id = 3;
          name = codes "sid";
          value_encrypted = codes "s3";
          domain = none;
          path = codes "/";
          secure = true;
          http_only = true;
          same_site = none;
          expires_at = none;
          created_at = 0;
        }
        ∷ [];
  };
}

abbrev result : Result Served × World MapStore
result = serve_http map_redis match_any no_cipher base_of answer 3 request stocked

abbrev served_of : Result Served → Served
served_of (ok s) = s
served_of (err e) = internal_error

abbrev cookies_sent : Option Outgoing → List Bytes
cookies_sent none = []
cookies_sent (some out) = values_of cookie_name out.header

owner_cookie_is_sent : cookies_sent (served_of result.0).sent ≡ codes "sid=s3" ∷ []
unfolding serve_http dispatch find_link open_link welcome enforce admit inject route forward
    after_exchange settle_exchange relayed rewrite resolve_guest_session session_id_of
    build_injection_plan plan_cookies plan_headers parse_token_and_path split_at_slash
    inactive_reason Links.get_by_token select_by_token get_or_create select_guest insert_guest
    get_active_by_link_and_guest select_active create_session insert_guest_session
    touch_last_request touch_guest_session list_cookies select_cookies list_tokens select_tokens
    order_desc null_if_empty before_proxy warm_load seed_from resolve check settle_blocked
    check_limits judge after_proxy recheck_limits recheck Limiter.warm_load Limiter.seed_counters
    Limiter.get Limiter.incr_requests Limiter.incr_bytes Limiter.incr_and_mark_dirty
    Limiter.bump_and_mark get_usage_by_link select_usage list_for_link select_policies_for
    rules_for_link select_rules with_methods query command settle resolve_policies tighten_all
    tighten min_ptr match_rules ◌>>=◌ apply add_fields add_cookies add_cookie add del canonical
owner_cookie_is_sent = refl
