-- ===== src/Proxy/Handler.antt =====
-- app/internal/proxy/handler.go and injector.go, as main.go wires them: with an Enforcer and an
-- access logger. The cipher, url.Parse and the exchange of httputil.ReverseProxy with the target
-- site are parameters.
use session_proxy.Base.{Bool, false, ℕ, String, Option, none, some, List, [], ◌∷◌, ◌++◌}
use session_proxy.Base.Bytes.{Bytes, codes}
use session_proxy.Domain.{
  LinkWithSession, SessionCookie, SessionToken, ProxyAccessLog, GuestSession,
}
use session_proxy.Store.App.{App, Result, ok, err, bad_ciphertext, pure, throw, ◌>>=◌}
use session_proxy.Repo.Sessions
use session_proxy.Repo.Guests.{get_active_by_link_and_guest, create_session}
use session_proxy.Proxy.Path.{single_joining_slash}
use session_proxy.Proxy.Header.{
  Header, Cookie, InjectionPlan, authorization_name, add, apply, strip_identity_headers,
}

-- What the handler reads of a guest's request. `ip` is clientIP(r), and `header` is what
-- httputil.ReverseProxy hands on to Rewrite of the guest's header.
pub record Request : Type 0 where
  pub path : Bytes
  pub method : Bytes
  pub query : Bytes
  pub ip : String
  pub user_agent : String
  pub header : Header

-- What Rewrite sends to the target site.
pub record Outgoing : Type 0 where
  pub scheme : Bytes
  pub host : Bytes
  pub path : Bytes
  pub query : Bytes
  pub method : Bytes
  pub header : Header

-- An answer of the target site, with the part of its body that the guest's connection took.
pub record Response : Type 0 where
  pub status : ℕ
  pub header : Header
  pub body : Bytes

pub record Url : Type 0 where
  pub scheme : Bytes
  pub host : Bytes
  pub path : Bytes

-- How a round trip of httputil.ReverseProxy ends: the target site is not reached, the answer is
-- handed on whole, or the copy of its body fails on either side.
pub data Exchange : Type 0 where
  unreached : Exchange
  completed cut_off : Response → Exchange

-- What a request leads to: the answer, what was sent to the target site, the log entry, and whether
-- ServeHTTP panics with http.ErrAbortHandler instead of returning.
pub record Served : Type 0 where
  pub response : Response
  pub sent : Option Outgoing
  pub logged : Option ProxyAccessLog
  pub aborted : Bool

-- http.Error
abbrev pub error_response : ℕ → Bytes → Response
error_response status message = record {
  status = status;
  header =
      record { name = codes "Content-Type"; value = codes "text/plain; charset=utf-8" }
      ∷ record { name = codes "X-Content-Type-Options"; value = codes "nosniff" }
      ∷ [];
  body = message ++ 10 ∷ [];
}

abbrev pub fail : ℕ → Bytes → Served
fail status message = record {
  response = error_response status message;
  sent = none;
  logged = none;
  aborted = false;
}

abbrev pub header_name : SessionToken → Bytes
header_name t = elim t.header_name [
  | none ↦ authorization_name
  | some n ↦ elim n [ [] ↦ authorization_name | c ∷ s ↦ c ∷ s ]
]

-- The entry of logAccess.
abbrev pub access_entry : LinkWithSession → ℕ → Bytes → Bytes → ℕ → ℕ → ℕ → ProxyAccessLog
access_entry l guest_session path method status bytes elapsed = record {
  guest_session_id = some guest_session;
  shared_link_id = l.link.id;
  target_url = l.target_site.base_url ++ path;
  http_method = method;
  response_status = some status;
  bytes_transferred = some bytes;
  response_time_ms = some elapsed;
  requested_at = 0;
}

-- What ErrorHandler writes when the target site cannot be reached.
abbrev pub unreachable : Response
unreachable = record { status = 502; header = []; body = codes "upstream target unreachable" }

-- ModifyResponse, or ErrorHandler where there is no answer
unfoldable pub relayed : Exchange → Response
relayed unreached = unreachable
relayed (completed r) = record r { header = strip_identity_headers r.header }
relayed (cut_off r) = record r { header = strip_identity_headers r.header }

-- Rewrite
unfoldable pub rewrite : Url → Bytes → InjectionPlan → Request → Outgoing
rewrite base forward_path plan r = record {
  scheme = base.scheme;
  host = base.host;
  path = single_joining_slash base.path forward_path;
  query = r.query;
  method = r.method;
  header = apply plan r.header;
}

module _ {R : Type 0} where
  unfoldable pub session_id_of : ℕ → ℕ → Option GuestSession → App R ℕ
  session_id_of link guest (some s) = pure s.id
  session_id_of link guest none = do
    created ← create_session (record {
      id = 0;
      shared_link_id = link;
      guest_id = some guest;
      status = "";
      started_at = 0;
      last_request_at = none;
      terminated_at = none;
    })
    pure created.id

  unfoldable pub resolve_guest_session : ℕ → ℕ → App R ℕ
  resolve_guest_session link guest = do
    existing ← get_active_by_link_and_guest link (some guest)
    session_id_of link guest existing

module _ (decrypt : Bytes → Option Bytes) where
  -- The loops over the rows; the first value that cannot be decrypted ends them.
  abbrev decrypted : Bytes → Result Bytes
  decrypted v = elim (decrypt v) [ none ↦ err bad_ciphertext | some p ↦ ok p ]

  unfoldable pub plan_cookies : List SessionCookie → Result (List Cookie)
  plan_cookies [] = ok []
  plan_cookies (c ∷ cs) = elim (decrypted c.value_encrypted) [
    | err e ↦ err e
    | ok v ↦ elim (plan_cookies cs) [
      | err e ↦ err e
      | ok rest ↦ ok (record { name = c.name; value = v } ∷ rest)
    ]
  ]

  unfoldable pub plan_headers : Header → List SessionToken → Result Header
  plan_headers h [] = ok h
  plan_headers h (t ∷ ts) = elim (decrypted t.value_encrypted) [
    | err e ↦ err e
    | ok v ↦ plan_headers (add (header_name t) v h) ts
  ]

  module _ {R : Type 0} where
    unfoldable pub lifted : {A : Type 0} → Result A → App R A
    lifted (ok a) = pure a
    lifted (err e) = throw e

    unfoldable pub build_injection_plan : ℕ → App R InjectionPlan
    unfolding lifted
    build_injection_plan session = do
      cookie_rows ← Sessions.list_cookies session
      cookies ← lifted (plan_cookies cookie_rows)
      token_rows ← Sessions.list_tokens session
      headers ← lifted (plan_headers [] token_rows)
      pure (record { cookies = cookies; headers = headers })
