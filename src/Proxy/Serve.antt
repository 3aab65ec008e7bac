-- ===== src/Proxy/Serve.antt =====
-- app/internal/proxy/handler.go: ServeHTTP, each step up to its early return a function of its own.
-- `exchange` is the round trip of httputil.ReverseProxy, which panics where the copy of the answer's
-- body fails, so that nothing after it is done; `elapsed` is time.Since(start) in milliseconds.
pub mod Plan
pub mod Gate
use session_proxy.Base.{
  ℕ, String, Bool, true, false, Option, none, some, List, [], ◌∷◌, length, if◌then◌else◌,
}
use session_proxy.Base.Bytes.{Bytes, codes}
use session_proxy.Domain.{LinkWithSession, ProxyAccessLog, Guest}
use session_proxy.Store.Redis.{Redis}
use session_proxy.Store.App.{App, Result, ok, err, Error, pure, attempt, gets, ◌>>=◌, ◌>>◌}
use session_proxy.Repo.Links
use session_proxy.Repo.Guests.{get_or_create, touch_last_request}
use session_proxy.Enforcement.{Verdict, before_proxy, after_proxy}
use session_proxy.Proxy.Path.{parse_token_and_path, inactive_reason}
use session_proxy.Proxy.Header.{InjectionPlan}
use session_proxy.Proxy.Handler.{
  Request, Outgoing, Response, Exchange, unreached, completed, cut_off, Url, Served, fail,
  error_response, access_entry, relayed, rewrite, resolve_guest_session, build_injection_plan,
}

abbrev pub internal_error : Served
internal_error = fail 500 (codes "internal error")

module _ (rd : Redis) (regexp_match : Bytes → Bytes → Option Bool) (decrypt : Bytes → Option Bytes)
    (parse_url : Bytes → Option Url) (exchange : Outgoing → Exchange) (elapsed : ℕ)
    (r : Request) where
  -- After an exchange that ReverseProxy returns from; a failed TouchLastRequest is not looked at.
  unfoldable pub settle_exchange :
      LinkWithSession → ℕ → Bytes → Outgoing → Response → App rd.Store Served
  settle_exchange l guest_session path out response = do
    after_proxy rd l (length response.body)
    attempt (touch_last_request guest_session)
    pure (record {
      response = response;
      sent = some out;
      logged = some (
          access_entry l guest_session path r.method response.status (length response.body)
            elapsed);
      aborted = false;
    })

  unfoldable pub after_exchange :
      LinkWithSession → ℕ → Bytes → Outgoing → Exchange → App rd.Store Served
  after_exchange l guest_session path out (cut_off a) =
      pure
        (record { response = relayed (cut_off a); sent = some out; logged = none; aborted = true })
  after_exchange l guest_session path out unreached =
      settle_exchange l guest_session path out (relayed unreached)
  after_exchange l guest_session path out (completed a) =
      settle_exchange l guest_session path out (relayed (completed a))

  unfoldable pub forward : LinkWithSession → ℕ → Bytes → Outgoing → App rd.Store Served
  unfolding after_exchange settle_exchange
  forward l guest_session path out = after_exchange l guest_session path out (exchange out)

  unfoldable pub route :
      LinkWithSession → ℕ → Bytes → InjectionPlan → Option Url → App rd.Store Served
  route l guest_session path plan none = pure internal_error
  route l guest_session path plan (some base) =
      forward l guest_session path (rewrite base path plan r)

  unfoldable pub inject : LinkWithSession → ℕ → Bytes → Result InjectionPlan → App rd.Store Served
  inject l guest_session path (err e) = pure internal_error
  inject l guest_session path (ok plan) =
      route l guest_session path plan (parse_url l.target_site.base_url)

  unfoldable pub admit : LinkWithSession → ℕ → Bytes → Result Verdict → App rd.Store Served
  admit l guest_session path (err e) = pure internal_error
  admit l guest_session path (ok v) =
      if v.allowed
      then (do
        plan ← attempt (build_injection_plan decrypt l.original_session.id)
        inject l guest_session path plan)
      else pure (record {
        response = error_response v.status (codes v.message);
        sent = none;
        logged = some (access_entry l guest_session path r.method v.status 0 elapsed);
        aborted = false;
      })

  unfoldable pub enforce : LinkWithSession → Bytes → Result ℕ → App rd.Store Served
  enforce l path (err e) = pure internal_error
  enforce l path (ok guest_session) = do
    verdict ← attempt (before_proxy regexp_match rd l guest_session path r.method)
    admit l guest_session path verdict

  unfoldable pub welcome : LinkWithSession → Bytes → Result Guest → App rd.Store Served
  welcome l path (err e) = pure internal_error
  welcome l path (ok guest) = do
    guest_session ← attempt (resolve_guest_session l.link.id guest.id)
    enforce l path guest_session

  unfoldable pub open_link : LinkWithSession → Bytes → Option String → App rd.Store Served
  open_link l path (some reason) = pure (fail 410 (codes reason))
  open_link l path none = do
    guest ← attempt (get_or_create r.ip r.user_agent "")
    welcome l path guest

  unfoldable pub find_link : Bytes → Result LinkWithSession → App rd.Store Served
  find_link path (err e) = pure (fail 404 (codes "link not found"))
  find_link path (ok l) = do now ← gets (λ w. w.now); open_link l path (inactive_reason l now)

  unfoldable pub dispatch : Option (Bytes × Bytes) → App rd.Store Served
  dispatch none = pure (fail 404 (codes "not found"))
  dispatch (some (token, path)) = do link ← attempt (Links.get_by_token token); find_link path link

  unfoldable pub serve_http : App rd.Store Served
  serve_http = dispatch (parse_token_and_path r.path)
