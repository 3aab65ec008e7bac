-- ===== src/Proxy/Serve/Plan.antt =====
-- The plan that a request is sent with, read from the tables at the start of ServeHTTP.
use session_proxy.Enforcement.Keeps.{Kept}
use session_proxy.Store.Keeps.{
  Keeps, Keeps-query, Keeps-bind, Keeps-pure, Keeps-attempt, Keeps-throw,
}
use session_proxy.Repo.Logs.{insert_event, insert_termination}
use session_proxy.Repo.Guests.{
  upsert_usage, get_or_create, found_or_created, select_guest, create_session,
  get_active_by_link_and_guest, touch_guest, insert_guest_session, select_active, insert_guest,
}
use session_proxy.Base.{
  ℕ, ◌≡◌, refl, sym, ap, ◌∙◌, String, Option, none, some, [], List, where_rows, ◌==◌, arith,
}
use session_proxy.Base.Bytes.{Bytes, codes}
use session_proxy.Domain.{LinkWithSession, Guest, GuestSession, SessionCookie, SessionToken}
use session_proxy.Store.Db.{Db}
use session_proxy.Store.App.{
  World, Result, ok, err, Statement, query, no_rows, constraint, unavailable, bad_counter, entropy,
  bad_ciphertext, bad_url, session_not_owned, session_not_active, link_not_owned,
  link_already_terminated, email_taken, invalid_credentials, api_key_revoked, invalid_token,
}
use session_proxy.Store.Ensures.{
  Ensures, Ensures-pure, Ensures-query, Ensures-bind, Ensures-throw, Ensures-assume,
}
use session_proxy.Repo.Links.{select_by_token, update_link_status}
use session_proxy.Repo.Sessions
use session_proxy.Repo.Sessions.{select_cookies, select_tokens}
use session_proxy.Proxy.Path.{parse_token_and_path, inactive_reason}
use session_proxy.Proxy.Header.{InjectionPlan, cookie_name, authorization_name, values_of, apply}
use session_proxy.Proxy.Header.Owner.{strip_identity_headers_exact}
use session_proxy.Proxy.Handler.{
  Request, Outgoing, Served, relayed, Exchange, plan_cookies, resolve_guest_session, lifted,
  build_injection_plan, plan_headers, completed, unreached, session_id_of, cut_off,
}
use session_proxy.Proxy.Serve.{get_or_create}

-- What the plan of a session is read from.
abbrev pub Credentials : Type 0
Credentials =
    (List SessionCookie → List SessionCookie)
    × ((List SessionToken → List SessionToken) × (List SessionCookie × List SessionToken))

abbrev pub credentials : Db → Credentials
credentials d = (d.scan_cookies, (d.scan_tokens, (d.session_cookies, d.session_tokens)))

abbrev pub cookie_rows : ℕ → Credentials → List SessionCookie
cookie_rows session c = c.0 (where_rows (λ r. r.original_session_id == session) c.1.1.0)

abbrev pub token_rows : ℕ → Credentials → List SessionToken
token_rows session c = c.1.0 (where_rows (λ r. r.original_session_id == session) c.1.1.1)

-- The plan has the decrypted values of the session's rows in these tables.
abbrev pub IsPlanOf : (Bytes → Option Bytes) → Db → ℕ → InjectionPlan → Type 0
IsPlanOf decrypt d session p =
    (plan_cookies decrypt (cookie_rows session (credentials d)) ≡ ok p.cookies)
    × (plan_headers decrypt [] (token_rows session (credentials d)) ≡ ok p.headers)

-- The Cookie and Authorization values are those of the session's plan on an empty header.
abbrev pub HasPlan : (Bytes → Option Bytes) → Db → ℕ → Outgoing → Type 0
HasPlan decrypt d session out =
    (p : InjectionPlan) × (IsPlanOf decrypt d session p
      × ((values_of cookie_name out.header ≡ values_of cookie_name (apply p []))
          × (values_of authorization_name out.header ≡ values_of authorization_name (apply p []))))

-- A request is sent only under a condition, and the answer sets no cookie.
abbrev pub Gated : (Outgoing → Type 0) → Served → Type 0
Gated X s =
    ((out : Outgoing) → s.sent ≡ some out → X out)
    × (values_of (codes "Set-Cookie") s.response.header ≡ [])

-- The token of the URL names a link of the tables that can be used.
abbrev pub IsUsable : Request → Db → ℕ → LinkWithSession → Type 0
IsUsable r d t l =
    (token : Bytes) × (path : Bytes) × ((parse_token_and_path r.path ≡ some (token, path))
      × (((select_by_token token t d).0 ≡ ok l) × (inactive_reason l t ≡ none)))

-- The request is for a link that can be used, with the plan of the link's session.
abbrev pub IsAuthorized : (Bytes → Option Bytes) → Request → Db → ℕ → Outgoing → Type 0
IsAuthorized decrypt r d t out =
    (l : LinkWithSession) × (IsUsable r d t l × HasPlan decrypt d l.original_session.id out)

pub relayed-uncookied : (x : Exchange) → values_of (codes "Set-Cookie") (relayed x).header ≡ []
unfolding relayed
relayed-uncookied unreached = refl
relayed-uncookied (completed a) = (strip_identity_headers_exact a.header).0.0
relayed-uncookied (cut_off a) = (strip_identity_headers_exact a.header).0.0

pub unsent :
    {X : Outgoing → Type 0} (s : Served)
    → s.sent ≡ none
    → values_of (codes "Set-Cookie") s.response.header ≡ []
    → Gated X s
unsent s e f = (λ out k. absurd (none_some (sym e ∙ k)), f)
  where
    none_some : {A : Type 0} {a : A} → ¬ (none ≡ some a)
    none_some e = cc

pub same_sent : (a b : Outgoing) → some a ≡ some b → a ≡ b
same_sent a b e = cc

ok_injective : {A : Type 0} {a b : A} → ok a ≡ ok b → a ≡ b
ok_injective e = cc

-- The tables hold these credentials.
abbrev pub Holding : {R : Type 0} → Db → World R → Type 0
Holding d w = credentials w.db ≡ credentials d

pub Holding-Kept : (d : Db) → Kept (λ e. credentials e ≡ credentials d)
unfolding upsert_usage insert_event update_link_status insert_termination
Holding-Kept d = record {
  upserted = λ c now e h. ground (arith, h);
  event = λ c now e h. ground (arith, h);
  status = λ link now e h. h;
  termination = λ c now e h. ground (arith, h);
}

module _ {R : Type 0} (d : Db) where
  query-Holding :
      {A : Type 0} (q : Statement A)
      → ((now : ℕ) (e : Db) → credentials (q now e).1 ≡ credentials e)
      → Keeps {R = R} (Holding d) (query q)
  query-Holding q k = Keeps-query (λ e. credentials e ≡ credentials d) q (λ now e h. k now e ∙ h)

  found-Holding :
      (ip user_agent fingerprint : String) (r : Result Guest)
      → Keeps {R = R} (Holding d) (found_or_created ip user_agent fingerprint r)
  unfolding found_or_created touch_guest insert_guest
  found-Holding ip user_agent fingerprint (ok g) =
      Keeps-bind _ _ (Keeps-attempt _ (query-Holding _ (λ now e. refl))) (λ r. Keeps-pure _)
  found-Holding ip user_agent fingerprint (err e) =
      elim e
        as (λ e. Keeps {R = R} (Holding d) (found_or_created ip user_agent fingerprint (err e))) [
          | no_rows ↦ query-Holding _ (λ now e. refl)
          | constraint ↦ Keeps-throw _
          | unavailable ↦ Keeps-throw _
          | bad_counter ↦ Keeps-throw _
          | entropy ↦ Keeps-throw _
          | bad_ciphertext ↦ Keeps-throw _
          | bad_url ↦ Keeps-throw _
          | session_not_owned ↦ Keeps-throw _
          | session_not_active ↦ Keeps-throw _
          | link_not_owned ↦ Keeps-throw _
          | link_already_terminated ↦ Keeps-throw _
          | email_taken ↦ Keeps-throw _
          | invalid_credentials ↦ Keeps-throw _
          | api_key_revoked ↦ Keeps-throw _
          | invalid_token ↦ Keeps-throw _
        ]

  pub guest-Holding :
      (ip user_agent fingerprint : String)
      → Keeps {R = R} (Holding d) (get_or_create ip user_agent fingerprint)
  unfolding get_or_create select_guest
  guest-Holding ip user_agent fingerprint =
      Keeps-bind _ _ (Keeps-attempt _ (query-Holding _ (λ now e. refl)))
        (found-Holding ip user_agent fingerprint)

  created-Holding : (g : GuestSession) → Keeps {R = R} (Holding d) (create_session g)
  unfolding create_session insert_guest_session
  created-Holding g = query-Holding _ (λ now e. ground arith)

  found_session-Holding :
      (link guest : ℕ) (s : Option GuestSession)
      → Keeps {R = R} (Holding d) (session_id_of link guest s)
  unfolding session_id_of
  found_session-Holding link guest (some s) = Keeps-pure _
  found_session-Holding link guest none = Keeps-bind _ _ (created-Holding _) (λ c. Keeps-pure _)

  pub session-Holding :
      (link guest : ℕ) → Keeps {R = R} (Holding d) (resolve_guest_session link guest)
  unfolding resolve_guest_session get_active_by_link_and_guest select_active
  session-Holding link guest =
      Keeps-bind _ _ (query-Holding _ (λ now e. refl)) (found_session-Holding link guest)

  lifted-Holding :
      {A : Type 0} (decrypt : Bytes → Option Bytes) (r : Result A)
      → Ensures {R = R} (Holding d) (lifted decrypt r) (λ a w. (r ≡ ok a) × Holding d w)
  unfolding lifted
  lifted-Holding decrypt (ok a) = Ensures-pure _ _ (λ w p. (refl, p))
  lifted-Holding decrypt (err e) = Ensures-throw _

  cookies-Holding :
      (session : ℕ)
      → Ensures {R = R}
          (Holding d)
          (Sessions.list_cookies session)
          (λ rows w. (rows ≡ cookie_rows session (credentials d)) × Holding d w)
  unfolding Sessions.list_cookies select_cookies
  cookies-Holding session =
      Ensures-query _ _ (λ w rows os p e. (ok_injective (sym e) ∙ ap (cookie_rows session) p, p))

  tokens-Holding :
      (session : ℕ)
      → Ensures {R = R}
          (Holding d)
          (Sessions.list_tokens session)
          (λ rows w. (rows ≡ token_rows session (credentials d)) × Holding d w)
  unfolding Sessions.list_tokens select_tokens
  tokens-Holding session =
      Ensures-query _ _ (λ w rows os p e. (ok_injective (sym e) ∙ ap (token_rows session) p, p))

  pub plan-IsPlanOf :
      (decrypt : Bytes → Option Bytes) (session : ℕ)
      → Ensures {R = R}
          (Holding d)
          (build_injection_plan decrypt session)
          (λ p w. IsPlanOf decrypt d session p)
  unfolding build_injection_plan
  plan-IsPlanOf decrypt session = Ensures-bind _ _ _ _ (cookies-Holding session) (λ rows.
      Ensures-assume _ (λ e.
        Ensures-bind _ _ _ _ (lifted-Holding decrypt (plan_cookies decrypt rows)) (λ cs.
          Ensures-assume _ (λ f. Ensures-bind _ _ _ _ (tokens-Holding session) (λ tokens.
            Ensures-assume _ (λ g.
              Ensures-bind _ _ _ _ (lifted-Holding decrypt (plan_headers decrypt [] tokens)) (λ hs.
                Ensures-assume _ (λ h. Ensures-pure _ _ (λ w p. (
                  ap (plan_cookies decrypt) (sym e) ∙ f,
                  ap (plan_headers decrypt []) (sym g) ∙ h,
                ))))))))))
