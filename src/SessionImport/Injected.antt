-- ===== src/SessionImport/Injected.antt =====
-- An imported session is injected as it was submitted.
use mathlib.Core.List.{Permᴰ}
use session_proxy.Base.{
  ℕ, String, ◌≡◌, refl, sym, subst, Bool, true, false, ◌||◌, not, List, [], ◌∷◌, ◌==◌,
  if◌then◌else◌, any_row, All,
}
use session_proxy.Base.Bytes.{Bytes}
use session_proxy.Base64.Std.RoundTrip.{IsBytes}
use session_proxy.Domain.{OriginalSession, SessionCookie, SessionToken}
use session_proxy.Proxy.Header.{InjectionPlan}
use session_proxy.SessionImport.Order.{All2-Permᴰ, submitted_cookies-Permᴰ, submitted_headers-Permᴰ}
use session_proxy.Store.Db.{Db}
use session_proxy.Store.App.{World, Result, ok, err, query, AllAnswered, ◌>>=◌, Error, settle}
use session_proxy.Store.Ensures.{
  Post, Ensures, Ensures-pure, Ensures-bind, Ensures-query, Ensures-assume, Ensures-Keeps,
}
use session_proxy.Repo.Sessions.{
  insert_site, insert_session, select_site_by_domain, create_site, site_or_created, select_cookies,
  select_tokens, list_cookies, list_tokens,
}
use session_proxy.Repo.Sessions
use session_proxy.Proxy.Handler.{build_injection_plan, lifted}
use session_proxy.Crypto.{Aead, decrypt}
use session_proxy.SessionImport.{
  CookieInput, TokenInput, store_cookies, store_tokens, import_session,
}
use session_proxy.SessionImport.Plans.{
  CarriesCookie, CarriesToken, cookies_of, tokens_of, submitted_cookies, submitted_headers,
  plan_cookies-submitted, plan_headers-submitted,
}
use session_proxy.SessionImport.Encrypted.{encrypt_cookies-Random, encrypt_tokens-Random}
use session_proxy.SessionImport.Stored.{Held, HeldIn, create_cookies-Held, create_tokens-Held}
use session_proxy.SessionImport.Fresh.{IsFresh, FreshIn, where_rows-below, get_or_create-Fresh}

-- A SELECT without ORDER BY returns the rows that it finds, in an order that is not documented.
abbrev pub Rearranges : Db → Type 0
Rearranges d =
    ((rows : List SessionCookie) → Permᴰ (d.scan_cookies rows) rows)
    × ((rows : List SessionToken) → Permᴰ (d.scan_tokens rows) rows)

-- The plan injects these inputs, in some order.
abbrev pub Injects : List CookieInput → List TokenInput → Result InjectionPlan → Type 0
Injects cs ts r =
    (p : InjectionPlan) × ((r ≡ ok p)
      × (Permᴰ p.cookies (submitted_cookies cs) × Permᴰ p.headers (submitted_headers [] ts)))

module _ (aead : Aead) where
  abbrev HeldAt : Result OriginalSession × Db → Type 0
  HeldAt (ok a, d) = Held aead a.id [] [] d
  HeldAt (err e, d) = Unit

  unless :
      (b : Bool) (e : Error) (d : Db) (x : Result OriginalSession × Db)
      → HeldAt x
      → HeldAt (if b then (err e, d) else x)
  unless true e d x h = tt
  unless false e d x h = h

  -- The next session has no rows yet.
  IsFresh-Held : (d : Db) → IsFresh d → Held aead d.next_id [] [] d
  IsFresh-Held d h =
      rw
        (
          where_rows-below (λ c. c.original_session_id) d.next_id d.session_cookies h.0,
          where_rows-below (λ t. t.original_session_id) d.next_id d.session_tokens h.1,
        )
        (tt, tt)

  insert_session-Held :
      (s : OriginalSession) (now : ℕ) (d : Db) → IsFresh d → HeldAt (insert_session s now d)
  unfolding insert_session
  insert_session-Held s now d h =
      unless
        (not (any_row (λ u. u.id == s.user_id) d.users)
          || not (any_row (λ t. t.id == s.target_site_id) d.target_sites))
        _ d _ (IsFresh-Held d h)

module _ {R : Type 0} (aead : Aead) where
  create-Held :
      (s : OriginalSession)
      → Ensures {R = R} FreshIn (Sessions.create s) (λ a. HeldIn aead a.id [] [])
  unfolding Sessions.create
  create-Held s = Ensures-query _ _ (λ w a os p e. (
    subst (λ r. HeldAt aead (r, (insert_session s w.now w.db).1)) e
        (insert_session-Held aead s w.now w.db p.0),
    p.1,
  ))

  store_cookies-Held :
      (session : ℕ) (cs : List CookieInput)
      → All (λ c. IsBytes c.value) cs
      → Ensures {R = R}
          (HeldIn aead session [] [])
          (store_cookies aead session cs)
          (λ _. HeldIn aead session cs [])
  unfolding store_cookies
  store_cookies-Held session [] h = Ensures-pure _ _ (λ w p. p)
  store_cookies-Held session (c ∷ cs) h =
      Ensures-bind _ _ _ _
        (encrypt_cookies-Random aead (Held aead session [] []) session (c ∷ cs) h)
        (λ rows. Ensures-assume _ (λ r. create_cookies-Held aead session rows (c ∷ cs) [] [] r))

  store_tokens-Held :
      (session : ℕ) (cs : List CookieInput) (ts : List TokenInput)
      → All (λ t. IsBytes t.value) ts
      → Ensures {R = R}
          (HeldIn aead session cs [])
          (store_tokens aead session ts)
          (λ _. HeldIn aead session cs ts)
  unfolding store_tokens
  store_tokens-Held session cs [] h = Ensures-pure _ _ (λ w p. p)
  store_tokens-Held session cs (t ∷ ts) h =
      Ensures-bind _ _ _ _ (encrypt_tokens-Random aead (Held aead session cs []) session (t ∷ ts) h)
        (λ rows. Ensures-assume _ (λ r. create_tokens-Held aead session rows (t ∷ ts) cs [] r))

  import_session-Held :
      (user : ℕ) (domain name : String) (url : Bytes) (cs : List CookieInput) (ts : List TokenInput)
      → All (λ c. IsBytes c.value) cs
      → All (λ t. IsBytes t.value) ts
      → Ensures {R = R} FreshIn
          (import_session aead user domain name url cs ts)
          (λ a. HeldIn aead a.id cs ts)
  unfolding import_session
  import_session-Held user domain name url cs ts h k =
      Ensures-bind _ _ _ _ (Ensures-Keeps _ (get_or_create-Fresh domain name url)) (λ site.
        Ensures-bind _ _ _ _ (create-Held _) (λ session.
          Ensures-bind _ _ _ _ (store_cookies-Held session.id cs h) (λ _.
            Ensures-bind _ _ _ _ (store_tokens-Held session.id cs ts k)
              (λ _. Ensures-pure _ _ (λ w p. p)))))

  injected :
      (session : ℕ) (cs : List CookieInput) (ts : List TokenInput) (v : World R)
      → Held aead session cs ts v.db
      → Rearranges v.db
      → AllAnswered v
      → Injects cs ts (build_injection_plan (decrypt aead) session v).0
  unfolding build_injection_plan lifted ◌>>=◌ Sessions.list_cookies Sessions.list_tokens
      select_cookies select_tokens query settle
  injected session cs ts v h r a =
      let (ds, (k, d)) =
        All2-Permᴰ (CarriesCookie (decrypt aead)) cs (r.0 (cookies_of session v.db)) h.0 in
      let (us, (l, u)) =
        All2-Permᴰ (CarriesToken (decrypt aead)) ts (r.1 (tokens_of session v.db)) h.1 in
      (
        record { cookies = submitted_cookies ds; headers = submitted_headers [] us },
        (
          rw
              (
                a,
                plan_cookies-submitted (decrypt aead) (v.db.scan_cookies (cookies_of session v.db))
                    ds k,
                plan_headers-submitted (decrypt aead) [] (v.db.scan_tokens (tokens_of session v.db))
                    us l,
              )
              refl,
          (submitted_cookies-Permᴰ d, submitted_headers-Permᴰ u),
        ),
      )

-- A session that Import returns is injected as it was submitted: however the calls of Import end
-- while it returns, where the tables then stay as they are, the calls of the proxy are answered and
-- a SELECT without ORDER BY returns the rows it finds in any order, the injection plan of the
-- session has exactly the submitted cookies and the submitted tokens, each under its header's name
-- or Authorization, up to their order.
pub import_session-injected :
    {R : Type 0} (aead : Aead) (user : ℕ) (domain name : String) (url : Bytes)
    (cs : List CookieInput) (ts : List TokenInput) (session : OriginalSession) (w w' v : World R)
    → All (λ c. IsBytes c.value) cs
    → All (λ t. IsBytes t.value) ts
    → IsFresh w.db
    → All IsBytes w.random
    → import_session aead user domain name url cs ts w ≡ (ok session, w')
    → v.db ≡ w'.db
    → Rearranges v.db
    → AllAnswered v
    → Injects cs ts (build_injection_plan (decrypt aead) session.id v).0
import_session-injected aead user domain name url cs ts session w w' v hc ht f b e same r a =
    injected aead session.id cs ts v
      (subst (Held aead session.id cs ts) (sym same)
        (subst (Post (λ s. HeldIn aead s.id cs ts)) e
          ((import_session-Held aead user domain name url cs ts hc ht).at w (f, b))).0)
      r a
