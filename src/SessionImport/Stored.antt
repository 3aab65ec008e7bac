-- ===== src/SessionImport/Stored.antt =====
-- How the rows of an import are inserted.
use session_proxy.Base.{
  ℕ, ◌≡◌, subst, ◌⊎◌, inl, inr, true, false, List, [], ◌∷◌, ◌++◌, append-nil, append_assoc, arith,
  ◌==◌, ==_self, Bool-cases, any_row, All, where_rows-append,
}
use session_proxy.Base64.Std.RoundTrip.{IsBytes}
use session_proxy.Domain.{SessionCookie, SessionToken}
use session_proxy.Store.Db.{Db}
use session_proxy.Store.App.{World, ok}
use session_proxy.Store.Ensures.{Ensures, Ensures-pure, Ensures-bind, Ensures-query}
use session_proxy.Repo.Sessions.{insert_cookie, insert_token, path_or_root}
use session_proxy.Repo.Sessions
use session_proxy.Crypto.{Aead, decrypt}
use session_proxy.SessionImport.{CookieInput, TokenInput}
use session_proxy.SessionImport.Plans.{
  All2, All2-append, CarriesCookie, CarriesToken, cookies_of, tokens_of,
}
use session_proxy.SessionImport.Encrypted.{CookieRow, TokenRow}

module _ (aead : Aead) (session : ℕ) where
  -- The session's rows carry these inputs.
  abbrev pub Held : List CookieInput → List TokenInput → Db → Type 0
  Held cs ts d =
      All2 (CarriesCookie (decrypt aead)) (cookies_of session d) cs
      × All2 (CarriesToken (decrypt aead)) (tokens_of session d) ts

  insert_cookie-Held :
      (r : SessionCookie) (c : CookieInput) (cs : List CookieInput) (ts : List TokenInput) (now : ℕ)
      (d : Db)
      → CookieRow aead session r c
      → Held cs ts d
      → (insert_cookie r now d).0 ≡ ok tt
      → Held (cs ++ c ∷ []) ts (insert_cookie r now d).1
  unfolding insert_cookie
  insert_cookie-Held r c cs ts now d row held e =
      by_row (Bool-cases (any_row (λ s. s.id == r.original_session_id) d.original_sessions))
    where
      by_row :
          (any_row (λ s. s.id == r.original_session_id) d.original_sessions ≡ true)
            ⊎ (any_row (λ s. s.id == r.original_session_id) d.original_sessions ≡ false)
          → Held (cs ++ c ∷ []) ts (insert_cookie r now d).1
      by_row (inr f) = absurd (ground (arith, e, f))
      by_row (inl t) =
          rw
            (
              t,
              where_rows-append (λ c. c.original_session_id == session) d.session_cookies
                  (record r { id = d.next_id; path = path_or_root r.path; created_at = now } ∷ []),
              row.0,
              ==_self session,
            )
            (
              All2-append (CarriesCookie (decrypt aead)) (cookies_of session d) cs
                  (record r {
                    id = d.next_id;
                    original_session_id = session;
                    path = path_or_root r.path;
                    created_at = now;
                  }
                    ∷ [])
                  (c ∷ []) held.0 (row.1, tt),
              held.1,
            )

  insert_token-Held :
      (r : SessionToken) (t : TokenInput) (cs : List CookieInput) (ts : List TokenInput) (now : ℕ)
      (d : Db)
      → TokenRow aead session r t
      → Held cs ts d
      → (insert_token r now d).0 ≡ ok tt
      → Held cs (ts ++ t ∷ []) (insert_token r now d).1
  unfolding insert_token
  insert_token-Held r t cs ts now d row held e =
      by_row (Bool-cases (any_row (λ s. s.id == r.original_session_id) d.original_sessions))
    where
      by_row :
          (any_row (λ s. s.id == r.original_session_id) d.original_sessions ≡ true)
            ⊎ (any_row (λ s. s.id == r.original_session_id) d.original_sessions ≡ false)
          → Held cs (ts ++ t ∷ []) (insert_token r now d).1
      by_row (inr f) = absurd (ground (arith, e, f))
      by_row (inl k) =
          rw
            (
              k,
              where_rows-append (λ c. c.original_session_id == session) d.session_tokens
                  (record r { id = d.next_id; created_at = now } ∷ []),
              row.0,
              ==_self session,
            )
            (
              held.0,
              All2-append (CarriesToken (decrypt aead)) (tokens_of session d) ts
                  (record r { id = d.next_id; original_session_id = session; created_at = now }
                    ∷ [])
                  (t ∷ []) held.1 (row.1, tt),
            )

  module _ {R : Type 0} where
    -- Beside what crypto/rand gives.
    abbrev pub HeldIn : List CookieInput → List TokenInput → World R → Type 0
    HeldIn cs ts w = Held cs ts w.db × All IsBytes w.random

    pub create_cookies-Held :
        (rows : List SessionCookie) (new cs : List CookieInput) (ts : List TokenInput)
        → All2 (CookieRow aead session) rows new
        → Ensures (HeldIn cs ts) (Sessions.create_cookies rows) (λ _. HeldIn (cs ++ new) ts)
    unfolding Sessions.create_cookies
    create_cookies-Held [] [] cs ts h = Ensures-pure _ _ (λ w p. rw (append-nil cs) p)
    create_cookies-Held [] (c ∷ new) cs ts h = absurd h
    create_cookies-Held (r ∷ rows) [] cs ts h = absurd h
    create_cookies-Held (r ∷ rows) (c ∷ new) cs ts h =
        Ensures-bind _ _ (λ _. HeldIn (cs ++ c ∷ []) ts) _
          (Ensures-query _ _
            (λ w a os p e. (insert_cookie-Held r c cs ts w.now w.db h.0 p.0 e, p.1)))
          (λ _.
            subst
              (λ xs.
                Ensures (HeldIn (cs ++ c ∷ []) ts) (Sessions.create_cookies rows)
                  (λ _. HeldIn xs ts))
              (append_assoc cs (c ∷ []) new) (create_cookies-Held rows new (cs ++ c ∷ []) ts h.1))

    pub create_tokens-Held :
        (rows : List SessionToken) (new : List TokenInput) (cs : List CookieInput)
        (ts : List TokenInput)
        → All2 (TokenRow aead session) rows new
        → Ensures (HeldIn cs ts) (Sessions.create_tokens rows) (λ _. HeldIn cs (ts ++ new))
    unfolding Sessions.create_tokens
    create_tokens-Held [] [] cs ts h = Ensures-pure _ _ (λ w p. rw (append-nil ts) p)
    create_tokens-Held [] (t ∷ new) cs ts h = absurd h
    create_tokens-Held (r ∷ rows) [] cs ts h = absurd h
    create_tokens-Held (r ∷ rows) (t ∷ new) cs ts h =
        Ensures-bind _ _ (λ _. HeldIn cs (ts ++ t ∷ [])) _
          (Ensures-query _ _
            (λ w a os p e. (insert_token-Held r t cs ts w.now w.db h.0 p.0 e, p.1)))
          (λ _.
            subst
              (λ xs.
                Ensures (HeldIn cs (ts ++ t ∷ [])) (Sessions.create_tokens rows)
                  (λ _. HeldIn cs xs))
              (append_assoc ts (t ∷ []) new) (create_tokens-Held rows new cs (ts ++ t ∷ []) h.1))
