-- ===== src/Api/Router/Credential.antt =====
-- No authenticated call is served without a credential.
use session_proxy.Base.{
  ℕ, String, ◌≡◌, refl, sym, ap, ◌∙◌, subst, ◌⊎◌, inl, inr, true, false, Option, none, some, ◌++◌,
  arith, Bool-cases, length, drop,
}
use session_proxy.Base.Bytes.{Bytes, has_prefix, has_prefix_sound}
use session_proxy.Store.App.{App, World, Result, ok, err, ◌>>=◌}
use session_proxy.Store.Reads.{
  Same, Reads, Reads-query, Reads-bind, Reads-pure, Reads-throw, Reads-if, Reads-gets, Reads-lift,
  Reads-attempt,
}
use session_proxy.Domain.{ApiKey}
use session_proxy.Repo.Users.{select_key_by_hash}
use session_proxy.Repo.Users
use session_proxy.Auth.{verify_api_key, judge_key, accept_key, is_expired}
use session_proxy.Auth.Keys.{IsValidKey, verify_api_key_sound}
use session_proxy.Api.Reply.{Reply}
use session_proxy.Api.Middleware.{
  bad_credentials, missing_header, bearer_prefix, api_key_prefix, bearer_token, verify_token,
  with_user, with_token, require_auth,
}
use session_proxy.Api.Router.{Outside, OwnerCall, authenticated, serve_owner, serve_api}

-- The header is a bearer token that is a valid api key or a JWT of the user.
abbrev pub IsCredential :
    (Bytes → String) → (ℕ → Bytes → Result ℕ) → Bytes → ℕ → {R : Type 0} → World R → Type 0
IsCredential sha256_hex verify_jwt header user w =
    (token : Bytes) × ((header ≡ bearer_prefix ++ token)
      × (IsValidKey (sha256_hex token) user w.now w.db ⊎ (verify_jwt w.now token ≡ ok user)))

of_some : {A : Type 0} {a b : A} → some a ≡ some b → a ≡ b
of_some p = cc

bearer_token_trimmed :
    (h : Bytes)
    → has_prefix h bearer_prefix ≡ true
    → bearer_token h ≡ some (drop (length bearer_prefix) h)
unfolding bearer_token
bearer_token_trimmed h t = rw t refl

bearer_token_sound : (h token : Bytes) → bearer_token h ≡ some token → h ≡ bearer_prefix ++ token
unfolding bearer_token
bearer_token_sound h token e = by_prefix (Bool-cases (has_prefix h bearer_prefix))
  where
    by_prefix :
        (has_prefix h bearer_prefix ≡ true) ⊎ (has_prefix h bearer_prefix ≡ false)
        → h ≡ bearer_prefix ++ token
    by_prefix (inl t) =
        has_prefix_sound h bearer_prefix t
        ∙ ap (λ s. bearer_prefix ++ s) (of_some (sym (bearer_token_trimmed h t) ∙ e))
    by_prefix (inr f) = absurd (ground (arith, e, f))

module _ {R : Type 0} (sha256_hex : Bytes → String) (verify_jwt : ℕ → Bytes → Result ℕ) where
  accept-Reads : (k : ApiKey) (r : Option ℕ) → Reads {R = R} (accept_key sha256_hex k r)
  unfolding accept_key
  accept-Reads k (some r) = Reads-throw _
  accept-Reads k none =
      Reads-bind _ _ (Reads-gets _)
        (λ now. Reads-if (is_expired k.expires_at now) _ _ (Reads-throw _) (Reads-pure _))

  judge-Reads : (r : Result ApiKey) → Reads {R = R} (judge_key sha256_hex r)
  unfolding judge_key
  judge-Reads (ok k) = accept-Reads k k.revoked_at
  judge-Reads (err e) = Reads-throw _

  verify_token-Reads : (token : Bytes) → Reads {R = R} (verify_token sha256_hex verify_jwt token)
  unfolding verify_token verify_api_key Users.get_by_hash select_key_by_hash
  verify_token-Reads token =
      Reads-if (has_prefix token api_key_prefix) _ _
        (Reads-bind _ _ (Reads-attempt _ (Reads-query _ (λ now d. refl))) judge-Reads)
        (Reads-bind _ _ (Reads-gets _) (λ now. Reads-lift _))

  verify_token_key :
      (token : Bytes) (w : World R)
      → has_prefix token api_key_prefix ≡ true
      → verify_token sha256_hex verify_jwt token w ≡ verify_api_key sha256_hex token w
  unfolding verify_token
  verify_token_key token w t = rw t refl

  verify_token_jwt :
      (token : Bytes) (w : World R)
      → has_prefix token api_key_prefix ≡ false
      → (verify_token sha256_hex verify_jwt token w).0 ≡ verify_jwt w.now token
  unfolding verify_token ◌>>=◌
  verify_token_jwt token w f = rw f refl

  verify_token_sound :
      (token : Bytes) (user : ℕ) (w v : World R)
      → verify_token sha256_hex verify_jwt token w ≡ (ok user, v)
      → IsValidKey (sha256_hex token) user w.now w.db ⊎ (verify_jwt w.now token ≡ ok user)
  verify_token_sound token user w v e = by_prefix (Bool-cases (has_prefix token api_key_prefix))
    where
      by_prefix :
          (has_prefix token api_key_prefix ≡ true) ⊎ (has_prefix token api_key_prefix ≡ false)
          → IsValidKey (sha256_hex token) user w.now w.db ⊎ (verify_jwt w.now token ≡ ok user)
      by_prefix (inl t) =
          inl
            (verify_api_key_sound sha256_hex token user w v (sym (verify_token_key token w t) ∙ e))
      by_prefix (inr f) = inr (sym (verify_token_jwt token w f) ∙ ap (λ r. r.0) e)

module _ {R : Type 0} (sha256_hex : Bytes → String) (verify_jwt : ℕ → Bytes → Result ℕ)
    (next : ℕ → App R Reply) where
  -- The action ends with 401 and no change, or goes on as a user with a credential.
  abbrev pub Guarded : Bytes → App R Reply → World R → Type 0
  Guarded header m w =
      ((r : Reply) × ((r.status ≡ 401) × (((m w).0 ≡ ok r) × Same w (m w).1)))
      ⊎ ((user : ℕ) × (IsCredential sha256_hex verify_jwt header user w
            × ((v : World R) × (Same w v × (m w ≡ next user v)))))

  token-Guarded :
      (header token : Bytes) (w : World R)
      → header ≡ bearer_prefix ++ token
      → Guarded header (with_token sha256_hex verify_jwt next (some token)) w
  unfolding with_token with_user ◌>>=◌
  token-Guarded header token w h = verified (verify_token sha256_hex verify_jwt token w) refl
    where
      verified :
          (x : Result ℕ × World R)
          → verify_token sha256_hex verify_jwt token w ≡ x
          → Guarded header (with_token sha256_hex verify_jwt next (some token)) w
      verified (ok user, v) e = inr (
        user,
        (
          (token, (h, verify_token_sound sha256_hex verify_jwt token user w v e)),
          (
            v,
            (
              subst (λ x. Same w x.1) e ((verify_token-Reads sha256_hex verify_jwt token).same w),
              ap (λ x. with_user sha256_hex verify_jwt next x.0 x.1) e,
            ),
          ),
        ),
      )
      verified (err b, v) e = inl (
        bad_credentials,
        (
          refl,
          (
            ap (λ x. (with_user sha256_hex verify_jwt next x.0 x.1).0) e,
            subst (λ x. Same w (with_user sha256_hex verify_jwt next x.0 x.1).1) (sym e)
                (subst (λ x. Same w x.1) e
                  ((verify_token-Reads sha256_hex verify_jwt token).same w)),
          ),
        ),
      )

  require_auth-Guarded :
      (header : Bytes) (w : World R)
      → Guarded header (require_auth sha256_hex verify_jwt header next) w
  unfolding require_auth with_token ◌>>=◌
  require_auth-Guarded header w = by_token (bearer_token header) refl
    where
      by_token :
          (t : Option Bytes)
          → bearer_token header ≡ t
          → Guarded header (with_token sha256_hex verify_jwt next t) w
      by_token none e = inl (missing_header, (refl, (refl, (refl, refl))))
      by_token (some token) e = token-Guarded header token w (bearer_token_sound header token e)

-- A call of the authenticated group either is answered with status 401 and changes neither the
-- tables nor Redis, or it is served, on the same tables and the same Redis, for a user whose valid
-- api key or JWT the Authorization header holds. It may fail to reach Postgres at any call.
pub serve_api_authenticated :
    {R : Type 0} (out : Outside) (header : Bytes) (call : OwnerCall) (w : World R)
    → Guarded out.sha256_hex out.verify_jwt
        (λ user. serve_owner out user call)
        header
        (serve_api out header (authenticated call))
        w
unfolding serve_api
serve_api_authenticated out header call w =
    require_auth-Guarded out.sha256_hex out.verify_jwt (λ user. serve_owner out user call) header w
