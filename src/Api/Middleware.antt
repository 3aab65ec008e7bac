-- ===== src/Api/Middleware.antt =====
-- app/internal/transport/http/middleware: authentication and the ownership of links. A handler
-- that is wrapped is a function of the user and the link that the wrapper found.
use session_proxy.Base.{ℕ, String, not, Option, none, some, ◌==◌, if◌then◌else◌}
use session_proxy.Base.Bytes.{Bytes, codes, has_prefix, trim_prefix}
use session_proxy.Store.App.{App, Result, ok, err, pure, lift, attempt, gets, ◌>>=◌}
use session_proxy.Repo.Links
use session_proxy.Auth.{verify_api_key}
use session_proxy.Api.Reply.{Reply, http_error}

abbrev pub bearer_prefix : Bytes
bearer_prefix = codes "Bearer "

abbrev pub api_key_prefix : Bytes
api_key_prefix = codes "spk_"

-- Of the value of the Authorization header, which is empty where there is none
unfoldable pub bearer_token : Bytes → Option Bytes
bearer_token h = if has_prefix h bearer_prefix then some (trim_prefix h bearer_prefix) else none

abbrev pub missing_header : Reply
missing_header = http_error "missing or malformed Authorization header" 401

abbrev pub bad_credentials : Reply
bad_credentials = http_error "invalid credentials" 401

abbrev pub link_not_found : Reply
link_not_found = http_error "not found" 404

-- A function of the time and the token for VerifyJWT
module _ {R : Type 0} (sha256_hex : Bytes → String) (verify_jwt : ℕ → Bytes → Result ℕ) where
  unfoldable pub verify_token : Bytes → App R ℕ
  verify_token token =
      if has_prefix token api_key_prefix
      then verify_api_key sha256_hex token
      else (do now ← gets (λ w. w.now); lift (verify_jwt now token))

  unfoldable pub with_user : (ℕ → App R Reply) → Result ℕ → App R Reply
  with_user next (err e) = pure bad_credentials
  with_user next (ok user) = next user

  unfoldable pub with_token : (ℕ → App R Reply) → Option Bytes → App R Reply
  unfolding with_user
  with_token next none = pure missing_header
  with_token next (some token) = do verified ← attempt (verify_token token); with_user next verified

  unfoldable pub require_auth : Bytes → (ℕ → App R Reply) → App R Reply
  unfolding with_token
  require_auth header next = with_token next (bearer_token header)

module _ {R : Type 0} (user : ℕ) where
  unfoldable pub with_owner : ℕ → (ℕ → App R Reply) → Result ℕ → App R Reply
  with_owner link next (err e) = pure link_not_found
  with_owner link next (ok owner) = if not (owner == user) then pure link_not_found else next link

  unfoldable pub require_link_ownership : Option ℕ → (ℕ → App R Reply) → App R Reply
  unfolding with_owner
  require_link_ownership none next = pure (http_error "invalid link id" 400)
  require_link_ownership (some link) next = do
    owner ← attempt (Links.owner_user_id link)
    with_owner link next owner
