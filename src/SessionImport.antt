-- ===== src/SessionImport.antt =====
-- app/internal/service/session_import.go: an owner's cookies and tokens, encrypted and stored.
pub mod Plans
pub mod Encrypted
pub mod Stored
pub mod Fresh
pub mod Order
pub mod Injected
mod Tests
use session_proxy.Base.{ℕ, String, Bool, Option, none, some, List, [], ◌∷◌}
use session_proxy.Base.Bytes.{Bytes, codes}
use session_proxy.Domain.{OriginalSession, SessionCookie, SessionToken}
use session_proxy.Store.App.{App, pure, ◌>>=◌, ◌>>◌}
use session_proxy.Crypto.{Aead, encrypt}
use session_proxy.Repo.Sessions

pub record CookieInput : Type 0 where
  pub name : Bytes
  pub value : Bytes
  pub domain : Bytes
  pub path : Bytes
  pub secure : Bool
  pub http_only : Bool
  pub same_site : Bytes

pub record TokenInput : Type 0 where
  pub token_type : Bytes
  pub header_name : Bytes
  pub value : Bytes

-- A pointer to a text, nil where the text is empty.
abbrev pub given : Bytes → Option Bytes
given [] = none
given (b ∷ bs) = some (b ∷ bs)

abbrev pub type_or_bearer : Bytes → Bytes
type_or_bearer [] = codes "bearer"
type_or_bearer (b ∷ bs) = b ∷ bs

abbrev pub cookie_row : ℕ → CookieInput → Bytes → SessionCookie
cookie_row session c encrypted = record {
  id = 0;
  original_session_id = session;
  name = c.name;
  value_encrypted = encrypted;
  domain = given c.domain;
  path = c.path;
  secure = c.secure;
  http_only = c.http_only;
  same_site = given c.same_site;
  expires_at = none;
  created_at = 0;
}

abbrev pub token_row : ℕ → TokenInput → Bytes → SessionToken
token_row session t encrypted = record {
  id = 0;
  original_session_id = session;
  token_type = some (type_or_bearer t.token_type);
  header_name = given t.header_name;
  value_encrypted = encrypted;
  expires_at = none;
  created_at = 0;
}

module _ {R : Type 0} (aead : Aead) where
  unfoldable pub encrypt_cookies : ℕ → List CookieInput → App R (List SessionCookie)
  encrypt_cookies session [] = pure []
  encrypt_cookies session (c ∷ cs) = do
    encrypted ← encrypt aead c.value
    rest ← encrypt_cookies session cs
    pure (cookie_row session c encrypted ∷ rest)

  unfoldable pub encrypt_tokens : ℕ → List TokenInput → App R (List SessionToken)
  encrypt_tokens session [] = pure []
  encrypt_tokens session (t ∷ ts) = do
    encrypted ← encrypt aead t.value
    rest ← encrypt_tokens session ts
    pure (token_row session t encrypted ∷ rest)

  -- if len(cookieInputs) > 0
  unfoldable pub store_cookies : ℕ → List CookieInput → App R (Unit {0})
  store_cookies session [] = pure tt
  store_cookies session (c ∷ cs) = do
    rows ← encrypt_cookies session (c ∷ cs)
    Sessions.create_cookies rows

  -- if len(tokenInputs) > 0
  unfoldable pub store_tokens : ℕ → List TokenInput → App R (Unit {0})
  store_tokens session [] = pure tt
  store_tokens session (t ∷ ts) = do
    rows ← encrypt_tokens session (t ∷ ts)
    Sessions.create_tokens rows

  unfoldable pub import_session :
      ℕ → String → String → Bytes → List CookieInput → List TokenInput → App R OriginalSession
  import_session user base_domain site_name base_url cookies tokens = do
    site ← Sessions.get_or_create_by_domain base_domain site_name base_url
    session ← Sessions.create (record {
      id = 0;
      user_id = user;
      target_site_id = site.id;
      device_id = none;
      status = "";
      label = none;
      imported_at = 0;
      expires_at = none;
    })
    store_cookies session.id cookies
    store_tokens session.id tokens
    pure session
