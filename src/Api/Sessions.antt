-- ===== src/Api/Sessions.antt =====
-- app/internal/transport/http/handlers_sessions.go.
use session_proxy.Base.{
  ℕ, String, Bool, true, false, ◌||◌, not, Option, none, some, List, [], ◌∷◌, str_eq, ◌==◌,
  if◌then◌else◌,
}
use session_proxy.Base.Bytes.{Bytes}
use session_proxy.Domain.{OriginalSession}
use session_proxy.Store.App.{App, pure}
use session_proxy.Repo.Sessions
use session_proxy.Crypto.{Aead}
use session_proxy.SessionImport.{CookieInput, TokenInput, import_session}
use session_proxy.Api.Reply.{
  Reply, write_json, write_error, respond, respond_or_500, session, sessions,
}

-- Its cookies and tokens have the fields of the service's inputs.
pub record ImportSessionRequest : Type 0 where
  pub base_domain : String
  pub site_name : String
  pub base_url : Bytes
  pub cookies : List CookieInput
  pub tokens : List TokenInput

abbrev pub is_empty : Bytes → Bool
is_empty [] = true
is_empty (b ∷ bs) = false

abbrev pub site_name_of : ImportSessionRequest → String
site_name_of req = if str_eq req.site_name "" then req.base_domain else req.site_name

abbrev pub own_session : ℕ → OriginalSession → Reply
own_session user s =
    if not (s.user_id == user)
    then write_error 404 "session not found"
    else write_json 200 (session s)

module _ {R : Type 0} (user : ℕ) where
  unfoldable pub handle_import_session : Aead → Option ImportSessionRequest → App R Reply
  handle_import_session aead none = pure (write_error 400 "base_domain and base_url are required")
  handle_import_session aead (some req) =
      if str_eq req.base_domain "" || is_empty req.base_url
      then pure (write_error 400 "base_domain and base_url are required")
      else respond_or_500
          (import_session aead user req.base_domain (site_name_of req) req.base_url req.cookies
            req.tokens)
          (λ s. write_json 201 (session s))

  unfoldable pub handle_list_sessions : App R Reply
  handle_list_sessions =
      respond_or_500 (Sessions.list_by_user user) (λ ss. write_json 200 (sessions ss))

  unfoldable pub handle_get_session : Option ℕ → App R Reply
  handle_get_session none = pure (write_error 400 "invalid session id")
  handle_get_session (some id) =
      respond (Sessions.get_by_id id) (λ e. write_error 404 "session not found") (own_session user)
